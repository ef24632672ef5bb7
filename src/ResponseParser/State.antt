-- ===== src/ResponseParser/State.antt =====
-- src/http/response_parser.hpp: the parser's state, and the ways in which a case of its switch ends.
use cpp_request.Base.{ℕ, Bool, false, [], Bytes}
use cpp_request.Base.Loop.{Step, next, stop}
use cpp_request.Error.{ErrorCode, Error, Result, ok, err, fail}
use cpp_request.Limits.{ResponseLimits}
use cpp_request.Request.{Method}
use cpp_request.Response.{Response, empty_response}
use cpp_request.Chunked.{ChunkedDecoder, new_decoder}

pub data ResponseParseProgress : Type 0 where
  need_more complete : ResponseParseProgress

pub data Stage : Type 0 where
  reading_head content_length_body close_delimited_body chunked_body completed : Stage

pub record ResponseParser : Type 0 where
  pub request_method : Method
  pub limits : ResponseLimits
  pub stage : Stage
  pub response : Response
  pub buffer : Bytes
  pub chunked_decoder : ChunkedDecoder
  pub content_length_remaining : ℕ
  pub connection_close_requested : Bool
  pub close_delimited : Bool
  pub body_forbidden : Bool

abbrev pub new_parser : Method → ResponseLimits → ResponseParser
new_parser method limits = record {
  request_method = method;
  limits = limits;
  stage = reading_head;
  response = empty_response;
  buffer = [];
  chunked_decoder = new_decoder limits;
  content_length_remaining = 0;
  connection_close_requested = false;
  close_delimited = false;
  body_forbidden = false;
}

-- A `return`: the parser at that point, and the result.
pub record Returned : Type 0 where
  pub parser : ResponseParser
  pub result : Result ResponseParseProgress

abbrev pub ParserStep : Type 0
ParserStep = Step ResponseParser Returned

abbrev pub return_error : ResponseParser → Error → ParserStep
return_error p e = stop (record { parser = p; result = err e })

abbrev pub return_fail : ResponseParser → ErrorCode → ParserStep
return_fail p c = stop (record { parser = p; result = fail c })

abbrev pub return_need_more : ResponseParser → ParserStep
return_need_more p = stop (record { parser = p; result = ok need_more })

-- `stage_ = Stage::Complete; return ResponseParseProgress::Complete;`
abbrev pub return_complete : ResponseParser → ParserStep
return_complete p = stop (record { parser = record p { stage = completed }; result = ok complete })

abbrev pub go_to : Stage → ResponseParser → ParserStep
go_to s p = next (record p { stage = s })

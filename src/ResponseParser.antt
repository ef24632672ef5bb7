-- ===== src/ResponseParser.antt =====
-- src/http/response_parser.hpp and src/http/response_parser.cpp: the incremental parser of a
-- response. The loop of `process_buffer` is a step function under `loop`.
pub mod State
pub mod Head
pub mod Framing
pub mod Frame
pub mod Body
pub mod Returns
pub mod Invariant
pub mod Bounds
pub mod FramingCounts
pub mod Unambiguous
pub mod CloseRequests
pub mod Reuse
pub mod Asked
use cpp_request.Base.{
  ℕ, ◌+◌, ◌-◌, Bool, true, false, not, ◌&&◌, ◌||◌, Option, none, some, [], ◌∷◌, ◌++◌, min, ltb,
  ◌==◌, if◌then◌else◌, Bytes, length, is_empty, take, drop, find,
}
use cpp_request.Base.Loop.{Step, next, stop, stuck, loop}
use cpp_request.Error.{
  ErrorCode, Error, Result, ok, err, fail, response_limit_exceeded, malformed_response,
  conflicting_message_framing, invalid_content_length, unexpected_eof,
}
use cpp_request.Limits.{ResponseLimits, would_exceed}
use cpp_request.Headers.{Headers}
use cpp_request.Request.{Method}
use cpp_request.Response.{Response, empty_response}
use cpp_request.Chunked.{ChunkedDecoder, ChunkDecodeProgress, new_decoder, Processed, process, crlf}
use cpp_request.Chunked
use State.{
  ResponseParseProgress, need_more, complete, Stage, reading_head, content_length_body,
  close_delimited_body, chunked_body, completed, ResponseParser, new_parser, Returned, ParserStep,
  return_error, return_fail, return_need_more, return_complete, go_to,
}
use Body.{
  step_head, step_content_length_body, drain_buffer, step_close_delimited_body, step_chunked_body,
}

abbrev pub crlf_crlf : Bytes
crlf_crlf = crlf ++ crlf

-- `switch (stage_)`.
unfoldable pub step_at : Stage → ResponseParser → ParserStep
step_at reading_head p = step_head p (find crlf_crlf p.buffer)
step_at content_length_body p = step_content_length_body p
step_at close_delimited_body p = step_close_delimited_body p (drain_buffer p)
step_at chunked_body p = step_chunked_body p (process p.chunked_decoder p.buffer p.response.body)
step_at completed p = stop (record { parser = p; result = ok complete })

unfoldable pub step : ResponseParser → ParserStep
step p = step_at p.stage p

-- Only a head goes on to another round, and it is erased from the buffer: the measure falls.
abbrev pub measure : ResponseParser → ℕ
measure p = length p.buffer

unfoldable pub process_buffer : ResponseParser → Option Returned
process_buffer p = loop (measure p + 1) step p

unfoldable pub feed : ResponseParser → Bytes → Option Returned
feed p bytes = process_buffer (record p { buffer = p.buffer ++ bytes })

unfoldable pub finish_drained : ResponseParser → Result ResponseParser → Returned
finish_drained p (err e) = record { parser = p; result = err e }
finish_drained p (ok q) = record { parser = record q { stage = completed }; result = ok complete }

unfoldable pub finish_at : Stage → ResponseParser → Returned
finish_at close_delimited_body p = finish_drained p (drain_buffer p)
finish_at completed p = record { parser = p; result = ok complete }
finish_at content_length_body p = record { parser = p; result = fail unexpected_eof }
finish_at reading_head p = record { parser = p; result = fail unexpected_eof }
finish_at chunked_body p = record { parser = p; result = fail unexpected_eof }

unfoldable pub finish_eof : ResponseParser → Returned
finish_eof p = finish_at p.stage p

abbrev pub is_completed : Stage → Bool
is_completed completed = true
is_completed _ = false

unfoldable pub is_complete : ResponseParser → Bool
is_complete p = is_completed p.stage

unfoldable pub connection_reusable : ResponseParser → Bool
connection_reusable p = is_complete p && not p.connection_close_requested && not p.close_delimited

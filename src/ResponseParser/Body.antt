-- ===== src/ResponseParser/Body.antt =====
-- src/http/response_parser.cpp, `process_buffer`: the cases of its switch, each a function by clauses
-- on what the case computes.
use cpp_request.Base.{
  ℕ, ◌+◌, ◌-◌, not, ◌&&◌, Option, none, some, [], ◌++◌, min, ltb, ◌==◌, if◌then◌else◌, Bytes,
  length, is_empty, take, drop,
}
use cpp_request.Base.Loop.{stuck}
use cpp_request.Error.{Result, ok, err, fail, response_limit_exceeded, malformed_response}
use cpp_request.Limits.{would_exceed}
use cpp_request.Chunked.{ChunkedDecoder, ChunkDecodeProgress, new_decoder, Processed, process, crlf}
use cpp_request.Chunked
use cpp_request.ResponseParser.State.{
  ResponseParser, ParserStep, return_error, return_fail, return_need_more, return_complete,
}
use cpp_request.ResponseParser.Head.{parse_head}
use cpp_request.ResponseParser.Frame.{parsed_head}

-- `case Stage::Head`, by the end of the head.
unfoldable pub step_head : ResponseParser → Option ℕ → ParserStep
step_head p none =
    if ltb p.limits.max_head_bytes (length p.buffer)
    then return_fail p response_limit_exceeded
    else return_need_more p
step_head p (some head_end) =
    if would_exceed head_end 4 p.limits.max_head_bytes
    then return_fail p response_limit_exceeded
    else parsed_head p (drop (head_end + 4) p.buffer) (parse_head (take head_end p.buffer))

abbrev pub append_body : Bytes → ResponseParser → ResponseParser
append_body bytes p = record p {
  response = record (p.response) { body = p.response.body ++ bytes };
}

-- `case Stage::ContentLengthBody`.
unfoldable pub copy_body : ResponseParser → ResponseParser
copy_body p =
    let amount = min p.content_length_remaining (length p.buffer) in
    record (append_body (take amount p.buffer) p) {
      buffer = drop amount p.buffer;
      content_length_remaining = p.content_length_remaining - amount;
    }

unfoldable pub step_content_length_body : ResponseParser → ParserStep
step_content_length_body p =
    let q = copy_body p in
    if q.content_length_remaining == 0 then return_complete q else return_need_more q

-- The copy of the buffer that `case Stage::CloseDelimitedBody` and `finish_eof` share, or its error.
unfoldable pub drain_buffer : ResponseParser → Result ResponseParser
drain_buffer p =
    if p.body_forbidden && not (is_empty p.buffer)
    then fail malformed_response
    else if is_empty p.buffer
    then ok p
    else if would_exceed (length p.response.body) (length p.buffer) p.limits.max_body_bytes
    then fail response_limit_exceeded
    else ok (record (append_body p.buffer p) { buffer = [] })

-- `case Stage::CloseDelimitedBody`.
unfoldable pub step_close_delimited_body : ResponseParser → Result ResponseParser → ParserStep
step_close_delimited_body p (err e) = return_error p e
step_close_delimited_body p (ok q) = return_need_more q

unfoldable pub decoded_body : ResponseParser → Result ChunkDecodeProgress → ParserStep
decoded_body p (err e) = return_error p e
decoded_body p (ok Chunked.ChunkDecodeProgress.need_more) =
    if p.body_forbidden && not (is_empty p.response.body)
    then return_fail p malformed_response
    else return_need_more p
decoded_body p (ok Chunked.ChunkDecodeProgress.complete) =
    if p.body_forbidden && not (is_empty p.response.body)
    then return_fail p malformed_response
    else return_complete p

-- `case Stage::ChunkedBody`: the decoder works on the parser's buffer and on the response's body.
unfoldable pub step_chunked_body : ResponseParser → Option Processed → ParserStep
step_chunked_body p none = stuck
step_chunked_body p (some d) =
    decoded_body
      (record p {
        chunked_decoder = d.decoder;
        buffer = d.input;
        response = record (p.response) { body = d.output };
      })
      d.result

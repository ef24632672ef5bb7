-- ===== src/ResponseParser/Frame.antt =====
-- src/http/response_parser.cpp, `process_buffer`: what follows a parsed head in `case Stage::Head`.
use cpp_request.Base.{Bool, true, not, ◌&&◌, ◌||◌, ltb, ◌==◌, if◌then◌else◌, Bytes}
use cpp_request.Base.Loop.{next}
use cpp_request.Error.{
  Result, ok, err, response_limit_exceeded, malformed_response, conflicting_message_framing,
  invalid_content_length,
}
use cpp_request.ResponseParser.State.{
  content_length_body, close_delimited_body, chunked_body, ResponseParser, ParserStep, return_error,
  return_fail, return_complete, go_to,
}
use cpp_request.ResponseParser.Head.{ParsedHead}
use cpp_request.ResponseParser.Framing.{
  FramingInfo, analyze_framing, is_header_terminated_response, is_interim_status,
  framing_header_forbidden_on_status,
}

abbrev pub has_framing : FramingInfo → Bool
has_framing f = not (f.content_length_count == 0) || not (f.transfer_encoding_fields == 0)

abbrev pub not_only_chunked : FramingInfo → Bool
not_only_chunked f = not (f.transfer_encoding_tokens == 1) || not f.transfer_encoding_is_chunked

-- `close_delimited_ = true; stage_ = Stage::CloseDelimitedBody; continue;`
abbrev pub until_close : ResponseParser → ParserStep
until_close p = go_to close_delimited_body (record p { close_delimited = true })

-- The framing of a 205 response.
unfoldable pub frame_reset_content : ResponseParser → FramingInfo → ParserStep
frame_reset_content p f =
    if not (f.transfer_encoding_fields == 0)
    then (if not_only_chunked f then return_fail p malformed_response else go_to chunked_body p)
    else if f.content_length_count == 1
    then (if not (f.content_length == 0)
        then return_fail p invalid_content_length
        else return_complete p)
    else until_close p

-- The framing of any other response with a body.
unfoldable pub frame_body : ResponseParser → FramingInfo → ParserStep
frame_body p f =
    if not (f.transfer_encoding_fields == 0)
    then (if not_only_chunked f then return_fail p malformed_response else go_to chunked_body p)
    else if f.content_length_count == 1
    then (if ltb p.limits.max_body_bytes f.content_length
        then return_fail p response_limit_exceeded
        else if f.content_length == 0
        then return_complete (record p { content_length_remaining = f.content_length })
        else go_to content_length_body (record p { content_length_remaining = f.content_length }))
    else until_close p

-- The decisions behind the head of a final response.
unfoldable pub frame_response : ResponseParser → FramingInfo → ParserStep
frame_response p f =
    if not (f.transfer_encoding_fields == 0) && not (f.content_length_count == 0)
    then return_fail p conflicting_message_framing
    else if framing_header_forbidden_on_status p.response.status_code && has_framing f
    then return_fail p malformed_response
    else if is_header_terminated_response p.request_method p.response.status_code
    then return_complete p
    else if p.response.status_code == 205
    then frame_reset_content (record p { body_forbidden = true }) f
    else frame_body p f

-- The head is stored, or skipped if it is an interim one.
unfoldable pub accept_head : ResponseParser → ParsedHead → FramingInfo → ParserStep
accept_head p h f =
    if is_interim_status h.status_code
    then (if has_framing f then return_fail p malformed_response else next p)
    else frame_response
        (record p {
          response = record (p.response) {
            status_code = h.status_code;
            reason = h.reason;
            headers = h.headers;
          };
          connection_close_requested = f.connection_close_requested || h.status_code == 101;
        })
        f

unfoldable pub framed_head : ResponseParser → ParsedHead → Result FramingInfo → ParserStep
framed_head p h (err e) = return_error p e
framed_head p h (ok f) = accept_head p h f

-- `parse_head` on the block; only a block that parses is erased from the buffer.
unfoldable pub parsed_head : ResponseParser → Bytes → Result ParsedHead → ParserStep
parsed_head p after (err e) = return_error p e
parsed_head p after (ok h) = framed_head (record p { buffer = after }) h (analyze_framing h.headers)

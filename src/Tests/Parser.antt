-- ===== src/Tests/Parser.antt =====
-- The response parser on a whole response with a body of a given length.
use cpp_request.Base.{
  ◌+◌, ◌≡◌, refl, some, [], ◌∷◌, ◌++◌, Bytes, codes, length, find, find_byte, starts_with, equal,
}
use cpp_request.Base.Loop.{loop}
use cpp_request.Error.{Result, ok}
use cpp_request.Ascii.{
  ascii_iequals, ascii_lower, valid_field_name, valid_field_value, is_tchar, is_ows, is_field_byte,
  is_alnum,
}
use cpp_request.Scan.{
  digit_value, digit, scan_digits, from_chars, parse_number, trim_front, trim_back, trim_ows,
}
use cpp_request.Limits.{would_exceed, default_limits}
use cpp_request.Headers.{Headers, add}
use cpp_request.Request.{get}
use cpp_request.Chunked.{crlf}
use cpp_request.ResponseParser.State.{ResponseParser, new_parser, Returned, complete, completed}
use cpp_request.ResponseParser.Head.{
  valid_reason_phrase, parse_reason, parse_status_line, parse_field, next_field, field_step,
  parse_fields, fields_behind, parse_head, field_loop-returns,
}
use cpp_request.ResponseParser.Framing.{
  count_length, note_connection, analyze_field, analyze_fields, analyze_framing,
  is_header_terminated_response, is_interim_status, framing_header_forbidden_on_status,
}
use cpp_request.ResponseParser.Frame.{
  frame_body, frame_response, accept_head, framed_head, parsed_head,
}
use cpp_request.ResponseParser.Body.{step_head, copy_body, step_content_length_body}
use cpp_request.ResponseParser.{step_at, step, process_buffer, feed, finish_eof}
use cpp_request.ResponseParser.Invariant.{IsWithin, ReturnedWithin}
use cpp_request.ResponseParser.Returns.{feed-returns}
use cpp_request.ResponseParser.Bounds.{feed-IsWithin, finish_eof-IsWithin, new_parser-IsWithin}
use cpp_request.ResponseParser.Unambiguous.{ReturnedFramed, feed-ReturnedFramed}
use cpp_request.Base.{not, ◌||◌, ◌==◌}
use cpp_request.Client.{wants_connection_close}
use cpp_request.ResponseParser.{connection_reusable}
use cpp_request.ResponseParser.Reuse.{feed-reusable}

abbrev fresh : ResponseParser
fresh = new_parser get default_limits

abbrev message : Bytes
message =
    codes "HTTP/1.1 200 OK"
    ++ (crlf ++ (codes "Content-Length: 2" ++ (crlf ++ (crlf ++ codes "hi"))))

abbrev parsed : Returned
parsed = record {
  parser = record fresh {
    stage = completed;
    response = record {
      status_code = 200;
      reason = codes "OK";
      headers = record { name = codes "Content-Length"; value = codes "2" } ∷ [];
      body = codes "hi";
    };
  };
  result = ok complete;
}

message_fed : feed fresh message ≡ some parsed
unfolding feed process_buffer loop step step_at step_head find starts_with would_exceed parse_head
    parsed_head parse_status_line equal parse_number digit parse_reason valid_reason_phrase
    is_field_byte fields_behind parse_fields field_step next_field parse_field find_byte
    valid_field_name valid_field_value trim_ows is_ows ascii_iequals ascii_lower is_alnum is_tchar
    copy_body step_content_length_body accept_head frame_body frame_response framed_head
    analyze_field analyze_fields analyze_framing count_length framing_header_forbidden_on_status
    is_header_terminated_response is_interim_status note_connection digit_value from_chars
    scan_digits trim_back trim_front add
message_fed = refl

feed-returns_example : (r : Returned) × (feed fresh message ≡ some r)
feed-returns_example = feed-returns fresh message

fresh-IsWithin : IsWithin default_limits fresh
fresh-IsWithin = new_parser-IsWithin get default_limits

feed-IsWithin_example : ReturnedWithin default_limits parsed
feed-IsWithin_example = feed-IsWithin default_limits fresh message parsed fresh-IsWithin message_fed

finish_eof-IsWithin_example : ReturnedWithin default_limits (finish_eof fresh)
finish_eof-IsWithin_example = finish_eof-IsWithin default_limits fresh fresh-IsWithin

field_loop-returns_example :
    (r : Result Headers) × (loop
        (length (codes "A: b") + 1)
        field_step
        (record { rest = codes "A: b"; headers = [] })
      ≡ some r)
field_loop-returns_example = field_loop-returns (codes "A: b") []

feed-ReturnedFramed_example : ReturnedFramed parsed
feed-ReturnedFramed_example = feed-ReturnedFramed fresh message parsed tt message_fed

feed-reusable_example :
    connection_reusable parsed.parser
    ≡ not (
        wants_connection_close parsed.parser.response.headers
        || parsed.parser.response.status_code == 101)
feed-reusable_example = feed-reusable fresh parsed.parser message refl message_fed

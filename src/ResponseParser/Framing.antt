-- ===== src/ResponseParser/Framing.antt =====
-- src/http/response_parser.cpp: `analyze_framing`, what the header fields say about the end of the
-- body, and the tests on the status code.
use cpp_request.Base.{
  ℕ, ◌+◌, Bool, true, false, not, ◌&&◌, ◌||◌, Option, none, some, List, [], ◌∷◌, ltb, leb, ◌==◌,
  if◌then◌else◌, Bytes, is_empty, codes,
}
use cpp_request.Error.{
  Result, ok, fail, refuse, ◌>>=◌, ◌>>◌, invalid_content_length, malformed_response,
}
use cpp_request.Ascii.{ascii_iequals}
use cpp_request.Scan.{size_t_mod, parse_number, trim_ows}
use cpp_request.Headers.{Field, Headers}
use cpp_request.Tokens.{split_on, contains_token}
use cpp_request.Request.{Method, head}

pub record FramingInfo : Type 0 where
  pub content_length_count : ℕ
  pub content_length : ℕ
  pub transfer_encoding_fields : ℕ
  pub transfer_encoding_tokens : ℕ
  pub transfer_encoding_is_chunked : Bool
  pub connection_close_requested : Bool

abbrev pub no_framing : FramingInfo
no_framing = record {
  content_length_count = 0;
  content_length = 0;
  transfer_encoding_fields = 0;
  transfer_encoding_tokens = 0;
  transfer_encoding_is_chunked = true;
  connection_close_requested = false;
}

-- A whole decimal number of type `std::size_t`; the empty text is none.
abbrev pub parse_content_length : Bytes → Option ℕ
parse_content_length = parse_number 10 size_t_mod

-- The loop over the tokens of one `Transfer-Encoding` field.
unfoldable pub count_codings : FramingInfo → List Bytes → Result FramingInfo
count_codings f [] = ok f
count_codings f (t ∷ ts) =
    let token = trim_ows t in
    let chunked = ascii_iequals token (codes "chunked") in
    let rest =
      count_codings
        (record f {
          transfer_encoding_tokens = f.transfer_encoding_tokens + 1;
          transfer_encoding_is_chunked = chunked && f.transfer_encoding_is_chunked;
        })
        ts in
    if is_empty token then fail malformed_response else rest

-- The `Content-Length` of a field.
unfoldable pub count_length : FramingInfo → Option ℕ → Result FramingInfo
count_length f none = fail invalid_content_length
count_length f (some n) =
    ok (record f { content_length_count = f.content_length_count + 1; content_length = n })

-- The first test on a field.
unfoldable pub note_connection : FramingInfo → Field → FramingInfo
note_connection f field =
    if ascii_iequals field.name (codes "Connection") && contains_token field.value (codes "close")
    then record f { connection_close_requested = true }
    else f

-- The body of the loop over the fields.
unfoldable pub analyze_field : FramingInfo → Field → Result FramingInfo
analyze_field f field =
    let noted = note_connection f field in
    if ascii_iequals field.name (codes "Content-Length")
    then count_length noted (parse_content_length field.value)
    else if not (ascii_iequals field.name (codes "Transfer-Encoding"))
    then ok noted
    else count_codings
        (record noted { transfer_encoding_fields = noted.transfer_encoding_fields + 1 })
        (split_on b',' field.value)

unfoldable pub analyze_fields : FramingInfo → Headers → Result FramingInfo
analyze_fields f [] = ok f
analyze_fields f (field ∷ fields) = do f' ← analyze_field f field; analyze_fields f' fields

unfoldable pub analyze_framing : Headers → Result FramingInfo
analyze_framing headers = do
  framing ← analyze_fields no_framing headers
  refuse (ltb 1 framing.content_length_count) invalid_content_length
  ok framing

abbrev pub is_head : Method → Bool
is_head head = true
is_head _ = false

unfoldable pub is_header_terminated_response : Method → ℕ → Bool
is_header_terminated_response request_method status_code =
    is_head request_method || status_code == 101 || status_code == 204 || status_code == 304

unfoldable pub is_interim_status : ℕ → Bool
is_interim_status status_code =
    leb 100 status_code && ltb status_code 200 && not (status_code == 101)

unfoldable pub framing_header_forbidden_on_status : ℕ → Bool
framing_header_forbidden_on_status status_code = status_code == 101 || status_code == 204

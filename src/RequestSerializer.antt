-- ===== src/RequestSerializer.antt =====
-- src/http/request_serializer.hpp and src/http/request_serializer.cpp: the wire form of a request.
-- The capacities that the source reserves (`encoded_query_reserve`, `reserve_size`) change no byte.
pub mod Fields
pub mod Clean
pub mod RoundTrip
pub mod Wire
pub mod OneRequest
use cpp_request.Base.{
  ℕ, ◌+◌, ◌/◌, ◌%◌, Bool, true, false, not, ◌&&◌, ◌||◌, Option, none, some, List, [], ◌∷◌, ◌++◌,
  ltb, ◌==◌, if◌then◌else◌, Bytes, length, is_empty, codes, find_byte, mem_byte,
}
use cpp_request.Error.{
  Result, ok, fail, refuse, ◌>>=◌, ◌>>◌, invalid_header, invalid_content_length,
  conflicting_message_framing, unknown,
}
use cpp_request.Ascii.{is_alnum, ascii_iequals, valid_field_name, valid_field_value}
use cpp_request.Scan.{size_t_mod, parse_number, to_chars}
use cpp_request.Headers.{Field, Headers}
use cpp_request.Request.{Method, get, head, post, put, patch, delete, Request, QueryParam}
use cpp_request.Chunked.{crlf}
use cpp_request.Chunked.Line.{before}
use cpp_request.Url.{Url}
use cpp_request.Url

unfoldable pub method_token : Method → Bytes
method_token get = codes "GET"
method_token head = codes "HEAD"
method_token post = codes "POST"
method_token put = codes "PUT"
method_token patch = codes "PATCH"
method_token delete = codes "DELETE"

unfoldable pub method_has_content_semantics : Method → Bool
method_has_content_semantics post = true
method_has_content_semantics put = true
method_has_content_semantics patch = true
method_has_content_semantics _ = false

unfoldable pub is_unreserved : ℕ → Bool
is_unreserved ch = is_alnum ch || ch == b'-' || ch == b'.' || ch == b'_' || ch == b'~'

-- `kHex[n]`
unfoldable pub hex_char : ℕ → ℕ
hex_char n = if ltb n 10 then n + 48 else n + 55

-- `byte >> 4` and `byte & 0x0f`, for a byte.
unfoldable pub encode_byte : ℕ → Bytes
encode_byte byte =
    if is_unreserved byte
    then byte ∷ []
    else b'%' ∷ hex_char (byte / 16 % 16) ∷ hex_char (byte % 16) ∷ []

unfoldable pub percent_encoded : Bytes → Bytes
percent_encoded [] = []
percent_encoded (ch ∷ input) = encode_byte ch ++ percent_encoded input

abbrev pub back_is : ℕ → Bytes → Bool
back_is b [] = false
back_is b (c ∷ []) = c == b
back_is b (c ∷ d ∷ s) = back_is b (d ∷ s)

unfoldable pub query_param : QueryParam → Bytes
query_param p = percent_encoded p.name ++ (b'=' ∷ percent_encoded p.value)

unfoldable pub more_params : List QueryParam → Bytes
more_params [] = []
more_params (p ∷ ps) = b'&' ∷ (query_param p ++ more_params ps)

-- What goes between the output and the first parameter.
unfoldable pub query_separator : Bytes → Bytes
query_separator output =
    if not (mem_byte b'?' output)
    then b'?' ∷ []
    else if not (is_empty output) && not (back_is b'?' output) && not (back_is b'&' output)
    then b'&' ∷ []
    else []

unfoldable pub append_query_params : Bytes → List QueryParam → Bytes
append_query_params output [] = output
append_query_params output (p ∷ ps) =
    output ++ (query_separator output ++ (query_param p ++ more_params ps))

unfoldable pub effective_request_url : Request → Bytes
effective_request_url r = append_query_params (before (find_byte b'#' r.url) r.url) r.query_params

-- The variables of the loop that checks the header fields.
pub record Declared : Type 0 where
  pub host_count : ℕ
  pub content_length_count : ℕ
  pub declared_content_length : ℕ

abbrev pub nothing_declared : Declared
nothing_declared = record { host_count = 0; content_length_count = 0; declared_content_length = 0 }

unfoldable pub declare_length : Declared → Option ℕ → Result Declared
declare_length d none = fail invalid_content_length
declare_length d (some n) =
    ok (record d { content_length_count = d.content_length_count + 1; declared_content_length = n })

-- The body of that loop.
unfoldable pub check_field : Declared → Field → Result Declared
check_field d f =
    if not (valid_field_name f.name) || not (valid_field_value f.value)
    then fail invalid_header
    else if ascii_iequals f.name (codes "Host")
    then (if is_empty f.value
        then fail invalid_header
        else ok (record d { host_count = d.host_count + 1 }))
    else if ascii_iequals f.name (codes "Content-Length")
    then declare_length d (parse_number 10 size_t_mod f.value)
    else if ascii_iequals f.name (codes "Transfer-Encoding")
    then fail conflicting_message_framing
    else ok d

unfoldable pub check_fields : Declared → Headers → Result Declared
check_fields d [] = ok d
check_fields d (f ∷ fields) = do d' ← check_field d f; check_fields d' fields

unfoldable pub generated_host : Url → Bytes
generated_host url =
    codes "Host: "
    ++ ((if url.host_is_ipv6_literal then b'[' ∷ (Url.host url ++ (b']' ∷ [])) else Url.host url)
        ++ ((if url.has_explicit_port then b':' ∷ to_chars url.port else []) ++ crlf))

unfoldable pub field_line : Field → Bytes
field_line f = f.name ++ (codes ": " ++ (f.value ++ crlf))

unfoldable pub field_lines : Headers → Bytes
field_lines [] = []
field_lines (f ∷ fields) = field_line f ++ field_lines fields

unfoldable pub generated_length : Request → Declared → Bytes
generated_length r d =
    if d.content_length_count == 0
      && (not (is_empty r.body) || method_has_content_semantics r.method)
    then codes "Content-Length: " ++ (to_chars (length r.body) ++ crlf)
    else []

unfoldable pub request_line : Request → Url → Bytes
request_line r url =
    method_token r.method
    ++ (b' ' ∷ (append_query_params (Url.target url) r.query_params ++ (codes " HTTP/1.1" ++ crlf)))

pub record SerializedRequest : Type 0 where
  pub url : Url
  pub head : Bytes
  pub body : Bytes

unfoldable pub request_head : Request → Url → Declared → Bytes
request_head r url d =
    request_line r url
    ++ ((if d.host_count == 0 then generated_host url else [])
        ++ (field_lines r.headers ++ (generated_length r d ++ crlf)))

module _ (inet_pton6 : Bytes → Bool) where
  unfoldable pub serialize_request : Request → Result SerializedRequest
  serialize_request r = do
    url ← Url.parse inet_pton6 r.url
    refuse (is_empty (method_token r.method)) unknown
    d ← check_fields nothing_declared r.headers
    refuse (ltb 1 d.host_count) invalid_header
    refuse (ltb 1 d.content_length_count) invalid_content_length
    refuse (d.content_length_count == 1 && not (d.declared_content_length == length r.body))
        invalid_content_length
    ok (record { url = url; head = request_head r url d; body = r.body })

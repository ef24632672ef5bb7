-- ===== src/RequestSerializer/OneRequest.antt =====
-- What `serialize_request` writes is one request, whatever the URL, the parameters and the header
-- fields were.
use cpp_request.Base.{◌≤◌, ◌≡◌, true, ◌++◌, Bytes, all, codes}
use cpp_request.Headers.{Headers, count_named}
use cpp_request.Request.{Request}
use cpp_request.Chunked.{crlf}
use cpp_request.Url.{Url}
use cpp_request.Url
use cpp_request.RequestSerializer.{field_lines, SerializedRequest}
use cpp_request.RequestSerializer.Fields.{valid_field}
use cpp_request.RequestSerializer.Clean.{clean}

-- The head is one line without control characters, the lines of valid fields, and an empty line;
-- one field says the host, at most one the length, and none a transfer coding.
pub record IsOneRequest (r : Request) (s : SerializedRequest) : Type 0 where
  pub line : Bytes
  pub sent : Headers
  pub written : s.head ≡ line ++ (crlf ++ (field_lines sent ++ crlf))
  pub one_line : clean line ≡ true
  pub valid : all valid_field sent ≡ true
  pub one_host : count_named (codes "Host") sent ≡ 1
  pub one_length : count_named (codes "Content-Length") sent ≤ 1
  pub no_coding : count_named (codes "Transfer-Encoding") sent ≡ 0
  pub same_body : s.body ≡ r.body

-- ===== src/Response.antt =====
-- include/cpp_request/response.hpp: the parsed response.
use cpp_request.Base.{ℕ, [], Bytes}
use cpp_request.Headers.{Headers}

pub record Response : Type 0 where
  pub status_code : ℕ
  pub reason : Bytes
  pub headers : Headers
  pub body : Bytes

abbrev pub empty_response : Response
empty_response = record { status_code = 0; reason = []; headers = []; body = [] }

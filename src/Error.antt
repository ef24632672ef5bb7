-- ===== src/Error.antt =====
-- include/cpp_request/error.hpp and include/cpp_request/result.hpp: error codes, and a value or an
-- error. `Result<T>` holds a variant; `error()` and `value()` are the matches on its two cases.
use cpp_request.Base.{ℕ, ◌≡◌, refl, ◌⊎◌, inl, inr, Bool, true, false, Bytes, codes}

pub data ErrorCode : Type 0 where
  invalid_url unsupported_scheme invalid_port : ErrorCode
  resolve_failed socket_create_failed connect_failed connect_timeout : ErrorCode
  write_failed write_timeout read_failed read_timeout connection_closed : ErrorCode
  malformed_response invalid_status_line invalid_header invalid_content_length : ErrorCode
  invalid_chunk_size invalid_chunk_framing conflicting_message_framing unexpected_eof : ErrorCode
  response_limit_exceeded : ErrorCode
  redirect_limit_exceeded missing_redirect_location unsupported_redirect_scheme unknown : ErrorCode

-- An `int`: `negsuc n` is -(n + 1). `getaddrinfo` reports negative codes.
pub data ℤ : Type 0 where
  pos : ℕ → ℤ
  negsuc : ℕ → ℤ

pub record Error : Type 0 where
  pub code : ErrorCode
  pub native_code : ℤ

-- `Error{code}`, with the default `native_code` of 0.
abbrev pub error : ErrorCode → Error
error c = record { code = c; native_code = pos 0 }

pub data Result {ℓ} (A : Type ℓ) : Type ℓ where
  ok : A → Result A
  err : Error → Result A

abbrev pub has_value {ℓ} : {A : Type ℓ} → Result A → Bool
has_value (ok a) = true
has_value (err e) = false

-- `return Error{c};`
abbrev pub fail {ℓ} : {A : Type ℓ} → ErrorCode → Result A
fail c = err (error c)

infixl 5 ◌>>=◌
-- `if (!r) return r.error();`, and the rest with `r.value()`.
abbrev pub ◌>>=◌ {κ ℓ} : {B : Type κ} {A : Type ℓ} → Result A → (A → Result B) → Result B
err failure >>= rest = err failure
ok value >>= rest = rest value

infixl 5 ◌>>◌
abbrev pub ◌>>◌ {κ} : {B : Type κ} → Result (Unit {0}) → Result B → Result B
test >> rest = test >>= λ _. rest

-- `if (test) return Error{c};`
abbrev pub refuse : Bool → ErrorCode → Result (Unit {0})
refuse true c = fail c
refuse false c = ok tt

pub Result-cases {ℓ} :
    {A : Type ℓ} (r : Result A) → ((a : A) × (r ≡ ok a)) ⊎ ((e : Error) × (r ≡ err e))
Result-cases (ok a) = inl (a, refl)
Result-cases (err e) = inr (e, refl)

pub ok-injective {ℓ} : {A : Type ℓ} {a b : A} → ok a ≡ ok b → a ≡ b
ok-injective h = cc

-- What was returned came from a value of the first part.
pub >>=-eq-ok {ℓ κ} :
    {A : Type ℓ} {B : Type κ} {out : B} (first : Result A) (rest : A → Result B)
    → (first >>= rest) ≡ ok out
    → (value : A) × (first ≡ ok value) × (rest value ≡ ok out)
>>=-eq-ok (err failure) rest h = cc
>>=-eq-ok (ok value) rest h = (value, refl, h)

pub refuse-eq-ok {ℓ} :
    {B : Type ℓ} (t : Bool) (c : ErrorCode) (k : Result B) {b : B}
    → (refuse t c >> k) ≡ ok b
    → (t ≡ false) × (k ≡ ok b)
refuse-eq-ok true c k h = cc
refuse-eq-ok false c k h = (refl, h)

unfoldable error_message : ErrorCode → Bytes
error_message invalid_url = codes "invalid URL"
error_message unsupported_scheme = codes "unsupported URL scheme"
error_message invalid_port = codes "invalid port"
error_message resolve_failed = codes "name resolution failed"
error_message socket_create_failed = codes "socket creation failed"
error_message connect_failed = codes "connection failed"
error_message connect_timeout = codes "connection timed out"
error_message write_failed = codes "write failed"
error_message write_timeout = codes "write timed out"
error_message read_failed = codes "read failed"
error_message read_timeout = codes "read timed out"
error_message connection_closed = codes "connection closed"
error_message malformed_response = codes "malformed HTTP response"
error_message invalid_status_line = codes "invalid HTTP status line"
error_message invalid_header = codes "invalid HTTP header"
error_message invalid_content_length = codes "invalid Content-Length"
error_message invalid_chunk_size = codes "invalid chunk size"
error_message invalid_chunk_framing = codes "invalid chunk framing"
error_message conflicting_message_framing = codes "conflicting HTTP message framing"
error_message unexpected_eof = codes "unexpected end of stream"
error_message response_limit_exceeded = codes "response resource limit exceeded"
error_message redirect_limit_exceeded = codes "redirect limit exceeded"
error_message missing_redirect_location = codes "redirect location missing"
error_message unsupported_redirect_scheme = codes "unsupported redirect scheme"
error_message unknown = codes "unknown error"

-- ===== src/RequestSerializer/Clean.antt =====
-- The texts that `serialize_request` generates hold no line end and no other control character.
use cpp_request.Base.{
  ℕ, zero, suc, ◌+◌, ◌/◌, ◌<◌, ◌≡◌, refl, ◌∙◌, Bool, true, List, [], ◌∷◌, ◌++◌, arith, Bytes, all,
  all-append,
}
use mathlib.Core.List.{reverse, reverse-cons}
use cpp_request.Ascii.{is_field_byte, is_alnum}
use cpp_request.Scan.{digits_down, to_chars}
use cpp_request.Request.{Method, get, head, post, put, patch, delete, QueryParam}
use cpp_request.Url.{allowed_byte}
use cpp_request.RequestSerializer.{
  method_token, is_unreserved, hex_char, encode_byte, percent_encoded, query_param, more_params,
  query_separator, append_query_params,
}

-- A text that stands on one line.
abbrev pub clean : Bytes → Bool
clean = all is_field_byte

pub clean-append : (a b : Bytes) → clean a ≡ true → clean b ≡ true → clean (a ++ b) ≡ true
clean-append a b ha hb = all-append is_field_byte a b ∙ (rw (ha, hb) refl)

pub allowed-clean : (s : Bytes) → all allowed_byte s ≡ true → clean s ≡ true
unfolding allowed_byte is_field_byte
allowed-clean [] h = refl
allowed-clean (c ∷ s) h = ground (arith, allowed-clean s)

pub method_token-clean : (m : Method) → clean (method_token m) ≡ true
unfolding method_token is_field_byte
method_token-clean get = refl
method_token-clean head = refl
method_token-clean post = refl
method_token-clean put = refl
method_token-clean patch = refl
method_token-clean delete = refl

hex_char-field_byte : (n : ℕ) → n < 16 → is_field_byte (hex_char n) ≡ true
unfolding hex_char is_field_byte
hex_char-field_byte n h = ground arith

encode_byte-clean : (b : ℕ) → clean (encode_byte b) ≡ true
unfolding encode_byte is_unreserved is_alnum is_field_byte hex_char
encode_byte-clean b = ground arith

percent_encoded-clean : (s : Bytes) → clean (percent_encoded s) ≡ true
unfolding percent_encoded
percent_encoded-clean [] = refl
percent_encoded-clean (c ∷ s) =
    clean-append (encode_byte c) (percent_encoded s) (encode_byte-clean c) (percent_encoded-clean s)

query_param-clean : (p : QueryParam) → clean (query_param p) ≡ true
unfolding query_param is_field_byte
query_param-clean p =
    clean-append (percent_encoded p.name) (b'=' ∷ percent_encoded p.value)
      (percent_encoded-clean p.name) (percent_encoded-clean p.value)

more_params-clean : (ps : List QueryParam) → clean (more_params ps) ≡ true
unfolding more_params is_field_byte
more_params-clean [] = refl
more_params-clean (p ∷ ps) =
    clean-append (query_param p) (more_params ps) (query_param-clean p) (more_params-clean ps)

query_separator-clean : (s : Bytes) → clean (query_separator s) ≡ true
unfolding query_separator is_field_byte
query_separator-clean s = ground arith

pub append_query_params-clean :
    (s : Bytes) (ps : List QueryParam) → clean s ≡ true → clean (append_query_params s ps) ≡ true
unfolding append_query_params
append_query_params-clean s [] h = h
append_query_params-clean s (p ∷ ps) h = clean-append s _ h (
    clean-append (query_separator s) _ (query_separator-clean s)
      (clean-append (query_param p) (more_params ps) (query_param-clean p) (more_params-clean ps)))

digits_down-clean : (fuel n : ℕ) → clean (digits_down fuel n) ≡ true
unfolding digits_down is_field_byte
digits_down-clean zero n = refl
digits_down-clean (suc fuel) n = ground (arith, digits_down-clean fuel (n / 10))

reverse-clean : (s : Bytes) → clean s ≡ true → clean (reverse s) ≡ true
reverse-clean [] h = refl
reverse-clean (c ∷ s) h =
    rw (reverse-cons c s)
      (clean-append (reverse s) (c ∷ []) (reverse-clean s (ground arith)) (ground arith))

pub to_chars-clean : (n : ℕ) → clean (to_chars n) ≡ true
unfolding to_chars
to_chars-clean n = reverse-clean (digits_down (n + 1) n) (digits_down-clean (n + 1) n)

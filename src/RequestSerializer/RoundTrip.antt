-- ===== src/RequestSerializer/RoundTrip.antt =====
-- Percent encoding can be undone, and query parameters cannot run into each other.
use cpp_request.Base.{
  ℕ, ◌+◌, ◌*◌, ◌-◌, ◌/◌, ◌%◌, ◌<◌, ◌≡◌, refl, ap, ◌∙◌, Bool, true, false, not, ◌&&◌, List, [], ◌∷◌,
  ◌++◌, arith, ltb, ◌==◌, if◌then◌else◌, Bytes, all, Bool-cases, inl, inr, append-nil, all-append,
}
use mathlib.Core.Path.{ap₂}
use cpp_request.Ascii.{is_alnum}
use cpp_request.Request.{QueryParam}
use cpp_request.Tokens.{split_on}
use cpp_request.RequestSerializer.{
  is_unreserved, hex_char, encode_byte, percent_encoded, query_param, more_params,
}

-- The reader of percent encoding: an upper-case hexadecimal digit, and a text.
hex_value : ℕ → ℕ
hex_value c = if ltb c 58 then c - 48 else c - 55

pub percent_decoded : Bytes → Bytes
percent_decoded [] = []
percent_decoded (c ∷ []) = c ∷ []
percent_decoded (c ∷ a ∷ []) = c ∷ a ∷ []
percent_decoded (c ∷ a ∷ b ∷ s) =
    let escape = (hex_value a * 16 + hex_value b) ∷ percent_decoded s in
    let plain = c ∷ percent_decoded (a ∷ b ∷ s) in if c == b'%' then escape else plain

hex_value-hex_char : (n : ℕ) → n < 16 → hex_value (hex_char n) ≡ n
unfolding hex_value hex_char
hex_value-hex_char n h = ground arith

decoded_plain :
    (c : ℕ) (s : Bytes) → (c == b'%') ≡ false → percent_decoded (c ∷ s) ≡ c ∷ percent_decoded s
unfolding percent_decoded
decoded_plain c [] h = refl
decoded_plain c (a ∷ []) h = refl
decoded_plain c (a ∷ b ∷ s) h = rw h refl

decoded_escape :
    (a b : ℕ) (s : Bytes)
    → percent_decoded (b'%' ∷ a ∷ b ∷ s) ≡ (hex_value a * 16 + hex_value b) ∷ percent_decoded s
unfolding percent_decoded
decoded_escape a b s = refl

unreserved-ne-percent : (c : ℕ) → is_unreserved c ≡ true → (c == b'%') ≡ false
unfolding is_unreserved is_alnum
unreserved-ne-percent c h = ground arith

percent_decoded-encode_byte :
    (c : ℕ) (s : Bytes) → c < 256 → percent_decoded (encode_byte c ++ s) ≡ c ∷ percent_decoded s
unfolding encode_byte
percent_decoded-encode_byte c s h = elim (Bool-cases (is_unreserved c)) [
  | inl e ↦ rw e (decoded_plain c s (unreserved-ne-percent c e))
  | inr e ↦
      rw (e, decoded_escape (hex_char (c / 16 % 16)) (hex_char (c % 16)) s)
        (ap (λ n. n ∷ percent_decoded s)
          (omega (
            arith,
            hex_value-hex_char (c / 16 % 16) (omega arith),
            hex_value-hex_char (c % 16) (omega arith),
          )))
]

-- A text of bytes that is percent encoded reads back as that text.
pub percent_decoded-percent_encoded :
    (s : Bytes) → all (λ c. ltb c 256) s ≡ true → percent_decoded (percent_encoded s) ≡ s
unfolding percent_encoded percent_decoded
percent_decoded-percent_encoded [] h = refl
percent_decoded-percent_encoded (c ∷ s) h =
    percent_decoded-encode_byte c (percent_encoded s) (ground arith)
    ∙ ap (◌∷◌ c) (percent_decoded-percent_encoded s (ground arith))

-- A byte that separates no parts of a query.
abbrev no_separator : ℕ → Bool
no_separator c = not (c == b'&') && not (c == b'=')

no_separator-append :
    (s t : Bytes)
    → all no_separator s ≡ true
    → all no_separator t ≡ true
    → all no_separator (s ++ t) ≡ true
no_separator-append s t hs ht = all-append no_separator s t ∙ rw (hs, ht) refl

encode_byte-no_separator : (c : ℕ) → all no_separator (encode_byte c) ≡ true
unfolding encode_byte is_unreserved is_alnum hex_char
encode_byte-no_separator c = ground arith

percent_encoded-no_separator : (s : Bytes) → all no_separator (percent_encoded s) ≡ true
unfolding percent_encoded
percent_encoded-no_separator [] = refl
percent_encoded-no_separator (c ∷ s) =
    no_separator-append (encode_byte c) (percent_encoded s) (encode_byte-no_separator c)
      (percent_encoded-no_separator s)

-- The reader of a query: the parts between the ampersands, each cut at its first equals sign.
abbrev name_part : Bytes → Bytes
name_part [] = []
name_part (c ∷ s) = if c == b'=' then [] else c ∷ name_part s

abbrev value_part : Bytes → Bytes
value_part [] = []
value_part (c ∷ s) = if c == b'=' then s else value_part s

abbrev read_part : Bytes → QueryParam
read_part s = record {
  name = percent_decoded (name_part s);
  value = percent_decoded (value_part s);
}

abbrev read_parts : List Bytes → List QueryParam
read_parts [] = []
read_parts (s ∷ parts) = read_part s ∷ read_parts parts

abbrev pub read_query : Bytes → List QueryParam
read_query s = read_parts (split_on b'&' s)

name_part-append : (s t : Bytes) → all no_separator s ≡ true → name_part (s ++ (b'=' ∷ t)) ≡ s
name_part-append [] t h = refl
name_part-append (c ∷ s) t h = ground (arith, name_part-append s t)

value_part-append : (s t : Bytes) → all no_separator s ≡ true → value_part (s ++ (b'=' ∷ t)) ≡ t
value_part-append [] t h = refl
value_part-append (c ∷ s) t h = ground (arith, value_part-append s t)

abbrev no_ampersand : ℕ → Bool
no_ampersand c = not (c == b'&')

split_on-whole : (s : Bytes) → all no_ampersand s ≡ true → split_on b'&' s ≡ s ∷ []
unfolding split_on
split_on-whole [] h = refl
split_on-whole (c ∷ s) h = ground (arith, split_on-whole s)

split_on-first :
    (s t : Bytes)
    → all no_ampersand s ≡ true
    → split_on b'&' (s ++ (b'&' ∷ t)) ≡ s ∷ split_on b'&' t
unfolding split_on
split_on-first [] t h = refl
split_on-first (c ∷ s) t h = ground (arith, split_on-first s t)

weaken : (s : Bytes) → all no_separator s ≡ true → all no_ampersand s ≡ true
weaken [] h = refl
weaken (c ∷ s) h = ground (arith, weaken s)

query_param-no_ampersand : (p : QueryParam) → all no_ampersand (query_param p) ≡ true
unfolding query_param
query_param-no_ampersand p =
    all-append no_ampersand (percent_encoded p.name) (b'=' ∷ percent_encoded p.value)
    ∙ rw
        (
          weaken (percent_encoded p.name) (percent_encoded-no_separator p.name),
          weaken (percent_encoded p.value) (percent_encoded-no_separator p.value),
        )
        refl

-- A parameter of bytes.
abbrev pub of_bytes : QueryParam → Bool
of_bytes p = all (λ c. ltb c 256) p.name && all (λ c. ltb c 256) p.value

read_part-query_param : (p : QueryParam) → of_bytes p ≡ true → read_part (query_param p) ≡ p
unfolding query_param
read_part-query_param p h =
    rw
      (
        name_part-append (percent_encoded p.name) (percent_encoded p.value)
            (percent_encoded-no_separator p.name),
        value_part-append (percent_encoded p.name) (percent_encoded p.value)
            (percent_encoded-no_separator p.name),
        percent_decoded-percent_encoded p.name (ground arith),
        percent_decoded-percent_encoded p.value (ground arith),
      )
      refl

-- Query parameters of bytes are written so that a reader finds the same parameters: as many, in
-- the same order, with the same names and values, whatever bytes they hold.
pub read_query-more_params :
    (p : QueryParam) (ps : List QueryParam)
    → all of_bytes (p ∷ ps) ≡ true
    → read_query (query_param p ++ more_params ps) ≡ p ∷ ps
unfolding more_params
read_query-more_params p [] h =
    rw (append-nil, split_on-whole (query_param p) (query_param-no_ampersand p))
      (ap (λ q. q ∷ []) (read_part-query_param p (ground arith)))
read_query-more_params p (q ∷ ps) h =
    rw
      (split_on-first (query_param p) (query_param q ++ more_params ps)
        (query_param-no_ampersand p))
      (ap₂ (λ x xs. x ∷ xs) (read_part-query_param p (ground arith))
        (read_query-more_params q ps (ground arith)))

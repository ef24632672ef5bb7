-- ===== src/Chunked/Extensions.antt =====
-- src/http/chunked_decoder.cpp, the grammar of chunk extensions: `parse_token`, `is_qdtext`,
-- `is_quoted_pair_char`, `parse_quoted_string` and `valid_chunk_extensions`. A cursor into a text is
-- the text from the cursor on; a parser that fails returns `none`, and one that succeeds returns the
-- text behind what it read.
use cpp_request.Base.{
  ℕ, ◌+◌, ◌≤◌, ◌<◌, ◌≡◌, refl, inl, inr, Bool, true, false, not, ◌||◌, Option, none, some, [], ◌∷◌,
  arith, leb, ◌==◌, if◌then◌else◌, Bytes, length, is_empty, Option-cases,
}
use cpp_request.Base.Loop.{Step, next, stop, loop, loop_total, Descends}
use cpp_request.Ascii.{within, is_tchar}
use cpp_request.Scan.{trim_front}

skip_tchars : Bytes → Bytes
skip_tchars [] = []
skip_tchars (c ∷ s) = if is_tchar c then skip_tchars s else c ∷ s

-- `cursor != begin` is a change of the length of what is left.
parse_token : Bytes → Option Bytes
unfolding skip_tchars
parse_token text =
    let rest = skip_tchars text in if length rest == length text then none else some rest

is_qdtext : ℕ → Bool
is_qdtext ch =
    ch == b'\t'
    || ch == b' '
    || ch == 0x21
    || within 0x23 0x5b ch
    || within 0x5d 0x7e ch
    || leb 0x80 ch

is_quoted_pair_char : ℕ → Bool
is_quoted_pair_char ch = ch == b'\t' || ch == b' ' || within 0x21 0x7e ch || leb 0x80 ch

-- The loop of `parse_quoted_string`, behind the opening quote.
quoted_rest : Bytes → Option Bytes
quoted_rest [] = none
quoted_rest (ch ∷ []) = if ch == b'"' then some [] else none
quoted_rest (ch ∷ e ∷ s) =
    let escaped = if is_quoted_pair_char e then quoted_rest s else none in
    let plain = quoted_rest (e ∷ s) in
    if ch == b'"'
    then some (e ∷ s)
    else if ch == b'\\'
    then escaped
    else if not (is_qdtext ch)
    then none
    else plain

parse_quoted_string : Bytes → Option Bytes
parse_quoted_string [] = none
parse_quoted_string (ch ∷ s) = if not (ch == b'"') then none else quoted_rest s

-- The value behind `=`.
extension_value : Bytes → Option Bytes
extension_value [] = none
extension_value (ch ∷ s) = if ch == b'"' then parse_quoted_string (ch ∷ s) else parse_token (ch ∷ s)

-- The optional `= value`, with the white space on both sides of the value.
optional_value : Bytes → Option Bytes
optional_value [] = some []
optional_value (ch ∷ s) =
    if ch == b'='
    then elim (extension_value (trim_front s)) [ none ↦ none | some t ↦ some (trim_front t) ]
    else some (ch ∷ s)

-- The end of one extension: the end of the text, or `;` with more behind it.
extension_end : Option Bytes → Step Bytes Bool
extension_end none = stop false
extension_end (some []) = stop true
extension_end (some (ch ∷ s)) =
    if not (ch == b';') then stop false else if is_empty s then stop false else next s

-- One round of the loop of `valid_chunk_extensions`.
pub extension_step : Bytes → Step Bytes Bool
extension_step text = elim (parse_token (trim_front text)) [
  | none ↦ stop false
  | some s ↦ extension_end (optional_value (trim_front s))
]

-- The loop drops a byte in each round, so its fuel does not run out (`extension_loop-returns`).
pub valid_chunk_extensions : Bytes → Bool
unfolding extension_step loop
valid_chunk_extensions extension =
    if is_empty extension
    then false
    else elim (loop (length extension + 1) extension_step extension) [ none ↦ false | some b ↦ b ]

trim_front-le : (s : Bytes) → length (trim_front s) ≤ length s
unfolding trim_front
trim_front-le [] = omega arith
trim_front-le (c ∷ s) = ground (arith, trim_front-le s)

skip_tchars-le : (s : Bytes) → length (skip_tchars s) ≤ length s
unfolding skip_tchars
skip_tchars-le [] = omega arith
skip_tchars-le (c ∷ s) = ground (arith, skip_tchars-le s)

parse_token-lt : (s t : Bytes) → parse_token s ≡ some t → length t < length s
unfolding parse_token
parse_token-lt s t h = ground (arith, skip_tchars-le s)

quoted_rest-lt : (s t : Bytes) → quoted_rest s ≡ some t → length t < length s
unfolding quoted_rest
quoted_rest-lt [] t h = cc
quoted_rest-lt (ch ∷ []) t h = ground arith
quoted_rest-lt (ch ∷ e ∷ s) t h = ground (arith, quoted_rest-lt s t, quoted_rest-lt (e ∷ s) t)

parse_quoted_string-lt : (s t : Bytes) → parse_quoted_string s ≡ some t → length t < length s
unfolding parse_quoted_string
parse_quoted_string-lt [] t h = cc
parse_quoted_string-lt (ch ∷ s) t h = ground (arith, quoted_rest-lt s t)

extension_value-lt : (s t : Bytes) → extension_value s ≡ some t → length t < length s
unfolding extension_value
extension_value-lt [] t h = cc
extension_value-lt (ch ∷ s) t h =
    ground (arith, parse_quoted_string-lt (ch ∷ s) t, parse_token-lt (ch ∷ s) t)

optional_value-le : (s t : Bytes) → optional_value s ≡ some t → length t ≤ length s
unfolding optional_value
optional_value-le [] t h = ground arith
optional_value-le (ch ∷ s) t h = elim (Option-cases (extension_value (trim_front s))) [
  | inl e ↦ ground arith
  | inr (u, e) ↦
      ground (arith, trim_front-le s, extension_value-lt (trim_front s) u, trim_front-le u)
]

extension_end-Descends :
    (text s : Bytes) (o : Option Bytes)
    → length s < length text
    → ((t : Bytes) → o ≡ some t → length t ≤ length s)
    → Descends length text (extension_end o)
unfolding extension_end
extension_end-Descends text s none h le = tt
extension_end-Descends text s (some []) h le = tt
extension_end-Descends text s (some (ch ∷ t)) h le = ground (arith, le (ch ∷ t) refl)

extension_step-Descends : (text : Bytes) → Descends length text (extension_step text)
unfolding extension_step
extension_step-Descends text = elim (Option-cases (parse_token (trim_front text))) [
  | inl e ↦ rw (e, Descends, extension_step) tt
  | inr (s, e) ↦
      rw (e, Descends, extension_step)
        (extension_end-Descends text s (optional_value (trim_front s))
          (omega (arith, parse_token-lt (trim_front text) s e, trim_front-le text))
          (λ t h. omega (arith, optional_value-le (trim_front s) t h, trim_front-le s)))
]

-- The loop over chunk extensions returns on every text: its fuel does not run out.
pub extension_loop-returns :
    (text : Bytes) → (b : Bool) × (loop (length text + 1) extension_step text ≡ some b)
extension_loop-returns text =
    loop_total (λ _. Unit {0}) length extension_step (λ s _. extension_step-Descends s)
      (λ _ _ _ _. tt) (length text + 1) text tt (omega arith)

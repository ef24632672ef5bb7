-- ===== src/ResponseParser/Head.antt =====
-- src/http/response_parser.cpp: `parse_head`, the status line and the header fields. A position in
-- the block is the text from there on.
use cpp_request.Base.{
  ℕ, ◌+◌, ◌^◌, ◌≡◌, refl, Bool, not, ◌||◌, Option, none, some, [], ◌∷◌, arith, ltb, ◌==◌,
  if◌then◌else◌, Bytes, length, is_empty, take, drop, all, codes, equal, find, find_byte, find-le,
  length-drop,
}
use cpp_request.Base.Loop.{Step, next, stop, loop, loop_total, Descends}
use cpp_request.Error.{
  Result, ok, err, fail, refuse, ◌>>=◌, ◌>>◌, invalid_status_line, invalid_header, unknown,
}
use cpp_request.Ascii.{within, is_field_byte, valid_field_name, valid_field_value}
use cpp_request.Scan.{parse_number, trim_ows}
use cpp_request.Headers.{Field, Headers, field, add}
use cpp_request.Chunked.{crlf}
use cpp_request.Chunked.Line.{before, starts_with_ows}

pub record ParsedHead : Type 0 where
  pub status_code : ℕ
  pub reason : Bytes
  pub headers : Headers

-- `"HTTP/1.1 "`
abbrev pub version_prefix : Bytes
version_prefix = codes "HTTP/1.1 "

unfoldable pub valid_reason_phrase : Bytes → Bool
valid_reason_phrase = all is_field_byte

-- What stands behind the status code.
unfoldable pub parse_reason : Bytes → Result Bytes
parse_reason [] = ok []
parse_reason (c ∷ reason) = do
  refuse (not (c == b' ')) invalid_status_line
  refuse (not (valid_reason_phrase reason)) invalid_status_line
  ok reason

code_or_fail : Option ℕ → Result ℕ
code_or_fail none = fail invalid_status_line
code_or_fail (some n) = do refuse (ltb n 100 || ltb 999 n) invalid_status_line; ok n

unfoldable pub parse_status_line : Bytes → Result (ℕ × Bytes)
unfolding code_or_fail
parse_status_line line = do
  refuse
      (ltb (length line) (length version_prefix + 3)
        || not (equal (take (length version_prefix) line) version_prefix))
      invalid_status_line
  let code = take 3 (drop (length version_prefix) line)
  refuse (not (all (within b'0' b'9') code)) invalid_status_line
  status_code ← code_or_fail (parse_number 10 (2 ^ 31) code)
  reason ← parse_reason (drop (length version_prefix + 3) line)
  ok (status_code, reason)

field_at : Option ℕ → Bytes → Result Field
field_at none line = fail invalid_header
field_at (some colon) line = do
  refuse (colon == 0) invalid_header
  let name = take colon line
  let value = trim_ows (drop (colon + 1) line)
  refuse (not (valid_field_name name) || not (valid_field_value value)) invalid_header
  ok (field name value)

-- One header line.
unfoldable pub parse_field : Bytes → Result Field
unfolding starts_with_ows field_at
parse_field line = do
  refuse (is_empty line || starts_with_ows line) invalid_header
  field_at (find_byte b':' line) line

pub record Fields : Type 0 where
  pub rest : Bytes
  pub headers : Headers

-- Behind a line that was parsed: the next line, or the end of the block.
unfoldable pub next_field : Fields → Option ℕ → Result Field → Step Fields (Result Headers)
next_field s line_end (err e) = stop (err e)
next_field s none (ok f) = stop (ok (add f.name f.value s.headers))
next_field s (some i) (ok f) =
    next (record { rest = drop (i + 2) s.rest; headers = add f.name f.value s.headers })

-- One round of the loop over the header lines.
unfoldable pub field_step : Fields → Step Fields (Result Headers)
field_step s =
    let line_end = find crlf s.rest in
    if is_empty s.rest
    then stop (ok s.headers)
    else next_field s line_end (parse_field (before line_end s.rest))

-- The loop takes a line in each round: `field_loop-returns` shows that its fuel does not run out.
unfoldable pub parse_fields : Bytes → Result Headers
parse_fields block =
    elim (loop (length block + 1) field_step (record { rest = block; headers = [] })) [
      | none ↦ fail unknown
      | some r ↦ r
    ]

-- The lines behind the first one.
unfoldable pub fields_behind : Option ℕ → Bytes → Result Headers
fields_behind none block = ok []
fields_behind (some i) block = parse_fields (drop (i + 2) block)

unfoldable pub parse_head : Bytes → Result ParsedHead
parse_head block = do
  let first_line_end = find crlf block
  status ← parse_status_line (before first_line_end block)
  headers ← fields_behind first_line_end block
  ok (record { status_code = status.0; reason = status.1; headers = headers })

next_field-Descends :
    (s : Fields) (o : Option ℕ) (r : Result Field)
    → find crlf s.rest ≡ o
    → Descends (λ t. length t.rest) s (next_field s o r)
unfolding next_field
next_field-Descends s o (err e) h = tt
next_field-Descends s none (ok f) h = tt
next_field-Descends s (some i) (ok f) h =
    omega (arith, find-le crlf s.rest i h, length-drop (i + 2) s.rest)

field_step-Descends : (s : Fields) → Descends (λ t. length t.rest) s (field_step s)
unfolding field_step
field_step-Descends s = ground (
  arith,
  next_field-Descends s (find crlf s.rest) (parse_field (before (find crlf s.rest) s.rest)) refl,
)

-- The loop over the header lines returns on every block: its fuel does not run out.
pub field_loop-returns :
    (block : Bytes) (h : Headers)
    → (r : Result Headers) × (loop
          (length block + 1)
          field_step
          (record { rest = block; headers = h })
        ≡ some r)
field_loop-returns block h =
    loop_total (λ _. Unit {0}) (λ t. length t.rest) field_step (λ s _. field_step-Descends s)
      (λ _ _ _ _. tt) (length block + 1) _ tt (omega arith)

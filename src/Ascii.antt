-- ===== src/Ascii.antt =====
-- The byte classes and the case-insensitive comparison that the source repeats in headers.cpp,
-- url.cpp, redirect.cpp, request_serializer.cpp, chunked_decoder.cpp, response_parser.cpp and
-- client.cpp. A byte is its unsigned value; the tests on a signed `char` are for ASCII ranges, in
-- which no byte from 128 up lies, under either reading.
use cpp_request.Base.{
  ℕ, ◌+◌, ◌≡◌, ◌↔◌, Bool, true, false, not, ◌&&◌, ◌||◌, [], ◌∷◌, arith, ltb, leb, ◌==◌,
  if◌then◌else◌, Bytes, is_empty, all,
}

abbrev pub within : ℕ → ℕ → ℕ → Bool
within lo hi c = leb lo c && leb c hi

unfoldable pub ascii_lower : ℕ → ℕ
ascii_lower ch = if within b'A' b'Z' ch then ch + 32 else ch

unfoldable pub ascii_iequals : Bytes → Bytes → Bool
unfolding ascii_lower
ascii_iequals [] [] = true
ascii_iequals [] (y ∷ ys) = false
ascii_iequals (x ∷ xs) [] = false
ascii_iequals (x ∷ xs) (y ∷ ys) = ascii_lower x == ascii_lower y && ascii_iequals xs ys

unfoldable pub is_alnum : ℕ → Bool
is_alnum ch = within b'0' b'9' ch || within b'A' b'Z' ch || within b'a' b'z' ch

one_of : ℕ → Bytes → Bool
one_of c [] = false
one_of c (x ∷ xs) = c == x || one_of c xs

unfoldable pub is_tchar : ℕ → Bool
unfolding is_alnum one_of
is_tchar ch =
    is_alnum ch
    || one_of ch (
        b'!' ∷ b'#' ∷ b'$' ∷ b'%' ∷ b'&' ∷ 39 ∷ b'*' ∷ b'+' ∷ b'-' ∷ b'.' ∷ b'^' ∷ b'_' ∷ b'`'
        ∷ b'|' ∷ b'~' ∷ [])

unfoldable pub is_ows : ℕ → Bool
is_ows ch = ch == b' ' || ch == b'\t'

-- The test of one byte in `valid_field_value`, `valid_header_value` and `valid_reason_phrase`.
unfoldable pub is_field_byte : ℕ → Bool
is_field_byte ch = ch == b'\t' || not (ltb ch 0x20 || ch == 0x7f)

unfoldable pub valid_field_value : Bytes → Bool
unfolding is_field_byte
valid_field_value = all is_field_byte

unfoldable pub valid_field_name : Bytes → Bool
unfolding is_tchar
valid_field_name name = not (is_empty name) && all is_tchar name

abbrev pub lower : Bytes → Bytes
lower [] = []
lower (x ∷ xs) = ascii_lower x ∷ lower xs

-- The comparison is equality of the lowered texts.
pub ascii_iequals_iff : (a b : Bytes) → (ascii_iequals a b ≡ true) ↔ (lower a ≡ lower b)
unfolding ascii_iequals
ascii_iequals_iff [] [] = ground arith
ascii_iequals_iff [] (y ∷ b) = ground arith
ascii_iequals_iff (x ∷ a) [] = ground arith
ascii_iequals_iff (x ∷ a) (y ∷ b) = ground (arith, ascii_iequals_iff a b)

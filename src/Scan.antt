-- ===== src/Scan.antt =====
-- What the source uses of the standard library's `std::from_chars`, and the trimming of optional
-- white space.
use cpp_request.Base.{
  ℕ, zero, suc, ◌+◌, ◌-◌, ◌*◌, ◌/◌, ◌%◌, ◌^◌, ◌&&◌, Option, none, some, [], ◌∷◌, ltb, if◌then◌else◌,
  Bytes, is_empty,
}
use mathlib.Core.List.{reverse}
use cpp_request.Ascii.{within, is_ows}

-- `std::size_t` has 64 bits.
abbrev pub size_t_mod : ℕ
size_t_mod = 2 ^ 64

unfoldable pub digit_value : ℕ → Option ℕ
digit_value c =
    if within b'0' b'9' c
    then some (c - 48)
    else if within b'a' b'z' c
    then some (c - 87)
    else if within b'A' b'Z' c
    then some (c - 55)
    else none

-- The value of a character that is a digit in the base.
unfoldable pub digit : ℕ → ℕ → Option ℕ
unfolding digit_value
digit base c = elim (digit_value c) [ none ↦ none | some v ↦ if ltb v base then some v else none ]

pub data FromChars : Type 0 where
  parsed : ℕ → Bytes → FromChars
  invalid_argument result_out_of_range : FromChars

-- The longest run of digits, as a number in front of `acc`, and the text behind it.
unfoldable pub scan_digits : ℕ → ℕ → Bytes → ℕ × Bytes
scan_digits base acc [] = (acc, [])
scan_digits base acc (c ∷ s) = elim (digit base c) [
  | none ↦ (acc, c ∷ s)
  | some v ↦ scan_digits base (acc * base + v) s
]

abbrev checked : ℕ → ℕ × Bytes → FromChars
checked bound (n, rest) = if ltb n bound then parsed n rest else result_out_of_range

-- `std::from_chars(first, last, value, base)` at an unsigned type with values below `bound`: no
-- sign, no prefix, no white space.
unfoldable pub from_chars : ℕ → ℕ → Bytes → FromChars
unfolding scan_digits
from_chars base bound [] = invalid_argument
from_chars base bound (c ∷ s) = elim (digit base c) [
  | none ↦ invalid_argument
  | some v ↦ checked bound (scan_digits base v s)
]

-- `parsed.ec == std::errc{} && parsed.ptr == last`: the value, if the whole text is a number.
abbrev pub whole : FromChars → Option ℕ
whole (parsed n []) = some n
whole (parsed n (c ∷ s)) = none
whole invalid_argument = none
whole result_out_of_range = none

unfoldable pub parse_number : ℕ → ℕ → Bytes → Option ℕ
unfolding from_chars
parse_number base bound text = whole (from_chars base bound text)

-- `while (!v.empty() && is_ows(v.front())) v.remove_prefix(1);`
unfoldable pub trim_front : Bytes → Bytes
trim_front [] = []
trim_front (c ∷ s) = if is_ows c then trim_front s else c ∷ s

-- `while (!v.empty() && is_ows(v.back())) v.remove_suffix(1);`
unfoldable pub trim_back : Bytes → Bytes
trim_back [] = []
trim_back (c ∷ s) = let rest = trim_back s in if is_empty rest && is_ows c then [] else c ∷ rest

unfoldable pub trim_ows : Bytes → Bytes
unfolding trim_front trim_back
trim_ows v = trim_back (trim_front v)

-- `std::to_chars` in base 10: the digits of a number, the last one first, on fuel. The buffers of
-- the source, of 32 bytes for a `std::size_t` and of 8 for a port, are not modelled.
unfoldable pub digits_down : ℕ → ℕ → Bytes
digits_down zero n = []
digits_down (suc fuel) n =
    let rest = digits_down fuel (n / 10) in (n % 10 + 48) ∷ (if ltb n 10 then [] else rest)

unfoldable pub to_chars : ℕ → Bytes
to_chars n = reverse (digits_down (n + 1) n)

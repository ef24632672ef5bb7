-- ===== src/Base/Search.antt =====
-- `std::string_view` comparison and search: `==`, `starts with`, `find` of a text and of a byte.
use Prim.Native.Nat.{ℕ, suc, ◌≤◌}
use mathlib.Core.Path.{◌≡◌, refl, ap}
use mathlib.Core.Logic.{◌↔◌}
use mathlib.Core.Bool.{Bool, true, false, ◌&&◌, ◌||◌}
use mathlib.Core.Option.{Option, none, some}
use mathlib.Core.List.{[], ◌∷◌, ◌++◌}
use native.Mathlib.Omega.{arith}
use Prim.Native.Char.{code}
use Prim.Native.String.{String}
use cpp_request.Base.Tests.{◌==◌, if◌then◌else◌}
use cpp_request.Base.Lists.{Bytes, length, drop, is_empty}

-- The code points of an ASCII literal.
abbrev pub codes : String → Bytes
codes String.[] = []
codes (String.◌∷◌ c s) = code c ∷ codes s

unfoldable pub equal : Bytes → Bytes → Bool
equal [] [] = true
equal [] (y ∷ ys) = false
equal (x ∷ xs) [] = false
equal (x ∷ xs) (y ∷ ys) = x == y && equal xs ys

unfoldable pub starts_with : Bytes → Bytes → Bool
starts_with [] s = true
starts_with (n ∷ ns) [] = false
starts_with (n ∷ ns) (x ∷ s) = n == x && starts_with ns s

-- The successor of an index that was found, in the tail of a text.
abbrev pub shift : Option ℕ → Option ℕ
shift none = none
shift (some i) = some (suc i)

-- `s.find(needle)`: the first index at which the needle stands; `none` is `npos`.
unfoldable pub find : Bytes → Bytes → Option ℕ
unfolding starts_with
find needle [] = if is_empty needle then some 0 else none
find needle (x ∷ s) = if starts_with needle (x ∷ s) then some 0 else shift (find needle s)

-- `s.find(byte)`.
unfoldable pub find_byte : ℕ → Bytes → Option ℕ
find_byte b [] = none
find_byte b (x ∷ s) = if x == b then some 0 else shift (find_byte b s)

unfoldable pub mem_byte : ℕ → Bytes → Bool
mem_byte b [] = false
mem_byte b (x ∷ s) = x == b || mem_byte b s

pub equal_iff : (a b : Bytes) → (equal a b ≡ true) ↔ (a ≡ b)
unfolding equal
equal_iff [] [] = ground arith
equal_iff [] (y ∷ b) = ground arith
equal_iff (x ∷ a) [] = ground arith
equal_iff (x ∷ a) (y ∷ b) = ground (arith, equal_iff a b)

pub starts_with-append : (n s t : Bytes) → starts_with n s ≡ true → starts_with n (s ++ t) ≡ true
unfolding starts_with
starts_with-append [] s t h = refl
starts_with-append (x ∷ n) [] t h = ground arith
starts_with-append (x ∷ n) (y ∷ s) t h = ground (arith, starts_with-append n s t)

pub starts_with-length : (n s : Bytes) → starts_with n s ≡ true → length n ≤ length s
unfolding starts_with
starts_with-length [] s h = omega arith
starts_with-length (x ∷ n) [] h = ground arith
starts_with-length (x ∷ n) (y ∷ s) h = ground (arith, starts_with-length n s)

-- A needle that fits into a text is compared with that text alone.
pub starts_with-append_of_le :
    (n s t : Bytes) → length n ≤ length s → starts_with n (s ++ t) ≡ starts_with n s
unfolding starts_with
starts_with-append_of_le [] s t h = refl
starts_with-append_of_le (x ∷ n) [] t h = elim h [ ]
starts_with-append_of_le (x ∷ n) (y ∷ s) t h =
    ap (λ b. x == y && b) (starts_with-append_of_le n s t (omega arith))

pub starts_with-split : (n s : Bytes) → starts_with n s ≡ true → n ++ drop (length n) s ≡ s
unfolding starts_with
starts_with-split [] s h = refl
starts_with-split (x ∷ n) [] h = cc
starts_with-split (x ∷ n) (y ∷ s) h = ground (arith, starts_with-split n s)

pub starts_with-append_self : (n s : Bytes) → starts_with n (n ++ s) ≡ true
unfolding starts_with
starts_with-append_self [] s = refl
starts_with-append_self (x ∷ n) s = ground (arith, starts_with-append_self n s)

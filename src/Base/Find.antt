-- ===== src/Base/Find.antt =====
-- Laws of `find`: where the index lies, how the text splits there, and what follows it does not matter.
use Prim.Native.Nat.{ℕ, ◌+◌, ◌≤◌}
use mathlib.Core.Path.{◌≡◌, refl, ap, subst}
use native.Mathlib.Nat.{zero-add, suc-add}
use mathlib.Core.Logic.{inl, inr}
use mathlib.Core.Bool.{false}
use mathlib.Core.Option.{none, some, some-injective}
use mathlib.Core.List.{[], ◌∷◌, ◌++◌}
use native.Mathlib.Omega.{arith}
use cpp_request.Base.Tests.{if◌then◌else◌, Bool-cases, Option-cases}
use cpp_request.Base.Lists.{Bytes, length, take, drop}
use cpp_request.Base.Search.{
  shift, find, mem_byte, starts_with, starts_with-append, starts_with-length,
  starts_with-append_of_le, starts_with-split,
}

-- The needle stands at the index, inside the text.
pub find-le : (n s : Bytes) (i : ℕ) → find n s ≡ some i → i + length n ≤ length s
unfolding find
find-le [] [] i h = ground arith
find-le (x ∷ n) [] i h = ground arith
find-le n (y ∷ s) i h = elim (Bool-cases (starts_with n (y ∷ s))) [
  | inl e ↦ ground (arith, starts_with-length n (y ∷ s))
  | inr e ↦ elim (Option-cases (find n s)) [
    | inl f ↦ ground arith
    | inr (j, f) ↦ ground (arith, find-le n s j)
  ]
]

-- What stands behind an occurrence does not change where the first one is.
pub find-append_some : (n s t : Bytes) (i : ℕ) → find n s ≡ some i → find n (s ++ t) ≡ some i
unfolding find
find-append_some [] [] [] i h = h
find-append_some [] [] (z ∷ t) i h = ground arith
find-append_some (x ∷ n) [] t i h = ground arith
find-append_some n (y ∷ s) t i h = elim (Bool-cases (starts_with n (y ∷ s))) [
  | inl e ↦ ground (arith, starts_with-append n (y ∷ s) t)
  | inr e ↦ elim (Option-cases (find n s)) [
    | inl f ↦ ground arith
    | inr (j, f) ↦
        ground
          (arith, starts_with-append_of_le n (y ∷ s) t, find-le n s j, find-append_some n s t j)
  ]
]

abbrev SplitsAt : Bytes → Bytes → ℕ → Type 0
SplitsAt n s i = take i s ++ (n ++ drop (i + length n) s) ≡ s

first_index :
    (n : Bytes) (y : ℕ) (s : Bytes) (i : ℕ)
    → find n (y ∷ s) ≡ some i
    → (if starts_with n (y ∷ s) then some 0 else shift (find n s)) ≡ some i
unfolding find
first_index n y s i h = h

-- The text is what stands before the occurrence, the needle, and the rest.
pub find-split :
    (n s : Bytes) (i : ℕ) → find n s ≡ some i → take i s ++ (n ++ drop (i + length n) s) ≡ s
unfolding find
find-split [] [] i h = ground arith
find-split (x ∷ n) [] i h = cc
find-split n (y ∷ s) i h = elim (Bool-cases (starts_with n (y ∷ s))) [
  | inl e ↦
      subst (SplitsAt n (y ∷ s)) (some-injective _ _ (rw e at (first_index n y s i h)))
        (rw zero-add (starts_with-split n (y ∷ s) e))
  | inr e ↦ elim (Option-cases (find n s)) [
    | inl f ↦ ground arith
    | inr (j, f) ↦
        subst (SplitsAt n (y ∷ s)) (some-injective _ _ (rw (e, f) at (first_index n y s i h)))
          (rw suc-add (ap (◌∷◌ y) (find-split n s j f)))
  ]
]

-- A line without a carriage return ends at the first CRLF behind it.
pub find_end_of_line :
    (line t : Bytes)
    → mem_byte b'\r' line ≡ false
    → find (b'\r' ∷ b'\n' ∷ []) (line ++ (b'\r' ∷ b'\n' ∷ t)) ≡ some (length line)
unfolding find mem_byte starts_with
find_end_of_line [] t h = refl
find_end_of_line (c ∷ line) t h = ground (arith, find_end_of_line line t)

-- A line without a carriage return and its carriage return are no whole line yet.
pub find_pending :
    (line : Bytes)
    → mem_byte b'\r' line ≡ false
    → find (b'\r' ∷ b'\n' ∷ []) (line ++ (b'\r' ∷ [])) ≡ none
unfolding find mem_byte starts_with
find_pending [] h = refl
find_pending (c ∷ line) h = ground (arith, find_pending line)

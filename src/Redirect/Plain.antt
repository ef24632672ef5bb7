-- ===== src/Redirect/Plain.antt =====
-- What `remove_dot_segments` returns: a rooted path without dot segments.
use cpp_request.Base.{
  ℕ, ◌≡◌, refl, Bool, true, false, not, ◌&&◌, List, [], ◌∷◌, ◌++◌, arith, ◌==◌, Bytes, codes, equal,
  mem_byte, starts_with, Bool-cases, inl, inr, all, ◌≢◌, all-append,
}
use cpp_request.Tokens.{split_on, onto_first}
use cpp_request.Redirect.Dots.{
  push_segment, collect_segments, join_segments, segments_of, remove_dot_segments, first_segment,
  ends_with, keep_trailing_slash,
}

-- Neither `.` nor `..`.
abbrev pub not_dots : Bytes → Bool
not_dots s = not (equal s (codes ".")) && not (equal s (codes ".."))

abbrev no_slash : Bytes → Bool
no_slash s = not (mem_byte b'/' s)

abbrev is_plain : Bytes → Bool
is_plain s = not_dots s && no_slash s

onto_first-no_slash :
    (c : ℕ) (ps : List Bytes)
    → (c == b'/') ≡ false
    → all no_slash ps ≡ true
    → all no_slash (onto_first c ps) ≡ true
unfolding mem_byte
onto_first-no_slash c [] e h = ground arith
onto_first-no_slash c (p ∷ ps) e h = ground arith

split_on-no_slash : (s : Bytes) → all no_slash (split_on b'/' s) ≡ true
unfolding split_on mem_byte
split_on-no_slash [] = refl
split_on-no_slash (c ∷ s) =
    ground (arith, split_on-no_slash s, onto_first-no_slash c (split_on b'/' s))

onto_first-append :
    (c : ℕ) (ps qs : List Bytes) → ps ≢ [] → onto_first c (ps ++ qs) ≡ onto_first c ps ++ qs
onto_first-append c [] qs h = absurd (h refl)
onto_first-append c (p ∷ ps) qs h = refl

split_on-ne-nil : (b : ℕ) (s : Bytes) → split_on b s ≢ []
unfolding split_on
split_on-ne-nil b [] h = cc
split_on-ne-nil b (c ∷ s) h = elim (Bool-cases (c == b)) [
  | inl e ↦ ground arith
  | inr e ↦ onto_first-ne-nil c (split_on b s) (ground arith)
]
  where
    onto_first-ne-nil : (c : ℕ) (ps : List Bytes) → onto_first c ps ≡ [] → ⊥
    onto_first-ne-nil c [] h = cc
    onto_first-ne-nil c (p ∷ ps) h = cc

-- The pieces of two texts joined by a separator.
split_on-append : (b : ℕ) (s t : Bytes) → split_on b (s ++ (b ∷ t)) ≡ split_on b s ++ split_on b t
unfolding split_on
split_on-append b [] t = ground arith
split_on-append b (c ∷ s) t = elim (Bool-cases (c == b)) [
  | inl e ↦ ground (arith, split_on-append b s t)
  | inr e ↦ ground (
    arith,
    split_on-append b s t,
    onto_first-append c (split_on b s) (split_on b t) (split_on-ne-nil b s),
  )
]

split_on-plain : (s : Bytes) → no_slash s ≡ true → split_on b'/' s ≡ s ∷ []
unfolding split_on mem_byte
split_on-plain [] h = refl
split_on-plain (c ∷ s) h = ground (arith, split_on-plain s)

push_segment-plain :
    (segments : List Bytes) (s : Bytes)
    → all is_plain segments ≡ true
    → no_slash s ≡ true
    → all is_plain (push_segment segments s) ≡ true
unfolding push_segment
push_segment-plain [] s h n = ground arith
push_segment-plain (t ∷ segments) s h n = ground arith

collect_segments-plain :
    (segments pieces : List Bytes)
    → all is_plain segments ≡ true
    → all no_slash pieces ≡ true
    → all is_plain (collect_segments segments pieces) ≡ true
unfolding collect_segments
collect_segments-plain segments [] h n = h
collect_segments-plain segments (p ∷ pieces) h n =
    collect_segments-plain (push_segment segments p) pieces
      (push_segment-plain segments p h (ground arith)) (ground arith)

-- The pieces of the joined segments are the segments, or one empty piece.
split_on-join_segments :
    (segments : List Bytes)
    → all is_plain segments ≡ true
    → all not_dots (split_on b'/' (join_segments segments)) ≡ true
unfolding join_segments equal split_on
split_on-join_segments [] h = refl
split_on-join_segments (s ∷ []) h = rw (split_on-plain s (ground arith)) (ground arith)
split_on-join_segments (s ∷ t ∷ ss) h =
    rw
      (
        split_on-append b'/' (join_segments (t ∷ ss)) s,
        all-append not_dots (split_on b'/' (join_segments (t ∷ ss))) (split_on b'/' s),
        split_on-plain s (ground arith),
        split_on-join_segments (t ∷ ss) (ground arith),
      )
      (ground arith)

segments_of-plain : (path : Bytes) → all is_plain (segments_of path) ≡ true
unfolding segments_of
segments_of-plain path =
    collect_segments-plain [] (split_on b'/' (first_segment path)) refl (split_on-no_slash _)

trailing-not_dots :
    (s : Bytes)
    → all not_dots (split_on b'/' s) ≡ true
    → all not_dots (split_on b'/' (s ++ (b'/' ∷ []))) ≡ true
unfolding equal split_on
trailing-not_dots s h =
    rw (split_on-append b'/' s [], all-append not_dots (split_on b'/' s) (split_on b'/' []), h)

-- The path that is returned begins with a slash, and none of its segments is `.` or `..`, whatever
-- the path was.
pub remove_dot_segments-plain :
    (path : Bytes)
    → (starts_with (b'/' ∷ []) (remove_dot_segments path) ≡ true)
      × (all not_dots (split_on b'/' (first_segment (remove_dot_segments path))) ≡ true)
unfolding remove_dot_segments starts_with
remove_dot_segments-plain path =
    elim (Bool-cases (keep_trailing_slash path && not (ends_with (codes "/") (b'/' ∷ joined)))) [
      | inl e ↦ (rw (e, remove_dot_segments) refl, rw (e, remove_dot_segments) slashed)
      | inr e ↦ (rw (e, remove_dot_segments) refl, rw (e, remove_dot_segments) plain)
    ]
  where
    joined : Bytes
    joined = join_segments (segments_of path)

    plain : all not_dots (split_on b'/' joined) ≡ true
    plain = split_on-join_segments (segments_of path) (segments_of-plain path)

    slashed : all not_dots (split_on b'/' (joined ++ (b'/' ∷ []))) ≡ true
    slashed = trailing-not_dots joined plain

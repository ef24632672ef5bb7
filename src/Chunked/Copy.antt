-- ===== src/Chunked/Copy.antt =====
-- Lemmas on single steps of the decoder with more input behind the cursor, and on copying a chunk in
-- two parts.
use cpp_request.Base.{
  ℕ, ◌-◌, ◌≤◌, ◌<◌, ◌≡◌, refl, ap, ◌∙◌, some, [], ◌++◌, arith, Bytes, length, take, drop, find,
  length-append, Bool-cases, inl, inr, append_assoc, take-append_of_le, drop-append_of_le,
  take-append, drop-append, take_all, drop_all, ltb,
}
use native.Mathlib.Nat.{min-eq_left, min-eq_right, sub_self, le_refl, sub-add-eq}
use cpp_request.Chunked.{
  need_more, Stage, size_line, trailers, Cursor, crlf, step_size_line, copy_chunk, end_copy,
  return_progress, step_trailers, step_at, step,
}

-- More input behind the cursor.
abbrev pub extend : Cursor → Bytes → Cursor
extend c b = record c { rest = c.rest ++ b }

pub copy_chunk_fits :
    (c : Cursor)
    → c.decoder.chunk_remaining ≤ length c.rest
    → copy_chunk c ≡ record c {
      output = c.output ++ take c.decoder.chunk_remaining c.rest;
      rest = drop c.decoder.chunk_remaining c.rest;
      decoder = record (c.decoder) { chunk_remaining = 0 };
    }
unfolding copy_chunk
copy_chunk_fits c h = rw (min-eq_left h, sub_self)

pub copy_chunk_short :
    (c : Cursor)
    → length c.rest ≤ c.decoder.chunk_remaining
    → copy_chunk c ≡ record c {
      output = c.output ++ c.rest;
      rest = [];
      decoder = record (c.decoder) { chunk_remaining = c.decoder.chunk_remaining - length c.rest };
    }
unfolding copy_chunk
copy_chunk_short c h = rw (
  min-eq_right h,
  take_all (length c.rest) c.rest (le_refl _),
  drop_all (length c.rest) c.rest (le_refl _),
)

pub copy_chunk-stage : (c : Cursor) → (copy_chunk c).decoder.stage ≡ c.decoder.stage
unfolding copy_chunk
copy_chunk-stage c = refl

pub end_copy_waits :
    (c : Cursor) → 0 < c.decoder.chunk_remaining → end_copy c ≡ return_progress c need_more
unfolding end_copy
end_copy_waits c h = ground arith

pub step_at_stage : (c : Cursor) {s : Stage} → c.decoder.stage ≡ s → step c ≡ step_at s c
unfolding step
step_at_stage c e = ap (λ s. step_at s c) e

pub step_found :
    (c : Cursor) {i : ℕ}
    → c.decoder.stage ≡ size_line
    → find crlf c.rest ≡ some i
    → step c ≡ step_size_line c (some i)
unfolding step_at
step_found c e f = step_at_stage c e ∙ ap (step_size_line c) f

pub step_found_trailer :
    (c : Cursor) {i : ℕ}
    → c.decoder.stage ≡ trailers
    → find crlf c.rest ≡ some i
    → step c ≡ step_trailers c (some i)
unfolding step_at
step_found_trailer c e f = step_at_stage c e ∙ ap (step_trailers c) f

abbrev shortened : Cursor → Cursor
shortened c = record c {
  output = c.output ++ c.rest;
  rest = [];
  decoder = record (c.decoder) { chunk_remaining = c.decoder.chunk_remaining - length c.rest };
}

module _ (b : Bytes) where
  pub copy_chunk-extend :
      (c : Cursor)
      → c.decoder.chunk_remaining ≤ length c.rest
      → copy_chunk (extend c b) ≡ extend (copy_chunk c) b
  copy_chunk-extend c h = rw (
    copy_chunk_fits c h,
    copy_chunk_fits (extend c b) (omega (arith, length-append c.rest b)),
    take-append_of_le c.decoder.chunk_remaining c.rest b h,
    drop-append_of_le c.decoder.chunk_remaining c.rest b h,
  )

  pub copy_chunk-twice :
      (c : Cursor)
      → length c.rest ≤ c.decoder.chunk_remaining
      → copy_chunk (extend c b) ≡ copy_chunk (extend (copy_chunk c) b)
  copy_chunk-twice c h =
      rw (copy_chunk_short c h)
        (elim (Bool-cases (ltb c.decoder.chunk_remaining (length (c.rest ++ b)))) [
          | inl more ↦ rw (
            copy_chunk_fits (extend c b) (ground arith),
            copy_chunk_fits (extend (shortened c) b) (ground (arith, length-append c.rest b)),
            take-append,
            drop-append,
            take_all c.decoder.chunk_remaining c.rest h,
            drop_all c.decoder.chunk_remaining c.rest h,
            append_assoc,
          )
          | inr less ↦ rw (
            copy_chunk_short (extend c b) (ground arith),
            copy_chunk_short (extend (shortened c) b) (ground (arith, length-append c.rest b)),
            append_assoc,
            length-append,
            sub-add-eq,
          )
        ])

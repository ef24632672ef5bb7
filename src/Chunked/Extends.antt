-- ===== src/Chunked/Extends.antt =====
-- Each step of the decoder, with more input behind the cursor: it does the same, or the decoder has
-- asked for more input.
use cpp_request.Base.{
  ℕ, ◌||◌, ◌&&◌, ◌+◌, ◌≤◌, ◌≡◌, refl, sym, ap, ◌∙◌, Option, none, some, [], ◌∷◌, ◌++◌, arith, ◌==◌,
  Bytes, length, take, drop, find, find-le, find-append_some, not, Bool-cases, inl, inr,
  take-append_of_le, drop-append_of_le, ltb,
}
use mathlib.Core.Path.{subst}
use cpp_request.Limits.{would_exceed}
use cpp_request.Base.Loop.{next, stop, stuck}
use cpp_request.Error.{Result, ok, err}
use cpp_request.Chunked.Line.{valid_trailer_line}
use cpp_request.Chunked.{
  ChunkDecodeProgress, need_more, complete, Stage, size_line, chunk_data, data_crlf, trailers,
  completed, Cursor, crlf, start_chunk, sized_chunk, step_size_line, step_chunk_data, copy_chunk,
  end_copy, step_data_crlf, DecodeStep, return_progress, end_trailer_line, step_trailers, step_at,
  step,
}
use cpp_request.Chunked.Copy.{
  extend, copy_chunk_fits, copy_chunk-stage, copy_chunk_short, end_copy_waits, step_at_stage,
  step_found, step_found_trailer, copy_chunk-extend, copy_chunk-twice,
}

-- What a step from a cursor says about the step `t` from the same cursor with more input.
abbrev pub ReturnExtends : Bytes → Cursor → Result ChunkDecodeProgress → DecodeStep → Type 0
ReturnExtends b c (ok need_more) t = t ≡ step (extend c b)
ReturnExtends b c (ok complete) t = t ≡ return_progress (extend c b) complete
ReturnExtends b c (err e) t = Unit {0}

abbrev pub Extends : Bytes → DecodeStep → DecodeStep → Type 0
Extends b (next c) t = t ≡ next (extend c b)
Extends b (stop r) t = ReturnExtends b r.cursor r.result t
Extends b stuck t = Unit {0}

module _ (b : Bytes) where
  start_chunk-Extends :
      (c : Cursor) (after : Bytes) (size : ℕ)
      → Extends b (start_chunk c after size) (start_chunk (extend c b) (after ++ b) size)
  unfolding start_chunk
  start_chunk-Extends c after size =
      elim (Bool-cases
        (not (size == 0) && would_exceed (length c.output) size c.decoder.limits.max_body_bytes)) [
          | inl e ↦ rw (e, Extends, start_chunk) tt
          | inr e ↦ rw (e, Extends, start_chunk) refl
        ]

  sized_chunk-Extends :
      (c : Cursor) (after : Bytes) (r : Result ℕ)
      → Extends b (sized_chunk c after r) (sized_chunk (extend c b) (after ++ b) r)
  unfolding sized_chunk
  sized_chunk-Extends c after (err e) = tt
  sized_chunk-Extends c after (ok size) = start_chunk-Extends c after size

  step_size_line-Extends :
      (c : Cursor) (i : ℕ)
      → i + 2 ≤ length c.rest
      → Extends b (step_size_line c (some i)) (step_size_line (extend c b) (some i))
  unfolding step_size_line
  step_size_line-Extends c i h =
      rw (take-append_of_le i c.rest b (omega arith), drop-append_of_le (i + 2) c.rest b h)
        (elim (Bool-cases (ltb c.decoder.limits.max_chunk_line_bytes i)) [
          | inl e ↦ rw (e, Extends, step_size_line) tt
          | inr e ↦ rw (e, Extends, step_size_line) (sized_chunk-Extends c (drop (i + 2) c.rest) _)
        ])

  end_copy-Extends :
      (c : Cursor) → c.decoder.chunk_remaining ≡ 0 → Extends b (end_copy c) (end_copy (extend c b))
  unfolding end_copy
  end_copy-Extends c e = ground arith

  step_chunk_data-Extends :
      (c : Cursor)
      → c.decoder.stage ≡ chunk_data
      → Extends b (step_chunk_data c) (step_chunk_data (extend c b))
  unfolding step_chunk_data step_at
  step_chunk_data-Extends c e = elim (Bool-cases (ltb (length c.rest) c.decoder.chunk_remaining)) [
    | inl short ↦
        rw
          (
            end_copy_waits (copy_chunk c) (rw (copy_chunk_short c (ground arith)) (ground arith)),
            Extends,
          )
          (ap end_copy (copy_chunk-twice b c (ground arith))
            ∙ sym (step_at_stage (extend (copy_chunk c) b) (copy_chunk-stage c ∙ e)))
    | inr fits ↦ rw (copy_chunk-extend b c (ground arith)) (
        end_copy-Extends (copy_chunk c)
          (ap (λ k. k.decoder.chunk_remaining) (copy_chunk_fits c (ground arith))))
  ]

  data_crlf-again :
      (c : Cursor) (rest : Bytes)
      → c.rest ≡ rest
      → c.decoder.stage ≡ data_crlf
      → step_data_crlf (extend c b) (rest ++ b) ≡ step (extend c b)
  unfolding step step_at
  data_crlf-again c rest r e =
      ap (λ x. step_data_crlf (extend c b) (x ++ b)) (sym r)
      ∙ ap (λ s. step_at s (extend c b)) (sym e)

  step_data_crlf-Extends :
      (c : Cursor) (rest : Bytes)
      → c.rest ≡ rest
      → c.decoder.stage ≡ data_crlf
      → Extends b (step_data_crlf c rest) (step_data_crlf (extend c b) (rest ++ b))
  unfolding step_data_crlf
  step_data_crlf-Extends c [] r e = data_crlf-again c [] r e
  step_data_crlf-Extends c (x ∷ []) r e = data_crlf-again c (x ∷ []) r e
  step_data_crlf-Extends c (x ∷ y ∷ rest) r e = elim (Bool-cases (not (x == 13) || not (y == 10))) [
    | inl f ↦ rw (f, Extends, step_data_crlf) tt
    | inr f ↦ rw (f, Extends, step_data_crlf) refl
  ]

  end_trailer_line-Extends :
      (c : Cursor) (line : Bytes)
      → Extends b (end_trailer_line c line) (end_trailer_line (extend c b) line)
  unfolding end_trailer_line
  end_trailer_line-Extends c [] = refl
  end_trailer_line-Extends c (x ∷ line) = elim (Bool-cases (valid_trailer_line (x ∷ line))) [
    | inl e ↦ rw (e, Extends, end_trailer_line) refl
    | inr e ↦ rw (e, Extends, end_trailer_line) tt
  ]

  step_trailers-Extends :
      (c : Cursor) (i : ℕ)
      → i + 2 ≤ length c.rest
      → Extends b (step_trailers c (some i)) (step_trailers (extend c b) (some i))
  unfolding step_trailers
  step_trailers-Extends c i h =
      rw (take-append_of_le i c.rest b (omega arith), drop-append_of_le (i + 2) c.rest b h)
        (elim (Bool-cases
          (would_exceed c.decoder.trailer_bytes_seen (i + 2) c.decoder.limits.max_trailer_bytes)) [
            | inl e ↦ rw (e, Extends, step_trailers) tt
            | inr e ↦ rw (e, Extends, step_trailers) (end_trailer_line-Extends _ (take i c.rest))
          ])

  size_line-Extends :
      (c : Cursor) (o : Option ℕ)
      → c.decoder.stage ≡ size_line
      → find crlf c.rest ≡ o
      → Extends b (step_size_line c o) (step (extend c b))
  unfolding step_size_line
  size_line-Extends c none e f =
      elim (Bool-cases (ltb c.decoder.limits.max_chunk_line_bytes (length c.rest))) [
        | inl t ↦ rw (t, Extends, step_size_line) tt
        | inr t ↦ rw (t, Extends, step_size_line) refl
      ]
  size_line-Extends c (some i) e f =
      subst (Extends b (step_size_line c (some i)))
        (sym (step_found (extend c b) e (find-append_some crlf c.rest b i f)))
        (step_size_line-Extends c i (find-le crlf c.rest i f))

  trailers-Extends :
      (c : Cursor) (o : Option ℕ)
      → c.decoder.stage ≡ trailers
      → find crlf c.rest ≡ o
      → Extends b (step_trailers c o) (step (extend c b))
  unfolding step_trailers
  trailers-Extends c none e f =
      elim (Bool-cases (
        would_exceed c.decoder.trailer_bytes_seen (length c.rest)
          c.decoder.limits.max_trailer_bytes)) [
            | inl t ↦ rw (t, Extends, step_trailers) tt
            | inr t ↦ rw (t, Extends, step_trailers) refl
          ]
  trailers-Extends c (some i) e f =
      subst (Extends b (step_trailers c (some i)))
        (sym (step_found_trailer (extend c b) e (find-append_some crlf c.rest b i f)))
        (step_trailers-Extends c i (find-le crlf c.rest i f))

  step_at-Extends :
      (s : Stage) (c : Cursor) → c.decoder.stage ≡ s → Extends b (step_at s c) (step (extend c b))
  unfolding step_at
  step_at-Extends size_line c e = size_line-Extends c (find crlf c.rest) e refl
  step_at-Extends chunk_data c e = rw (step_at_stage (extend c b) e) (step_chunk_data-Extends c e)
  step_at-Extends data_crlf c e =
      rw (step_at_stage (extend c b) e) (step_data_crlf-Extends c c.rest refl e)
  step_at-Extends trailers c e = trailers-Extends c (find crlf c.rest) e refl
  step_at-Extends completed c e = rw (step_at_stage (extend c b) e) refl

pub step-Extends : (b : Bytes) (c : Cursor) → Extends b (step c) (step (extend c b))
unfolding step
step-Extends b c = step_at-Extends b c.decoder.stage c refl

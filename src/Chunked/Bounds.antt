-- ===== src/Chunked/Bounds.antt =====
-- The limits on the decoded body and on the trailer section hold at every return, errors included.
use cpp_request.Base.{
  ℕ, ◌+◌, ◌≤◌, ◌≡◌, false, Option, none, some, [], ◌∷◌, arith, Bytes, length, take, drop, find,
  length-append, length-take, min, Bool-cases, inl, inr,
}
use cpp_request.Base.Loop.{Step, loop_inv, After}
use cpp_request.Error.{Result, ok, err}
use cpp_request.Limits.{ResponseLimits, would_exceed, would_exceed_iff}
use mathlib.Core.Path.{subst}
use cpp_request.Chunked.Returns.{process-eq-some}
use cpp_request.Chunked.Line.{parse_chunk_size}
use cpp_request.Chunked.{
  ChunkedDecoder, Stage, size_line, chunk_data, data_crlf, trailers, completed, Cursor, Processed,
  crlf, Returned, start_chunk, sized_chunk, step_size_line, step_chunk_data, copy_chunk, end_copy,
  step_data_crlf, end_trailer_line, step_trailers, step_at, step, run, process,
}

-- The chunk under way fits into the body as well as what is decoded, and a chunk is under way in
-- one stage only.
pub record WithinLimits (l : ResponseLimits) (d : ChunkedDecoder) (output : Bytes) : Type 0 where
  pub kept : d.limits ≡ l
  pub body : length output + d.chunk_remaining ≤ l.max_body_bytes
  pub trailer : d.trailer_bytes_seen ≤ l.max_trailer_bytes

abbrev pub CursorWithin : ResponseLimits → Cursor → Type 0
CursorWithin l c = WithinLimits l c.decoder c.output

abbrev pub ReturnedWithin : ResponseLimits → Returned → Type 0
ReturnedWithin l r = CursorWithin l r.cursor

abbrev StepWithin : ResponseLimits → Step Cursor Returned → Type 0
StepWithin l = After (CursorWithin l) (ReturnedWithin l)

module _ (l : ResponseLimits) where
  start_chunk-StepWithin :
      (c : Cursor) (after : Bytes) (size : ℕ)
      → CursorWithin l c
      → StepWithin l (start_chunk c after size)
  unfolding start_chunk
  start_chunk-StepWithin c after size w =
      ground (arith, would_exceed_iff (length c.output) size c.decoder.limits.max_body_bytes)

  sized_chunk-StepWithin :
      (c : Cursor) (after : Bytes) (r : Result ℕ)
      → CursorWithin l c
      → StepWithin l (sized_chunk c after r)
  unfolding sized_chunk
  sized_chunk-StepWithin c after (err e) w = w
  sized_chunk-StepWithin c after (ok size) w = start_chunk-StepWithin c after size w

  step_size_line-StepWithin :
      (c : Cursor) (o : Option ℕ) → CursorWithin l c → StepWithin l (step_size_line c o)
  unfolding step_size_line
  step_size_line-StepWithin c none w = ground arith
  step_size_line-StepWithin c (some i) w =
      ground
        (arith, sized_chunk-StepWithin c (drop (i + 2) c.rest) (parse_chunk_size (take i c.rest)) w)

  step_chunk_data-StepWithin : (c : Cursor) → CursorWithin l c → StepWithin l (step_chunk_data c)
  unfolding step_chunk_data copy_chunk end_copy
  step_chunk_data-StepWithin c w =
      let amount : ℕ = min c.decoder.chunk_remaining (length c.rest) in
      ground (arith, length-append c.output (take amount c.rest), length-take amount c.rest)

  step_data_crlf-StepWithin :
      (c : Cursor) (rest : Bytes) → CursorWithin l c → StepWithin l (step_data_crlf c rest)
  unfolding step_data_crlf
  step_data_crlf-StepWithin c [] w = w
  step_data_crlf-StepWithin c (a ∷ []) w = w
  step_data_crlf-StepWithin c (a ∷ b ∷ r) w = ground arith

  end_trailer_line-StepWithin :
      (c : Cursor) (line : Bytes) → CursorWithin l c → StepWithin l (end_trailer_line c line)
  unfolding end_trailer_line
  end_trailer_line-StepWithin c line w = ground arith

  step_trailers-StepWithin :
      (c : Cursor) (o : Option ℕ) → CursorWithin l c → StepWithin l (step_trailers c o)
  unfolding step_trailers
  step_trailers-StepWithin c none w = ground arith
  step_trailers-StepWithin c (some i) w = elim (Bool-cases (would_exceed seen (i + 2) max)) [
    | inl e ↦ rw (e, After, step_trailers) w
    | inr e ↦
        rw (e, After, step_trailers)
          (end_trailer_line-StepWithin _ (take i c.rest)
            (record { kept = w.kept; body = w.body; trailer = seen-le e }))
  ]
    where
      seen : ℕ
      seen = c.decoder.trailer_bytes_seen

      max : ℕ
      max = c.decoder.limits.max_trailer_bytes

      seen-le : would_exceed seen (i + 2) max ≡ false → seen + (i + 2) ≤ l.max_trailer_bytes
      seen-le e = ground (arith, would_exceed_iff seen (i + 2) max)

  step_at-StepWithin : (s : Stage) (c : Cursor) → CursorWithin l c → StepWithin l (step_at s c)
  unfolding step_at
  step_at-StepWithin size_line c w = step_size_line-StepWithin c (find crlf c.rest) w
  step_at-StepWithin chunk_data c w = step_chunk_data-StepWithin c w
  step_at-StepWithin data_crlf c w = step_data_crlf-StepWithin c c.rest w
  step_at-StepWithin trailers c w = step_trailers-StepWithin c (find crlf c.rest) w
  step_at-StepWithin completed c w = w

  pub step-StepWithin :
      (c : Cursor) → CursorWithin l c → After (CursorWithin l) (ReturnedWithin l) (step c)
  unfolding step
  step-StepWithin c w = step_at-StepWithin c.decoder.stage c w

-- Whatever a call of `process` returns, an error or not, the output and the chunk under way stay
-- within `max_body_bytes`, and the trailer bytes within `max_trailer_bytes`, if they did before.
pub process-WithinLimits :
    (l : ResponseLimits) (d : ChunkedDecoder) (input output : Bytes) (p : Processed)
    → WithinLimits l d output
    → process d input output ≡ some p
    → WithinLimits l p.decoder p.output
unfolding run
process-WithinLimits l d input output p w h =
    let (r, e, same) = process-eq-some d input output p h in
    let kept : ReturnedWithin l r =
      loop_inv (CursorWithin l) (ReturnedWithin l) step (step-StepWithin l) _ _ w e in
    subst (λ q. WithinLimits l q.decoder q.output) same kept

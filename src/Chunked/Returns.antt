-- ===== src/Chunked/Returns.antt =====
-- The loop of `process` ends on every input.
use cpp_request.Base.{
  ℕ, ◌+◌, ◌≤◌, ◌≡◌, refl, ap, Option, none, some, [], ◌∷◌, arith, Bytes, length, take, drop, find,
  find-le, length-drop, min,
}
use mathlib.Core.Option.{some-injective}
use cpp_request.Base.Loop.{loop_total, loop-resume, resume, Descends}
use cpp_request.Error.{Result, ok, err}
use cpp_request.Chunked.Line.{parse_chunk_size}
use cpp_request.Chunked.{
  ChunkedDecoder, Stage, size_line, chunk_data, data_crlf, trailers, completed, Cursor, Processed,
  crlf, measure, Returned, start_chunk, sized_chunk, step_size_line, step_chunk_data, copy_chunk,
  end_copy, step_data_crlf, end_trailer_line, step_trailers, step_at, step, run, process, processed,
  erase_prefix,
}

start_chunk-Descends :
    (c : Cursor) (after : Bytes) (size : ℕ)
    → length after + 2 ≤ length c.rest
    → Descends measure c (start_chunk c after size)
unfolding start_chunk
start_chunk-Descends c after size h = ground arith

sized_chunk-Descends :
    (c : Cursor) (after : Bytes) (r : Result ℕ)
    → length after + 2 ≤ length c.rest
    → Descends measure c (sized_chunk c after r)
unfolding sized_chunk
sized_chunk-Descends c after (err e) h = tt
sized_chunk-Descends c after (ok size) h = start_chunk-Descends c after size h

abbrev InRest : Cursor → Option ℕ → Type 0
InRest c none = Unit {0}
InRest c (some i) = i + 2 ≤ length c.rest

find-InRest : (c : Cursor) (o : Option ℕ) → find crlf c.rest ≡ o → InRest c o
find-InRest c none e = tt
find-InRest c (some i) e = find-le crlf c.rest i e

step_size_line-Descends :
    (c : Cursor) (o : Option ℕ) → InRest c o → Descends measure c (step_size_line c o)
unfolding step_size_line
step_size_line-Descends c none h = ground arith
step_size_line-Descends c (some i) h = ground (
  arith,
  sized_chunk-Descends c (drop (i + 2) c.rest) (parse_chunk_size (take i c.rest)),
  length-drop (i + 2) c.rest,
)

step_chunk_data-Descends :
    (c : Cursor) → c.decoder.stage ≡ chunk_data → Descends measure c (step_chunk_data c)
unfolding step_chunk_data copy_chunk end_copy
step_chunk_data-Descends c e =
    ground (arith, length-drop (min c.decoder.chunk_remaining (length c.rest)) c.rest)

step_data_crlf-Descends :
    (c : Cursor) (rest : Bytes) → c.rest ≡ rest → Descends measure c (step_data_crlf c rest)
unfolding step_data_crlf
step_data_crlf-Descends c [] e = tt
step_data_crlf-Descends c (a ∷ []) e = tt
step_data_crlf-Descends c (a ∷ b ∷ r) e = ground arith

step_trailers-Descends :
    (c : Cursor) (o : Option ℕ)
    → c.decoder.stage ≡ trailers
    → InRest c o
    → Descends measure c (step_trailers c o)
unfolding step_trailers end_trailer_line
step_trailers-Descends c none e h = ground arith
step_trailers-Descends c (some i) e h = ground (arith, length-drop (i + 2) c.rest)

step_at-Descends : (s : Stage) (c : Cursor) → c.decoder.stage ≡ s → Descends measure c (step_at s c)
unfolding step_at
step_at-Descends size_line c e = step_size_line-Descends c _ (find-InRest c _ refl)
step_at-Descends chunk_data c e = step_chunk_data-Descends c e
step_at-Descends data_crlf c e = step_data_crlf-Descends c c.rest refl
step_at-Descends trailers c e = step_trailers-Descends c _ e (find-InRest c _ refl)
step_at-Descends completed c e = tt

pub step-Descends : (c : Cursor) → Descends measure c (step c)
unfolding step
step-Descends c = step_at-Descends c.decoder.stage c refl

-- The loop returns from every cursor.
pub run-returns : (c : Cursor) → (r : Returned) × (run c ≡ some r)
unfolding run
run-returns c =
    loop_total (λ _. Unit {0}) measure step (λ s _. step-Descends s) (λ _ _ _ _. tt) (measure c + 1)
      c tt (omega arith)

-- `process` returns for every decoder, input and output: its loop does not run for ever.
pub process-returns :
    (d : ChunkedDecoder) (input output : Bytes)
    → (p : Processed) × (process d input output ≡ some p)
unfolding process
process-returns d input output =
    let c : Cursor = record { decoder = d; rest = input; output = output } in
    let (r, e) = run-returns c in (erase_prefix input r, ap (processed input) e)

processed-eq-some :
    (input : Bytes) (o : Option Returned) (p : Processed)
    → processed input o ≡ some p
    → (r : Returned) × (o ≡ some r) × (erase_prefix input r ≡ p)
processed-eq-some input none p h = cc
processed-eq-some input (some r) p h = (r, refl, some-injective _ _ h)

-- What `process` returns is what its loop returns, with the prefix erased.
pub process-eq-some :
    (d : ChunkedDecoder) (input output : Bytes) (p : Processed)
    → process d input output ≡ some p
    → (r : Returned) × (run (record { decoder = d; rest = input; output = output }) ≡ some r)
      × (erase_prefix input r ≡ p)
unfolding process
process-eq-some d input output p h =
    processed-eq-some input (run (record { decoder = d; rest = input; output = output })) p h

-- `run` takes one step and goes on.
pub run-step : (c : Cursor) → run c ≡ resume measure step (step c)
unfolding run
run-step c = loop-resume measure step step-Descends c

-- ===== src/Chunked/Resume.antt =====
-- The decoder is incremental: input that comes in two pieces is decoded as if it came in one.
use cpp_request.Base.{◌≡◌, refl, sym, ap, ◌∙◌, true, Option, some, ◌++◌, Bytes}
use mathlib.Core.Path.{subst, subst₂}
use mathlib.Core.Option.{some-injective}
use cpp_request.Base.Loop.{Step, next, stop, stuck, resume, loop_inv, After}
use cpp_request.Error.{Result, ok, err, has_value}
use cpp_request.Chunked.Returns.{run-step, process-eq-some}
use cpp_request.Chunked.{
  ChunkedDecoder, ChunkDecodeProgress, need_more, complete, Cursor, Processed, measure, Returned,
  step, run, process, processed, erase_prefix,
}
use cpp_request.Chunked.Copy.{extend}
use cpp_request.Chunked.Extends.{ReturnExtends, Extends, step-Extends}

module _ (b : Bytes) where
  -- What a return says about the run `whole` with more input.
  abbrev RunExtends : Cursor → Result ChunkDecodeProgress → Option Returned → Type 0
  RunExtends c (ok need_more) whole = whole ≡ run (extend c b)
  RunExtends c (ok complete) whole =
      whole ≡ some (record { cursor = extend c b; result = ok complete })
  RunExtends c (err e) whole = Unit {0}

  return-RunExtends :
      (c : Cursor) (r : Result ChunkDecodeProgress) (t : Step Cursor Returned)
      (whole : Option Returned)
      → resume measure step t ≡ whole
      → ReturnExtends b c r t
      → RunExtends c r whole
  return-RunExtends c (ok need_more) t whole w e =
      sym w ∙ ap (resume measure step) e ∙ sym (run-step (extend c b))
  return-RunExtends c (ok complete) t whole w e = sym w ∙ ap (resume measure step) e
  return-RunExtends c (err x) t whole w e = tt

  resume-Extends :
      (x t : Step Cursor Returned) (whole : Option Returned)
      → resume measure step t ≡ whole
      → Extends b x t
      → After (λ c. run (extend c b) ≡ whole) (λ r. RunExtends r.cursor r.result whole) x
  unfolding run
  resume-Extends (next c) t whole w e = subst (λ u. resume measure step u ≡ whole) e w
  resume-Extends (stop r) t whole w e = return-RunExtends r.cursor r.result t whole w e
  resume-Extends stuck t whole w e = tt

  run-RunExtends :
      (c : Cursor) {r : Returned} → run c ≡ some r → RunExtends r.cursor r.result (run (extend c b))
  unfolding run
  run-RunExtends c h =
      loop_inv (λ s. run (extend s b) ≡ run (extend c b))
        (λ r. RunExtends r.cursor r.result (run (extend c b))) step
        (λ s w.
          resume-Extends (step s) (step (extend s b)) _ (sym (run-step (extend s b)) ∙ w)
            (step-Extends b s))
        _ c refl h

abbrev start : ChunkedDecoder → Bytes → Bytes → Cursor
start d input output = record { decoder = d; rest = input; output = output }

-- The cursor that a call leaves behind.
abbrev left : Processed → Cursor
left p = record { decoder = p.decoder; rest = p.input; output = p.output }

cursor-left :
    (input : Bytes) (r : Returned) {k : ChunkDecodeProgress}
    → r.result ≡ ok k
    → r.cursor ≡ left (erase_prefix input r)
cursor-left input r e = rw e

-- A call whose result is a progress, as a run to the cursor that it leaves.
process-left :
    (d : ChunkedDecoder) (input output : Bytes) (p : Processed) {k : ChunkDecodeProgress}
    → process d input output ≡ some p
    → p.result ≡ ok k
    → run (record { decoder = d; rest = input; output = output })
      ≡ some (record { cursor = left p; result = ok k })
process-left d input output p h e =
    let (r, ran, same) = process-eq-some d input output p h in
    let done = ap (λ q. q.result) same ∙ e in
    ran
    ∙ ap some
        (λ i. record { cursor = (cursor-left input r done ∙ ap left same) i; result = done i })

-- The two calls leave the same decoder, output and result, and the same input behind what they read.
pub record SameDecoding (p q : Processed) : Type 0 where
  pub decoder : p.decoder ≡ q.decoder
  pub output : p.output ≡ q.output
  pub result : p.result ≡ q.result
  pub input : has_value p.result ≡ true → p.input ≡ q.input

erase_prefix-SameDecoding :
    (i j : Bytes) (r : Returned) → SameDecoding (erase_prefix i r) (erase_prefix j r)
erase_prefix-SameDecoding i j r = record {
  decoder = refl;
  output = refl;
  result = refl;
  input = same_rest r.result r.cursor.rest;
}
  where
    same_rest :
        (x : Result ChunkDecodeProgress) (rest : Bytes)
        → has_value x ≡ true
        → ◌≡◌ {A = Bytes} (elim x [ ok _ ↦ rest | err _ ↦ i ]) (elim x [ ok _ ↦ rest | err _ ↦ j ])
    same_rest (ok k) rest h = refl
    same_rest (err e) rest h = cc

-- If a call on `a` asks for more input, and a second call, on what it left followed by `b`,
-- returns, and so does one call on both pieces, then the two ways end alike: the same decoder,
-- output and result, and the same unread input unless the result is an error.
pub process-append :
    (d : ChunkedDecoder) (a b output : Bytes) (p q whole : Processed)
    → process d a output ≡ some p
    → p.result ≡ ok need_more
    → process p.decoder (p.input ++ b) p.output ≡ some q
    → process d (a ++ b) output ≡ some whole
    → SameDecoding q whole
process-append d a b output p q whole hp more hq hw =
    let (rq, ran_q, same_q) = process-eq-some p.decoder (p.input ++ b) p.output q hq in
    let (rw', ran_w, same_w) = process-eq-some d (a ++ b) output whole hw in
    let split = run-RunExtends b (start d a output) (process-left d a output p hp more) in
    let same : rq ≡ rw' = some-injective _ _ (sym ran_q ∙ sym split ∙ ran_w) in
    subst₂ SameDecoding same_q same_w (
      subst (λ r. SameDecoding (erase_prefix (p.input ++ b) rq) (erase_prefix (a ++ b) r)) same
        (erase_prefix-SameDecoding (p.input ++ b) (a ++ b) rq))

-- A call that completes does not look at what follows the message, and leaves it in the input.
pub process-append_complete :
    (d : ChunkedDecoder) (a b output : Bytes) (p : Processed)
    → process d a output ≡ some p
    → p.result ≡ ok complete
    → process d (a ++ b) output ≡ some (record p { input = p.input ++ b })
unfolding process
process-append_complete d a b output p hp done =
    let split = run-RunExtends b (start d a output) (process-left d a output p hp done) in
    ap (processed (a ++ b)) split
    ∙ ap some (λ i. record {
      decoder = p.decoder;
      input = p.input ++ b;
      output = p.output;
      result = sym done i;
    })

-- ===== src/ResponseParser/Bounds.antt =====
-- The body stays within its limit at every return, and a response whose body is forbidden has none.
use cpp_request.Base.{
  ℕ, ◌≡◌, refl, sym, ◌∙◌, not, ◌&&◌, Option, none, some, ◌++◌, arith, Bytes, length, take, find,
  length-append, min, inl, inr, Bool-cases, is_empty,
}
use cpp_request.Error.{Result, ok, err}
use cpp_request.Chunked.{Processed, process, crlf}
use cpp_request.ResponseParser.State.{
  ResponseParser, Stage, reading_head, content_length_body, close_delimited_body, chunked_body,
  completed, Returned,
}
use cpp_request.ResponseParser.Body.{
  copy_body, step_content_length_body, drain_buffer, step_close_delimited_body, decoded_body,
  step_chunked_body,
}
use cpp_request.ResponseParser.{crlf_crlf, step_at, step, process_buffer, feed}
use mathlib.Core.Path.{subst}
use cpp_request.Limits.{ResponseLimits, would_exceed_iff}
use cpp_request.Base.Loop.{After, loop_inv}
use cpp_request.Chunked.{new_decoder, ChunkDecodeProgress}
use cpp_request.Chunked
use cpp_request.Chunked.Bounds.{WithinLimits, process-WithinLimits}
use cpp_request.ResponseParser.{finish_drained, finish_at, finish_eof}
use cpp_request.Base.{length-take}
use cpp_request.Request.{Method}
use cpp_request.ResponseParser.State.{new_parser}
use cpp_request.ResponseParser.Invariant.{
  StageWithin, IsWithin, ReturnedWithin, StepWithin, step_head-StepWithin,
}

module _ (l : ResponseLimits) where
  step_content_length_body-StepWithin :
      (p : ResponseParser)
      → p.limits ≡ l
      → p.stage ≡ content_length_body
      → StageWithin l content_length_body p
      → StepWithin l (step_content_length_body p)
  unfolding step_content_length_body copy_body
  step_content_length_body-StepWithin p k e w =
      let amount : ℕ = min p.content_length_remaining (length p.buffer) in
      ground
        (arith, length-append p.response.body (take amount p.buffer), length-take amount p.buffer)

  -- What a drained parser keeps.
  DrainWithin : ResponseParser → Result ResponseParser → Type 0
  DrainWithin p (err e) = Unit {0}
  DrainWithin p (ok q) = (q.limits ≡ l) × (q.stage ≡ p.stage) × StageWithin l close_delimited_body q

  drain_buffer-DrainWithin :
      (p : ResponseParser)
      → p.limits ≡ l
      → StageWithin l close_delimited_body p
      → DrainWithin p (drain_buffer p)
  unfolding drain_buffer DrainWithin
  drain_buffer-DrainWithin p k w = ground (
    arith,
    would_exceed_iff (length p.response.body) (length p.buffer) p.limits.max_body_bytes,
    length-append p.response.body p.buffer,
  )

  step_close_delimited_body-StepWithin :
      (p : ResponseParser) (r : Result ResponseParser)
      → p.limits ≡ l
      → p.stage ≡ close_delimited_body
      → StageWithin l close_delimited_body p
      → DrainWithin p r
      → StepWithin l (step_close_delimited_body p r)
  unfolding step_close_delimited_body DrainWithin
  step_close_delimited_body-StepWithin p (err x) k e w d = (k, w.0)
  step_close_delimited_body-StepWithin p (ok q) k e w d =
      (d.0, subst (λ s. StageWithin l s q) (sym (d.1 ∙ e)) d.2)

  decoded_body-StepWithin :
      (p : ResponseParser) (r : Result ChunkDecodeProgress)
      → p.limits ≡ l
      → p.stage ≡ chunked_body
      → WithinLimits l p.chunked_decoder p.response.body
      → StepWithin l (decoded_body p r)
  unfolding decoded_body
  decoded_body-StepWithin p (err x) k e w = (k, omega (arith, w.body))
  decoded_body-StepWithin p (ok Chunked.ChunkDecodeProgress.need_more) k e w =
      elim (Bool-cases (p.body_forbidden && not (is_empty p.response.body))) [
        | inl t ↦ rw (t, After, decoded_body) (k, omega (arith, w.body))
        | inr t ↦ rw (t, After, decoded_body) (k, subst (λ s. StageWithin l s p) (sym e) (w, t))
      ]
  decoded_body-StepWithin p (ok Chunked.ChunkDecodeProgress.complete) k e w =
      elim (Bool-cases (p.body_forbidden && not (is_empty p.response.body))) [
        | inl t ↦ rw (t, After, decoded_body) (k, omega (arith, w.body))
        | inr t ↦ rw (t, After, decoded_body) (k, (omega (arith, w.body), t))
      ]

  step_chunked_body-StepWithin :
      (p : ResponseParser) (o : Option Processed)
      → p.limits ≡ l
      → p.stage ≡ chunked_body
      → ((d : Processed) → o ≡ some d → WithinLimits l d.decoder d.output)
      → StepWithin l (step_chunked_body p o)
  unfolding step_chunked_body
  step_chunked_body-StepWithin p none k e w = tt
  step_chunked_body-StepWithin p (some d) k e w =
      decoded_body-StepWithin
        (record p {
          chunked_decoder = d.decoder;
          buffer = d.input;
          response = record (p.response) { body = d.output };
        })
        d.result k e (w d refl)

  step_at-StepWithin :
      (s : Stage) (p : ResponseParser) → p.stage ≡ s → IsWithin l p → StepWithin l (step_at s p)
  unfolding step_at
  step_at-StepWithin reading_head p e (k, w) =
      step_head-StepWithin l p (find crlf_crlf p.buffer) k e (subst (λ s. StageWithin l s p) e w)
  step_at-StepWithin content_length_body p e (k, w) =
      step_content_length_body-StepWithin p k e (subst (λ s. StageWithin l s p) e w)
  step_at-StepWithin close_delimited_body p e (k, w) =
      let w' = subst (λ s. StageWithin l s p) e w in
      step_close_delimited_body-StepWithin p (drain_buffer p) k e w'
        (drain_buffer-DrainWithin p k w')
  step_at-StepWithin chunked_body p e (k, w) =
      let w' = subst (λ s. StageWithin l s p) e w in
      step_chunked_body-StepWithin p _ k e
        (λ d h. process-WithinLimits l p.chunked_decoder p.buffer p.response.body d w'.0 h)
  step_at-StepWithin completed p e w = w

  buffer-StageWithin :
      (s : Stage) (p : ResponseParser) (b : Bytes)
      → StageWithin l s p
      → StageWithin l s (record p { buffer = b })
  buffer-StageWithin reading_head p b w = w
  buffer-StageWithin content_length_body p b w = w
  buffer-StageWithin close_delimited_body p b w = w
  buffer-StageWithin chunked_body p b w = w
  buffer-StageWithin completed p b w = w

  finish_drained-ReturnedWithin :
      (p : ResponseParser) (r : Result ResponseParser)
      → p.limits ≡ l
      → StageWithin l close_delimited_body p
      → DrainWithin p r
      → ReturnedWithin l (finish_drained p r)
  unfolding finish_drained DrainWithin
  finish_drained-ReturnedWithin p (err x) k w d = (k, w.0)
  finish_drained-ReturnedWithin p (ok q) k w d = (d.0, d.2)

  finish_at-ReturnedWithin :
      (s : Stage) (p : ResponseParser)
      → p.stage ≡ s
      → IsWithin l p
      → ReturnedWithin l (finish_at s p)
  unfolding finish_at
  finish_at-ReturnedWithin close_delimited_body p e (k, w) =
      let w' = subst (λ s. StageWithin l s p) e w in
      finish_drained-ReturnedWithin p (drain_buffer p) k w' (drain_buffer-DrainWithin p k w')
  finish_at-ReturnedWithin completed p e w = w
  finish_at-ReturnedWithin content_length_body p e (k, w) =
      (k, omega (arith, subst (λ s. StageWithin l s p) e w))
  finish_at-ReturnedWithin reading_head p e (k, w) =
      (k, ground (arith, subst (λ s. StageWithin l s p) e w))
  finish_at-ReturnedWithin chunked_body p e (k, w) =
      (k, omega (arith, (subst (λ s. StageWithin l s p) e w).0))

  -- If a parser satisfies the invariant of its stage, then whatever a call of `feed` returns, the
  -- body is within `max_body_bytes`; and unless it returns an error, the invariant of the new stage
  -- holds, so that a body that is forbidden is empty.
  pub feed-IsWithin :
      (p : ResponseParser) (bytes : Bytes) (r : Returned)
      → IsWithin l p
      → feed p bytes ≡ some r
      → ReturnedWithin l r
  unfolding feed process_buffer step
  feed-IsWithin p bytes r (k, w) h =
      loop_inv (IsWithin l) (ReturnedWithin l) step (λ q v. step_at-StepWithin q.stage q refl v) _
        (record p { buffer = p.buffer ++ bytes })
        (k, buffer-StageWithin p.stage p (p.buffer ++ bytes) w) h

  -- If a parser satisfies the invariant of its stage, then after `finish_eof` its body is within
  -- `max_body_bytes`, and unless it returns an error the invariant holds.
  pub finish_eof-IsWithin : (p : ResponseParser) → IsWithin l p → ReturnedWithin l (finish_eof p)
  unfolding finish_eof
  finish_eof-IsWithin p w = finish_at-ReturnedWithin p.stage p refl w

-- A new parser satisfies the invariant, with its own limits.
pub new_parser-IsWithin : (m : Method) (l : ResponseLimits) → IsWithin l (new_parser m l)
new_parser-IsWithin m l = (refl, (refl, refl, refl))

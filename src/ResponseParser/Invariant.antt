-- ===== src/ResponseParser/Invariant.antt =====
-- The invariant of the parser, stage by stage, and that the case of the head keeps it.
use cpp_request.Base.{
  ℕ, ◌+◌, ◌≤◌, ◌≡◌, sym, true, false, not, ◌&&◌, ◌||◌, Option, none, some, [], arith, ◌==◌, Bytes,
  length, take, drop, is_empty,
}
use cpp_request.Error.{Result, ok, err}
use cpp_request.ResponseParser.State.{
  ResponseParser, Stage, reading_head, content_length_body, close_delimited_body, chunked_body,
  completed, Returned, ParserStep,
}
use cpp_request.ResponseParser.Head.{ParsedHead, parse_head}
use cpp_request.ResponseParser.Framing.{FramingInfo, analyze_framing}
use cpp_request.ResponseParser.Frame.{
  frame_reset_content, frame_body, frame_response, accept_head, framed_head, parsed_head,
}
use cpp_request.ResponseParser.Body.{step_head}
use mathlib.Core.Path.{subst}
use cpp_request.Limits.{ResponseLimits}
use cpp_request.Base.Loop.{After}
use cpp_request.Chunked.{new_decoder}
use cpp_request.Chunked.Bounds.{WithinLimits}
use cpp_request.ResponseParser.State.{ResponseParseProgress}

-- No content where none is allowed.
abbrev pub IsClean : ResponseParser → Type 0
IsClean p = (p.body_forbidden && not (is_empty p.response.body)) ≡ false

-- What holds in each stage.
abbrev pub StageWithin : ResponseLimits → Stage → ResponseParser → Type 0
StageWithin l reading_head p =
    (p.response.body ≡ []) × (p.chunked_decoder ≡ new_decoder l) × (p.body_forbidden ≡ false)
StageWithin l content_length_body p =
    (length p.response.body + p.content_length_remaining ≤ l.max_body_bytes)
    × (p.body_forbidden ≡ false)
StageWithin l close_delimited_body p = (length p.response.body ≤ l.max_body_bytes) × IsClean p
StageWithin l chunked_body p = WithinLimits l p.chunked_decoder p.response.body × IsClean p
StageWithin l completed p = (length p.response.body ≤ l.max_body_bytes) × IsClean p

abbrev pub IsWithin : ResponseLimits → ResponseParser → Type 0
IsWithin l p = (p.limits ≡ l) × StageWithin l p.stage p

-- What holds at a return: the invariant, or at an error the limit.
abbrev pub ResultWithin : ResponseLimits → ResponseParser → Result ResponseParseProgress → Type 0
ResultWithin l p (ok k) = IsWithin l p
ResultWithin l p (err e) = (p.limits ≡ l) × (length p.response.body ≤ l.max_body_bytes)

abbrev pub ReturnedWithin : ResponseLimits → Returned → Type 0
ReturnedWithin l r = ResultWithin l r.parser r.result

-- The parser behind a head, with the variables of its response.
abbrev stored : ResponseParser → ParsedHead → FramingInfo → ResponseParser
stored p h f = record p {
  response = record (p.response) {
    status_code = h.status_code;
    reason = h.reason;
    headers = h.headers;
  };
  connection_close_requested = f.connection_close_requested || h.status_code == 101;
}

abbrev pub StepWithin : ResponseLimits → ParserStep → Type 0
StepWithin l = After (IsWithin l) (ReturnedWithin l)

module _ (l : ResponseLimits) where
  frame_body-StepWithin :
      (p : ResponseParser) (f : FramingInfo)
      → p.limits ≡ l
      → StageWithin l reading_head p
      → StepWithin l (frame_body p f)
  unfolding frame_body
  frame_body-StepWithin p f k w = ground arith

  frame_reset_content-StepWithin :
      (p : ResponseParser) (f : FramingInfo)
      → p.limits ≡ l
      → p.response.body ≡ []
      → p.chunked_decoder ≡ new_decoder l
      → StepWithin l (frame_reset_content p f)
  unfolding frame_reset_content
  frame_reset_content-StepWithin p f k b d = ground arith

  frame_response-StepWithin :
      (p : ResponseParser) (f : FramingInfo)
      → p.limits ≡ l
      → StageWithin l reading_head p
      → StepWithin l (frame_response p f)
  unfolding frame_response
  frame_response-StepWithin p f k w = ground (
    arith,
    frame_body-StepWithin p f k w,
    frame_reset_content-StepWithin (record p { body_forbidden = true }) f k w.0 w.1,
  )

  accept_head-StepWithin :
      (p : ResponseParser) (h : ParsedHead) (f : FramingInfo)
      → p.limits ≡ l
      → p.stage ≡ reading_head
      → StageWithin l reading_head p
      → StepWithin l (accept_head p h f)
  unfolding accept_head
  accept_head-StepWithin p h f k e w = ground (
    arith,
    frame_response-StepWithin (stored p h f) f k w,
    subst (λ s. StageWithin l s p) (sym e) w,
  )

  framed_head-StepWithin :
      (p : ResponseParser) (h : ParsedHead) (r : Result FramingInfo)
      → p.limits ≡ l
      → p.stage ≡ reading_head
      → StageWithin l reading_head p
      → StepWithin l (framed_head p h r)
  unfolding framed_head
  framed_head-StepWithin p h (err x) k e w = ground arith
  framed_head-StepWithin p h (ok f) k e w = accept_head-StepWithin p h f k e w

  parsed_head-StepWithin :
      (p : ResponseParser) (after : Bytes) (r : Result ParsedHead)
      → p.limits ≡ l
      → p.stage ≡ reading_head
      → StageWithin l reading_head p
      → StepWithin l (parsed_head p after r)
  unfolding parsed_head
  parsed_head-StepWithin p after (err x) k e w = ground arith
  parsed_head-StepWithin p after (ok h) k e w =
      framed_head-StepWithin (record p { buffer = after }) h (analyze_framing h.headers) k e w

  pub step_head-StepWithin :
      (p : ResponseParser) (o : Option ℕ)
      → p.limits ≡ l
      → p.stage ≡ reading_head
      → StageWithin l reading_head p
      → StepWithin l (step_head p o)
  unfolding step_head
  step_head-StepWithin p none k e w = ground (arith, subst (λ s. StageWithin l s p) (sym e) w)
  step_head-StepWithin p (some i) k e w =
      ground (
        arith,
        parsed_head-StepWithin p (drop (i + 4) p.buffer) (parse_head (take i p.buffer)) k e w,
      )

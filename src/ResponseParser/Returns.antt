-- ===== src/ResponseParser/Returns.antt =====
-- The loop of `process_buffer` ends on every input.
use cpp_request.Base.{
  ℕ, ◌+◌, ◌≤◌, ◌<◌, ◌≡◌, refl, true, ◌||◌, Option, none, some, arith, ◌==◌, Bytes, length, take,
  drop, find, find-le, length-drop,
}
use cpp_request.Base.Loop.{loop_total, Descends}
use cpp_request.Error.{Result, ok, err}
use cpp_request.Chunked.{Processed}
use cpp_request.Chunked.Returns.{process-returns}
use cpp_request.ResponseParser.State.{
  ResponseParser, Stage, reading_head, content_length_body, close_delimited_body, chunked_body,
  completed, Returned,
}
use cpp_request.ResponseParser.Head.{ParsedHead, parse_head}
use cpp_request.ResponseParser.Framing.{FramingInfo, analyze_framing}
use cpp_request.ResponseParser.Frame.{
  frame_reset_content, frame_body, frame_response, accept_head, framed_head, parsed_head,
}
use cpp_request.ResponseParser.Body.{
  step_head, step_content_length_body, drain_buffer, step_close_delimited_body, decoded_body,
  step_chunked_body,
}
use cpp_request.ResponseParser.{crlf_crlf, step_at, step, measure, process_buffer, feed}

-- Whatever is decided behind a head, the buffer is not touched any more.
module _ (p : ResponseParser) (q : ResponseParser) (h : measure q < measure p) where
  frame_body-Descends : (f : FramingInfo) → Descends measure p (frame_body q f)
  unfolding frame_body
  frame_body-Descends f = ground arith

  frame_reset_content-Descends : (f : FramingInfo) → Descends measure p (frame_reset_content q f)
  unfolding frame_reset_content
  frame_reset_content-Descends f = ground arith

frame_response-Descends :
    (p q : ResponseParser) (f : FramingInfo)
    → measure q < measure p
    → Descends measure p (frame_response q f)
unfolding frame_response
frame_response-Descends p q f h = ground (
  arith,
  frame_body-Descends p q h f,
  frame_reset_content-Descends p (record q { body_forbidden = true }) h f,
)

abbrev stored : ResponseParser → ParsedHead → FramingInfo → ResponseParser
stored p h f = record p {
  response = record (p.response) {
    status_code = h.status_code;
    reason = h.reason;
    headers = h.headers;
  };
  connection_close_requested = f.connection_close_requested || h.status_code == 101;
}

accept_head-Descends :
    (p q : ResponseParser) (h : ParsedHead) (f : FramingInfo)
    → measure q < measure p
    → Descends measure p (accept_head q h f)
unfolding accept_head
accept_head-Descends p q h f lt = ground (arith, frame_response-Descends p (stored q h f) f lt)

framed_head-Descends :
    (p q : ResponseParser) (h : ParsedHead) (r : Result FramingInfo)
    → measure q < measure p
    → Descends measure p (framed_head q h r)
unfolding framed_head
framed_head-Descends p q h (err e) lt = tt
framed_head-Descends p q h (ok f) lt = accept_head-Descends p q h f lt

parsed_head-Descends :
    (p : ResponseParser) (after : Bytes) (r : Result ParsedHead)
    → length after < length p.buffer
    → Descends measure p (parsed_head p after r)
unfolding parsed_head
parsed_head-Descends p after (err e) lt = tt
parsed_head-Descends p after (ok h) lt =
    framed_head-Descends p (record p { buffer = after }) h (analyze_framing h.headers) lt

step_head-Descends :
    (p : ResponseParser) (o : Option ℕ)
    → find crlf_crlf p.buffer ≡ o
    → Descends measure p (step_head p o)
unfolding step_head
step_head-Descends p none e = ground arith
step_head-Descends p (some i) e =
    let bound : i + 4 ≤ length p.buffer = find-le crlf_crlf p.buffer i e in
    let shorter : length (drop (i + 4) p.buffer) < length p.buffer =
      omega (arith, length-drop (i + 4) p.buffer) in
    ground
      (arith, parsed_head-Descends p (drop (i + 4) p.buffer) (parse_head (take i p.buffer)) shorter)

decoded_body-Descends :
    (p q : ResponseParser) (d : Processed) → Descends measure p (decoded_body q d.result)
unfolding decoded_body
decoded_body-Descends p q d = ground arith

step_chunked_body-Descends :
    (p : ResponseParser) (o : Option Processed)
    → (d : Processed) × (o ≡ some d)
    → Descends measure p (step_chunked_body p o)
unfolding step_chunked_body
step_chunked_body-Descends p none (d, e) = cc
step_chunked_body-Descends p (some d) e = decoded_body-Descends p _ d

step_at-Descends : (s : Stage) (p : ResponseParser) → Descends measure p (step_at s p)
unfolding step_at step_content_length_body step_close_delimited_body
step_at-Descends reading_head p = step_head-Descends p (find crlf_crlf p.buffer) refl
step_at-Descends content_length_body p = ground arith
step_at-Descends close_delimited_body p = ground (arith, drain_buffer p)
step_at-Descends chunked_body p =
    step_chunked_body-Descends p _ (process-returns p.chunked_decoder p.buffer p.response.body)
step_at-Descends completed p = tt

pub step-Descends : (p : ResponseParser) → Descends measure p (step p)
unfolding step
step-Descends p = step_at-Descends p.stage p

-- `feed` returns for every parser and every piece of input: the loop of `process_buffer` does not
-- run for ever, and the chunk decoder that it calls returns too.
pub feed-returns : (p : ResponseParser) (bytes : Bytes) → (r : Returned) × (feed p bytes ≡ some r)
unfolding feed process_buffer
feed-returns p bytes =
    loop_total (λ _. Unit {0}) measure step (λ s _. step-Descends s) (λ _ _ _ _. tt) _ _ tt
      (omega arith)

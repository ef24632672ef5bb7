-- ===== src/ResponseParser/Unambiguous.antt =====
-- The end of a body is never told in two ways: what the header fields of a response say of it.
use cpp_request.Base.{
  ℕ, ◌+◌, ◌≤◌, ◌<◌, ◌≡◌, refl, sym, true, ◌||◌, Option, none, some, ◌++◌, arith, ◌==◌, Bytes, drop,
  take, find,
}
use mathlib.Core.Path.{subst}
use cpp_request.Base.Loop.{After, loop_inv}
use cpp_request.Error.{Result, ok, err}
use cpp_request.Chunked.{Processed, process, ChunkDecodeProgress}
use cpp_request.Chunked
use cpp_request.ResponseParser.State.{
  ResponseParser, ResponseParseProgress, ParserStep, Stage, reading_head, content_length_body,
  close_delimited_body, chunked_body, completed, Returned,
}
use cpp_request.ResponseParser.Head.{ParsedHead, parse_head}
use cpp_request.ResponseParser.Framing.{FramingInfo, analyze_framing}
use cpp_request.ResponseParser.Frame.{
  frame_reset_content, frame_body, frame_response, accept_head, framed_head, parsed_head,
}
use cpp_request.ResponseParser.Body.{
  step_head, copy_body, step_content_length_body, drain_buffer, step_close_delimited_body,
  decoded_body, step_chunked_body,
}
use cpp_request.ResponseParser.FramingCounts.{
  lengths, codings, IsCounted, analyze_framing-IsCounted,
}
use cpp_request.ResponseParser.{crlf_crlf, step_at, step, process_buffer, feed}

-- How many fields give a length and how many a coding, in each stage.
abbrev pub StageFramed : Stage → ℕ → ℕ → Type 0
StageFramed reading_head length_count coding_count = Unit {0}
StageFramed content_length_body length_count coding_count = (length_count ≡ 1) × (coding_count ≡ 0)
StageFramed close_delimited_body length_count coding_count = (length_count ≡ 0) × (coding_count ≡ 0)
StageFramed chunked_body length_count coding_count = (length_count ≡ 0) × (0 < coding_count)
StageFramed completed length_count coding_count =
    (length_count ≤ 1) × ((length_count == 0 || coding_count == 0) ≡ true)

abbrev pub IsFramed : ResponseParser → Type 0
IsFramed p = StageFramed p.stage (lengths p.response.headers) (codings p.response.headers)

abbrev pub ResultFramed : ResponseParser → Result ResponseParseProgress → Type 0
ResultFramed p (ok k) = IsFramed p
ResultFramed p (err e) = Unit {0}

abbrev pub ReturnedFramed : Returned → Type 0
ReturnedFramed r = ResultFramed r.parser r.result

abbrev StepFramed : ParserStep → Type 0
StepFramed = After IsFramed ReturnedFramed

reading-Framed : (p : ResponseParser) → p.stage ≡ reading_head → IsFramed p
reading-Framed p e =
    subst (λ s. StageFramed s (lengths p.response.headers) (codings p.response.headers)) (sym e) tt

frame_body-StepFramed :
    (p : ResponseParser) (f : FramingInfo)
    → IsCounted f p.response.headers
    → (f.transfer_encoding_fields == 0 || f.content_length_count == 0) ≡ true
    → StepFramed (frame_body p f)
unfolding frame_body
frame_body-StepFramed p f c u = ground arith

frame_reset_content-StepFramed :
    (p : ResponseParser) (f : FramingInfo)
    → IsCounted f p.response.headers
    → (f.transfer_encoding_fields == 0 || f.content_length_count == 0) ≡ true
    → StepFramed (frame_reset_content p f)
unfolding frame_reset_content
frame_reset_content-StepFramed p f c u = ground arith

frame_response-StepFramed :
    (p : ResponseParser) (f : FramingInfo)
    → IsCounted f p.response.headers
    → StepFramed (frame_response p f)
unfolding frame_response
frame_response-StepFramed p f c = ground (
  arith,
  frame_body-StepFramed p f c,
  frame_reset_content-StepFramed (record p { body_forbidden = true }) f c,
)

accept_head-StepFramed :
    (p : ResponseParser) (h : ParsedHead) (f : FramingInfo)
    → p.stage ≡ reading_head
    → IsCounted f h.headers
    → StepFramed (accept_head p h f)
unfolding accept_head
accept_head-StepFramed p h f e c = ground (
  arith,
  frame_response-StepFramed
      (record p {
        response = record (p.response) {
          status_code = h.status_code;
          reason = h.reason;
          headers = h.headers;
        };
        connection_close_requested = f.connection_close_requested || h.status_code == 101;
      })
      f c,
  reading-Framed p e,
)

framed_head-StepFramed :
    (p : ResponseParser) (h : ParsedHead) (r : Result FramingInfo)
    → p.stage ≡ reading_head
    → analyze_framing h.headers ≡ r
    → StepFramed (framed_head p h r)
unfolding framed_head
framed_head-StepFramed p h (err x) e a = tt
framed_head-StepFramed p h (ok f) e a =
    accept_head-StepFramed p h f e (analyze_framing-IsCounted f h.headers a)

parsed_head-StepFramed :
    (p : ResponseParser) (after : Bytes) (r : Result ParsedHead)
    → p.stage ≡ reading_head
    → StepFramed (parsed_head p after r)
unfolding parsed_head
parsed_head-StepFramed p after (err x) e = tt
parsed_head-StepFramed p after (ok h) e =
    framed_head-StepFramed (record p { buffer = after }) h (analyze_framing h.headers) e refl

step_head-StepFramed :
    (p : ResponseParser) (o : Option ℕ) → p.stage ≡ reading_head → StepFramed (step_head p o)
unfolding step_head
step_head-StepFramed p none e = ground (arith, reading-Framed p e)
step_head-StepFramed p (some i) e =
    ground
      (arith, parsed_head-StepFramed p (drop (i + 4) p.buffer) (parse_head (take i p.buffer)) e)

decoded_body-StepFramed :
    (p : ResponseParser) (r : Result ChunkDecodeProgress)
    → p.stage ≡ chunked_body
    → StageFramed chunked_body (lengths p.response.headers) (codings p.response.headers)
    → StepFramed (decoded_body p r)
unfolding decoded_body
decoded_body-StepFramed p (err x) e w = tt
decoded_body-StepFramed p (ok Chunked.ChunkDecodeProgress.need_more) e w = ground (
  arith,
  subst (λ s. StageFramed s (lengths p.response.headers) (codings p.response.headers)) (sym e) w,
)
decoded_body-StepFramed p (ok Chunked.ChunkDecodeProgress.complete) e w = ground arith

step_chunked_body-StepFramed :
    (p : ResponseParser) (o : Option Processed)
    → p.stage ≡ chunked_body
    → StageFramed chunked_body (lengths p.response.headers) (codings p.response.headers)
    → StepFramed (step_chunked_body p o)
unfolding step_chunked_body
step_chunked_body-StepFramed p none e w = tt
step_chunked_body-StepFramed p (some d) e w =
    decoded_body-StepFramed
      (record p {
        chunked_decoder = d.decoder;
        buffer = d.input;
        response = record (p.response) { body = d.output };
      })
      d.result e w

step_close_delimited_body-StepFramed :
    (p : ResponseParser) → IsFramed p → StepFramed (step_close_delimited_body p (drain_buffer p))
unfolding step_close_delimited_body drain_buffer
step_close_delimited_body-StepFramed p w = ground arith

step_content_length_body-StepFramed :
    (p : ResponseParser)
    → p.stage ≡ content_length_body
    → StageFramed content_length_body (lengths p.response.headers) (codings p.response.headers)
    → StepFramed (step_content_length_body p)
unfolding step_content_length_body copy_body
step_content_length_body-StepFramed p e w = ground (
  arith,
  subst (λ s. StageFramed s (lengths p.response.headers) (codings p.response.headers)) (sym e) w,
)

step_at-StepFramed :
    (s : Stage) (p : ResponseParser) → p.stage ≡ s → IsFramed p → StepFramed (step_at s p)
unfolding step_at
step_at-StepFramed reading_head p e w = step_head-StepFramed p (find crlf_crlf p.buffer) e
step_at-StepFramed content_length_body p e w =
    step_content_length_body-StepFramed p e
      (subst (λ s. StageFramed s (lengths p.response.headers) (codings p.response.headers)) e w)
step_at-StepFramed close_delimited_body p e w = step_close_delimited_body-StepFramed p w
step_at-StepFramed chunked_body p e w =
    step_chunked_body-StepFramed p (process p.chunked_decoder p.buffer p.response.body) e
      (subst (λ s. StageFramed s (lengths p.response.headers) (codings p.response.headers)) e w)
step_at-StepFramed completed p e w = w

-- The end of a body is told in one way only. If it is so for a parser, and `feed` returns no error,
-- it is so afterwards: a body of a given length has one `Content-Length` field and no
-- `Transfer-Encoding`, a chunked one has `Transfer-Encoding` and no `Content-Length`, one that
-- ends with the connection has neither, and a message that is complete has not both and never two
-- lengths, under any spelling of the names.
pub feed-ReturnedFramed :
    (p : ResponseParser) (bytes : Bytes) (r : Returned)
    → IsFramed p
    → feed p bytes ≡ some r
    → ReturnedFramed r
unfolding feed process_buffer step
feed-ReturnedFramed p bytes r w h =
    loop_inv IsFramed ReturnedFramed step (λ q v. step_at-StepFramed q.stage q refl v) _
      (record p { buffer = p.buffer ++ bytes }) w h

-- ===== src/ResponseParser/Reuse.antt =====
-- When a connection may serve another request: what `connection_reusable` says after a message.
use cpp_request.Base.{
  ℕ, ◌+◌, ◌≡◌, refl, sym, true, ◌||◌, Option, none, some, ◌++◌, arith, ◌==◌, Bytes, drop, take,
  find, Bool, false, not,
}
use mathlib.Core.Path.{subst}
use cpp_request.Base.Loop.{After, loop_inv}
use cpp_request.Error.{Result, ok, err}
use cpp_request.Chunked.{Processed, process, ChunkDecodeProgress}
use cpp_request.ResponseParser.State.{
  ResponseParser, ResponseParseProgress, ParserStep, Stage, reading_head, content_length_body,
  close_delimited_body, chunked_body, completed, Returned,
}
use cpp_request.ResponseParser.Head.{ParsedHead, parse_head}
use cpp_request.ResponseParser.Framing.{FramingInfo, analyze_framing}
use cpp_request.ResponseParser.Frame.{
  frame_reset_content, frame_body, frame_response, accept_head, framed_head, parsed_head,
}
use cpp_request.ResponseParser.Body.{
  step_head, copy_body, step_content_length_body, drain_buffer, step_close_delimited_body,
  decoded_body, step_chunked_body,
}
use cpp_request.ResponseParser.{
  crlf_crlf, step_at, step, process_buffer, feed, connection_reusable, is_complete,
}
use cpp_request.Client.{wants_connection_close}
use cpp_request.Chunked
use cpp_request.ResponseParser.CloseRequests.{analyze_framing-noted}

-- Whether the response asks for the end of the connection.
abbrev pub asks_to_close : ResponseParser → Bool
asks_to_close p = wants_connection_close p.response.headers || p.response.status_code == 101

-- In each stage: the flag of a body that ends with the connection, the flag of the request to
-- close, and that request.
abbrev pub StageKept : Stage → Bool → Bool → Bool → Type 0
StageKept reading_head delimited requested asks = delimited ≡ false
StageKept close_delimited_body delimited requested asks = requested ≡ asks
StageKept content_length_body delimited requested asks = (delimited ≡ false) × (requested ≡ asks)
StageKept chunked_body delimited requested asks = (delimited ≡ false) × (requested ≡ asks)
StageKept completed delimited requested asks = (delimited ≡ false) × (requested ≡ asks)

abbrev pub KeptIn : Stage → ResponseParser → Type 0
KeptIn s p = StageKept s p.close_delimited p.connection_close_requested (asks_to_close p)

abbrev pub IsKept : ResponseParser → Type 0
IsKept p = KeptIn p.stage p

abbrev pub ResultKept : ResponseParser → Result ResponseParseProgress → Type 0
ResultKept p (ok ResponseParseProgress.need_more) = IsKept p
ResultKept p (ok ResponseParseProgress.complete) = (p.stage ≡ completed) × KeptIn completed p
ResultKept p (err e) = Unit {0}

abbrev ReturnedKept : Returned → Type 0
ReturnedKept r = ResultKept r.parser r.result

abbrev StepKept : ParserStep → Type 0
StepKept = After IsKept ReturnedKept

frame_body-StepKept :
    (p : ResponseParser) (f : FramingInfo) → KeptIn completed p → StepKept (frame_body p f)
unfolding frame_body
frame_body-StepKept p f w = ground arith

frame_reset_content-StepKept :
    (p : ResponseParser) (f : FramingInfo) → KeptIn completed p → StepKept (frame_reset_content p f)
unfolding frame_reset_content
frame_reset_content-StepKept p f w = ground arith

frame_response-StepKept :
    (p : ResponseParser) (f : FramingInfo) → KeptIn completed p → StepKept (frame_response p f)
unfolding frame_response
frame_response-StepKept p f w = ground (
  arith,
  frame_body-StepKept p f w,
  frame_reset_content-StepKept (record p { body_forbidden = true }) f w,
)

accept_head-StepKept :
    (p : ResponseParser) (h : ParsedHead) (f : FramingInfo)
    → p.stage ≡ reading_head
    → p.close_delimited ≡ false
    → f.connection_close_requested ≡ wants_connection_close h.headers
    → StepKept (accept_head p h f)
unfolding accept_head
accept_head-StepKept p h f e c n = ground (
  arith,
  frame_response-StepKept
      (record p {
        response = record (p.response) {
          status_code = h.status_code;
          reason = h.reason;
          headers = h.headers;
        };
        connection_close_requested = f.connection_close_requested || h.status_code == 101;
      })
      f,
  subst (λ s. KeptIn s p) (sym e) c,
)

framed_head-StepKept :
    (p : ResponseParser) (h : ParsedHead) (r : Result FramingInfo)
    → p.stage ≡ reading_head
    → p.close_delimited ≡ false
    → analyze_framing h.headers ≡ r
    → StepKept (framed_head p h r)
unfolding framed_head
framed_head-StepKept p h (err x) e c a = tt
framed_head-StepKept p h (ok f) e c a =
    accept_head-StepKept p h f e c (analyze_framing-noted f h.headers a)

parsed_head-StepKept :
    (p : ResponseParser) (after : Bytes) (r : Result ParsedHead)
    → p.stage ≡ reading_head
    → p.close_delimited ≡ false
    → StepKept (parsed_head p after r)
unfolding parsed_head
parsed_head-StepKept p after (err x) e c = tt
parsed_head-StepKept p after (ok h) e c =
    framed_head-StepKept (record p { buffer = after }) h (analyze_framing h.headers) e c refl

step_head-StepKept :
    (p : ResponseParser) (o : Option ℕ)
    → p.stage ≡ reading_head
    → p.close_delimited ≡ false
    → StepKept (step_head p o)
unfolding step_head
step_head-StepKept p none e c = ground (arith, subst (λ s. KeptIn s p) (sym e) c)
step_head-StepKept p (some i) e c =
    ground
      (arith, parsed_head-StepKept p (drop (i + 4) p.buffer) (parse_head (take i p.buffer)) e c)

decoded_body-StepKept :
    (p : ResponseParser) (r : Result ChunkDecodeProgress)
    → p.stage ≡ chunked_body
    → KeptIn chunked_body p
    → StepKept (decoded_body p r)
unfolding decoded_body
decoded_body-StepKept p (err x) e w = tt
decoded_body-StepKept p (ok Chunked.ChunkDecodeProgress.need_more) e w =
    ground (arith, subst (λ s. KeptIn s p) (sym e) w)
decoded_body-StepKept p (ok Chunked.ChunkDecodeProgress.complete) e w = ground arith

step_chunked_body-StepKept :
    (p : ResponseParser) (o : Option Processed)
    → p.stage ≡ chunked_body
    → KeptIn chunked_body p
    → StepKept (step_chunked_body p o)
unfolding step_chunked_body
step_chunked_body-StepKept p none e w = tt
step_chunked_body-StepKept p (some d) e w =
    decoded_body-StepKept
      (record p {
        chunked_decoder = d.decoder;
        buffer = d.input;
        response = record (p.response) { body = d.output };
      })
      d.result e w

step_close_delimited_body-StepKept :
    (p : ResponseParser)
    → p.stage ≡ close_delimited_body
    → KeptIn close_delimited_body p
    → StepKept (step_close_delimited_body p (drain_buffer p))
unfolding step_close_delimited_body drain_buffer
step_close_delimited_body-StepKept p e w = ground (arith, subst (λ s. KeptIn s p) (sym e) w)

step_content_length_body-StepKept :
    (p : ResponseParser)
    → p.stage ≡ content_length_body
    → KeptIn content_length_body p
    → StepKept (step_content_length_body p)
unfolding step_content_length_body copy_body
step_content_length_body-StepKept p e w = ground (arith, subst (λ s. KeptIn s p) (sym e) w)

step_at-StepKept :
    (s : Stage) (p : ResponseParser) → p.stage ≡ s → KeptIn s p → StepKept (step_at s p)
unfolding step_at
step_at-StepKept reading_head p e w = step_head-StepKept p (find crlf_crlf p.buffer) e w
step_at-StepKept content_length_body p e w = step_content_length_body-StepKept p e w
step_at-StepKept close_delimited_body p e w = step_close_delimited_body-StepKept p e w
step_at-StepKept chunked_body p e w =
    step_chunked_body-StepKept p (process p.chunked_decoder p.buffer p.response.body) e w
step_at-StepKept completed p e w = (e, w)

pub feed-ResultKept :
    (p : ResponseParser) (bytes : Bytes) (r : Returned)
    → IsKept p
    → feed p bytes ≡ some r
    → ReturnedKept r
unfolding feed process_buffer step
feed-ResultKept p bytes r w h =
    loop_inv IsKept ReturnedKept step (λ q v. step_at-StepKept q.stage q refl v) _
      (record p { buffer = p.buffer ++ bytes }) w h

completed-reusable :
    (p : ResponseParser)
    → p.stage ≡ completed
    → KeptIn completed p
    → connection_reusable p ≡ not (asks_to_close p)
unfolding connection_reusable is_complete
completed-reusable p e w = rw e (ground arith)

-- If `feed` completes a message, for a parser whose flags fit its stage, then the connection may be
-- used again exactly if no `Connection` field of the response has the token `close`, as the client
-- reads them, and the status is not 101.
pub feed-reusable :
    (p q : ResponseParser) (bytes : Bytes)
    → IsKept p
    → feed p bytes ≡ some (record { parser = q; result = ok ResponseParseProgress.complete })
    → connection_reusable q
      ≡ not (wants_connection_close q.response.headers || q.response.status_code == 101)
feed-reusable p q bytes w h =
    let (e, k) =
      feed-ResultKept p bytes (record { parser = q; result = ok ResponseParseProgress.complete }) w
        h in
    completed-reusable q e k

-- What `feed` keeps when it asks for more, so that the next call completes in the same way.
pub feed-IsKept :
    (p q : ResponseParser) (bytes : Bytes)
    → IsKept p
    → feed p bytes ≡ some (record { parser = q; result = ok ResponseParseProgress.need_more })
    → IsKept q
feed-IsKept p q bytes w h =
    feed-ResultKept p bytes (record { parser = q; result = ok ResponseParseProgress.need_more }) w h

-- ===== src/Chunked/Split.antt =====
-- A chunk-size line of the greatest length that the limit allows: whether the decoder takes it
-- depends on where the input is cut.
use cpp_request.Base.{
  ℕ, ◌+◌, ◌≤◌, ◌<◌, ◌≡◌, ap, ◌∙◌, false, some, [], ◌∷◌, ◌++◌, arith, Bytes, length, mem_byte,
  find_pending, find_end_of_line, length-append, take-append_length, append-nil, drop_all,
}
use native.Mathlib.Nat.{sub-zero}
use cpp_request.Base.Loop.{next, resume}
use cpp_request.Error.{ok, fail, response_limit_exceeded}
use cpp_request.Limits.{ResponseLimits, would_exceed_iff}
use cpp_request.Chunked.Line.{parse_chunk_size}
use cpp_request.Chunked.Returns.{run-step}
use cpp_request.Chunked.Copy.{copy_chunk_short, end_copy_waits}
use cpp_request.Chunked.{
  need_more, chunk_data, new_decoder, Cursor, crlf, measure, return_limit, return_progress,
  start_chunk, sized_chunk, step_size_line, step_chunk_data, step_at, step, run, process, processed,
}

abbrev at_start : ResponseLimits → Bytes → Bytes → Cursor
at_start l input output = record { decoder = new_decoder l; rest = input; output = output }

step_cut_line :
    (l : ResponseLimits) (line output : Bytes)
    → mem_byte b'\r' line ≡ false
    → length line ≡ l.max_chunk_line_bytes
    → step (at_start l (line ++ (b'\r' ∷ [])) output)
      ≡ return_limit (at_start l (line ++ (b'\r' ∷ [])) output)
unfolding step step_at step_size_line
step_cut_line l line output no_return longest =
    ground (arith, find_pending line no_return, length-append line (b'\r' ∷ []))

started : ResponseLimits → Bytes → ℕ → Cursor
started l output n = record {
  decoder = record (new_decoder l) { stage = chunk_data; chunk_remaining = n };
  rest = [];
  output = output;
}

step_whole_line :
    (l : ResponseLimits) (line output : Bytes) (n : ℕ)
    → mem_byte b'\r' line ≡ false
    → length line ≡ l.max_chunk_line_bytes
    → parse_chunk_size line ≡ ok n
    → 0 < n
    → length output + n ≤ l.max_body_bytes
    → step (at_start l (line ++ crlf) output) ≡ next (started l output n)
unfolding step step_at step_size_line sized_chunk start_chunk started
step_whole_line l line output n no_return longest size pos fits =
    rw
      (
        find_end_of_line line [] no_return,
        take-append_length line crlf,
        size,
        drop_all (length line + 2) (line ++ crlf) (omega (arith, length-append line crlf)),
      )
      (ground (arith, would_exceed_iff (length output) n l.max_body_bytes))

step-started :
    (l : ResponseLimits) (output : Bytes) (n : ℕ)
    → 0 < n
    → step (started l output n) ≡ return_progress (started l output n) need_more
unfolding step step_at step_chunk_data started
step-started l output n pos =
    rw (copy_chunk_short (started l output n) (omega arith), sub-zero, append-nil)
      (end_copy_waits (started l output n) pos)

-- A chunk-size line of exactly `max_chunk_line_bytes` bytes, with a size that is allowed: with its
-- CRLF it is taken, and the decoder waits for the chunk; with its carriage return alone, when the
-- line feed is still to come, it is refused as too long. The result depends on where the input
-- is cut.
pub process-cut_line :
    (l : ResponseLimits) (line output : Bytes) (n : ℕ)
    → mem_byte b'\r' line ≡ false
    → length line ≡ l.max_chunk_line_bytes
    → parse_chunk_size line ≡ ok n
    → 0 < n
    → length output + n ≤ l.max_body_bytes
    → (process (new_decoder l) (line ++ crlf) output
        ≡ some (record {
          decoder = record (new_decoder l) { stage = chunk_data; chunk_remaining = n };
          input = [];
          output = output;
          result = ok need_more;
        }))
      × (process (new_decoder l) (line ++ (b'\r' ∷ [])) output
          ≡ some (record {
            decoder = new_decoder l;
            input = line ++ (b'\r' ∷ []);
            output = output;
            result = fail response_limit_exceeded;
          }))
unfolding process started run
process-cut_line l line output n no_return longest size pos fits = (
  ap (processed (line ++ crlf)) (
      run-step (at_start l (line ++ crlf) output)
      ∙ ap (resume measure step) (step_whole_line l line output n no_return longest size pos fits)
      ∙ (run-step (started l output n) ∙ ap (resume measure step) (step-started l output n pos))),
  ap (processed (line ++ (b'\r' ∷ []))) (
      run-step (at_start l (line ++ (b'\r' ∷ [])) output)
      ∙ ap (resume measure step) (step_cut_line l line output no_return longest)),
)

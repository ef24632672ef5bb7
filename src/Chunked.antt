-- ===== src/Chunked.antt =====
-- src/http/chunked_decoder.hpp and src/http/chunked_decoder.cpp: the incremental decoder of
-- `Transfer-Encoding: chunked`. The cursor into `input` is kept as the text from the cursor on, and
-- the loop of `process` as a step function under `loop`.
pub mod Extensions
pub mod Line
pub mod Returns
pub mod Bounds
mod Copy
mod Extends
pub mod Resume
pub mod Split
use cpp_request.Base.{
  ℕ, ◌+◌, ◌-◌, ◌*◌, ◌≡◌, Bool, true, false, not, ◌&&◌, ◌||◌, Option, none, some, List, [], ◌∷◌,
  ◌++◌, min, ltb, ◌==◌, if◌then◌else◌, Bytes, length, is_empty, take, drop, find,
}
use cpp_request.Base.Loop.{Step, next, stop, loop}
use cpp_request.Error.{
  Error, Result, ok, err, fail, response_limit_exceeded, invalid_chunk_framing, invalid_header,
}
use cpp_request.Limits.{ResponseLimits, would_exceed}
use Line.{parse_chunk_size, valid_trailer_line}

pub data ChunkDecodeProgress : Type 0 where
  need_more complete : ChunkDecodeProgress

pub data Stage : Type 0 where
  size_line chunk_data data_crlf trailers completed : Stage

pub record ChunkedDecoder : Type 0 where
  pub limits : ResponseLimits
  pub stage : Stage
  pub chunk_remaining : ℕ
  pub trailer_bytes_seen : ℕ

-- The constructor.
abbrev pub new_decoder : ResponseLimits → ChunkedDecoder
new_decoder limits = record {
  limits = limits;
  stage = size_line;
  chunk_remaining = 0;
  trailer_bytes_seen = 0;
}

-- The variables of the loop: the decoder, the input from the cursor on, and the output.
pub record Cursor : Type 0 where
  pub decoder : ChunkedDecoder
  pub rest : Bytes
  pub output : Bytes

-- A `return`: the variables at that point, and the result.
pub record Returned : Type 0 where
  pub cursor : Cursor
  pub result : Result ChunkDecodeProgress

abbrev pub DecodeStep : Type 0
DecodeStep = Step Cursor Returned

abbrev pub return_error : Cursor → Error → DecodeStep
return_error c e = stop (record { cursor = c; result = err e })

abbrev pub return_limit : Cursor → DecodeStep
return_limit c = stop (record { cursor = c; result = fail response_limit_exceeded })

abbrev pub return_progress : Cursor → ChunkDecodeProgress → DecodeStep
return_progress c p = stop (record { cursor = c; result = ok p })

abbrev pub crlf : Bytes
crlf = b'\r' ∷ b'\n' ∷ []

-- `cursor = line_end + 2; chunk_remaining_ = size; stage_ = …; continue;`
unfoldable pub start_chunk : Cursor → Bytes → ℕ → DecodeStep
start_chunk c after size =
    if not (size == 0) && would_exceed (length c.output) size c.decoder.limits.max_body_bytes
    then return_limit c
    else next (record c {
      rest = after;
      decoder = record (c.decoder) {
        chunk_remaining = size;
        stage = if size == 0 then trailers else chunk_data;
      };
    })

-- `if (!size) return size.error();`, and the rest of the case.
unfoldable pub sized_chunk : Cursor → Bytes → Result ℕ → DecodeStep
sized_chunk c after (err e) = return_error c e
sized_chunk c after (ok size) = start_chunk c after size

-- `case Stage::SizeLine`, by the end of the line.
unfoldable pub step_size_line : Cursor → Option ℕ → DecodeStep
step_size_line c none =
    if ltb c.decoder.limits.max_chunk_line_bytes (length c.rest)
    then return_limit c
    else return_progress c need_more
step_size_line c (some line_end) =
    if ltb c.decoder.limits.max_chunk_line_bytes line_end
    then return_limit c
    else sized_chunk c (drop (line_end + 2) c.rest) (parse_chunk_size (take line_end c.rest))

-- The copy of what is there of the chunk; to copy nothing changes nothing.
unfoldable pub copy_chunk : Cursor → Cursor
copy_chunk c =
    let amount = min c.decoder.chunk_remaining (length c.rest) in
    record c {
      output = c.output ++ take amount c.rest;
      rest = drop amount c.rest;
      decoder = record (c.decoder) { chunk_remaining = c.decoder.chunk_remaining - amount };
    }

-- The rest of the case.
unfoldable pub end_copy : Cursor → DecodeStep
end_copy c =
    if not (c.decoder.chunk_remaining == 0)
    then return_progress c need_more
    else next (record c { decoder = record (c.decoder) { stage = data_crlf } })

-- `case Stage::Data`.
unfoldable pub step_chunk_data : Cursor → DecodeStep
step_chunk_data c = end_copy (copy_chunk c)

-- `case Stage::DataCrlf`, by the bytes at the cursor.
unfoldable pub step_data_crlf : Cursor → Bytes → DecodeStep
step_data_crlf c [] = return_progress c need_more
step_data_crlf c (a ∷ []) = return_progress c need_more
step_data_crlf c (a ∷ b ∷ after) =
    if not (a == b'\r') || not (b == b'\n')
    then stop (record { cursor = c; result = fail invalid_chunk_framing })
    else next (record c { rest = after; decoder = record (c.decoder) { stage = size_line } })

-- A whole trailer line, behind the count of its bytes.
unfoldable pub end_trailer_line : Cursor → Bytes → DecodeStep
end_trailer_line c line =
    if is_empty line
    then return_progress (record c { decoder = record (c.decoder) { stage = completed } }) complete
    else if not (valid_trailer_line line)
    then stop (record { cursor = c; result = fail invalid_header })
    else next c

-- `case Stage::Trailers`, by the end of the line.
unfoldable pub step_trailers : Cursor → Option ℕ → DecodeStep
step_trailers c none =
    if would_exceed c.decoder.trailer_bytes_seen (length c.rest) c.decoder.limits.max_trailer_bytes
    then return_limit c
    else return_progress c need_more
step_trailers c (some line_end) =
    let line_bytes = line_end + 2 in
    let seen = c.decoder.trailer_bytes_seen + line_bytes in
    if would_exceed c.decoder.trailer_bytes_seen line_bytes c.decoder.limits.max_trailer_bytes
    then return_limit c
    else end_trailer_line
        (record c {
          rest = drop (line_end + 2) c.rest;
          decoder = record (c.decoder) { trailer_bytes_seen = seen };
        })
        (take line_end c.rest)

-- `switch (stage_)`.
unfoldable pub step_at : Stage → Cursor → DecodeStep
step_at size_line c = step_size_line c (find crlf c.rest)
step_at chunk_data c = step_chunk_data c
step_at data_crlf c = step_data_crlf c c.rest
step_at trailers c = step_trailers c (find crlf c.rest)
step_at completed c = return_progress c complete

unfoldable pub step : Cursor → DecodeStep
step c = step_at c.decoder.stage c

-- Every round but the one from the data to its CRLF drops a byte of the input.
abbrev pub stage_rank : Stage → ℕ
stage_rank chunk_data = 1
stage_rank _ = 0

abbrev pub measure : Cursor → ℕ
measure c = 2 * length c.rest + stage_rank c.decoder.stage

unfoldable pub run : Cursor → Option Returned
run c = loop (measure c + 1) step c

-- What a call of `process` leaves behind. The prefix that was read is erased from the input before
-- each successful return, and stays on an error.
pub record Processed : Type 0 where
  pub decoder : ChunkedDecoder
  pub input : Bytes
  pub output : Bytes
  pub result : Result ChunkDecodeProgress

abbrev pub erase_prefix : Bytes → Returned → Processed
erase_prefix input r = record {
  decoder = r.cursor.decoder;
  input = elim r.result [ ok _ ↦ r.cursor.rest | err _ ↦ input ];
  output = r.cursor.output;
  result = r.result;
}

abbrev pub processed : Bytes → Option Returned → Option Processed
processed input none = none
processed input (some r) = some (erase_prefix input r)

unfoldable pub process : ChunkedDecoder → Bytes → Bytes → Option Processed
process d input output =
    processed input (run (record { decoder = d; rest = input; output = output }))

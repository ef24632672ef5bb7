-- ===== src/Tests/Decoder.antt =====
-- The chunk decoder on a message of two chunks, cut in the middle of the first one.
use cpp_request.Base.{
  ◌+◌, ◌≡◌, refl, arith, Bool, false, some, [], ◌∷◌, ◌++◌, Bytes, codes, find, find_byte,
  starts_with, mem_byte, length,
}
use cpp_request.Base.Loop.{loop}
use cpp_request.Error.{ok, fail, response_limit_exceeded}
use cpp_request.Ascii.{is_ows}
use cpp_request.Scan.{digit_value, digit, scan_digits, from_chars, parse_number, trim_back}
use cpp_request.Limits.{ResponseLimits, would_exceed}
use cpp_request.Chunked.{
  need_more, complete, chunk_data, completed, new_decoder, Processed, crlf, start_chunk,
  sized_chunk, step_size_line, copy_chunk, end_copy, step_chunk_data, step_data_crlf,
  end_trailer_line, step_trailers, step_at, step, run, process,
}
use cpp_request.Chunked.Line.{parse_chunk_size}
use cpp_request.Chunked.Extensions.{extension_step, extension_loop-returns}
use cpp_request.Chunked.Returns.{process-returns}
use cpp_request.Chunked.Bounds.{WithinLimits, process-WithinLimits}
use cpp_request.Chunked.Resume.{SameDecoding, process-append, process-append_complete}
use cpp_request.Chunked.Split.{process-cut_line}

abbrev line_end : Bytes
line_end = crlf

abbrev limits : ResponseLimits
limits = record {
  max_head_bytes = 64;
  max_body_bytes = 16;
  max_chunk_line_bytes = 4;
  max_trailer_bytes = 32;
}

abbrev first_piece : Bytes
first_piece = codes "4" ++ (line_end ++ codes "ab")

abbrev second_piece : Bytes
second_piece = codes "cd" ++ (line_end ++ (codes "0" ++ (line_end ++ line_end)))

abbrev after_first : Processed
after_first = record {
  decoder = record (new_decoder limits) { stage = chunk_data; chunk_remaining = 2 };
  input = [];
  output = codes "ab";
  result = ok need_more;
}

abbrev after_both : Processed
after_both = record {
  decoder = record (new_decoder limits) { stage = completed; trailer_bytes_seen = 2 };
  input = [];
  output = codes "abcd";
  result = ok complete;
}

first_call : process (new_decoder limits) first_piece [] ≡ some after_first
unfolding process run loop step step_at step_size_line sized_chunk start_chunk parse_chunk_size find
    find_byte starts_with trim_back parse_number from_chars scan_digits digit digit_value
    would_exceed step_chunk_data copy_chunk end_copy is_ows
first_call = refl

second_call :
    process after_first.decoder (after_first.input ++ second_piece) (codes "ab") ≡ some after_both
unfolding process run loop step step_at step_size_line sized_chunk start_chunk parse_chunk_size find
    find_byte starts_with trim_back parse_number from_chars scan_digits digit digit_value
    would_exceed step_chunk_data copy_chunk end_copy step_data_crlf step_trailers end_trailer_line
    is_ows
second_call = refl

one_call : process (new_decoder limits) (first_piece ++ second_piece) [] ≡ some after_both
unfolding process run loop step step_at step_size_line sized_chunk start_chunk parse_chunk_size find
    find_byte starts_with trim_back parse_number from_chars scan_digits digit digit_value
    would_exceed step_chunk_data copy_chunk end_copy step_data_crlf step_trailers end_trailer_line
    is_ows
one_call = refl

process-append_example : SameDecoding after_both after_both
process-append_example =
    process-append (new_decoder limits) first_piece second_piece [] after_first after_both
      after_both first_call refl second_call one_call

completing_call : process after_first.decoder second_piece (codes "ab") ≡ some after_both
completing_call = second_call

process-append_complete_example :
    process after_first.decoder (second_piece ++ codes "HTTP") (codes "ab")
    ≡ some (record after_both { input = codes "HTTP" })
process-append_complete_example =
    process-append_complete after_first.decoder second_piece (codes "HTTP") (codes "ab") after_both
      completing_call refl

process-returns_example : (p : Processed) × (process (new_decoder limits) first_piece [] ≡ some p)
process-returns_example = process-returns (new_decoder limits) first_piece []

new_decoder-WithinLimits : WithinLimits limits (new_decoder limits) []
new_decoder-WithinLimits = record { kept = refl; body = ground arith; trailer = ground arith }

process-WithinLimits_example : WithinLimits limits after_both.decoder after_both.output
process-WithinLimits_example =
    process-WithinLimits limits (new_decoder limits) (first_piece ++ second_piece) [] after_both
      new_decoder-WithinLimits one_call

longest_line : parse_chunk_size (codes "0005") ≡ ok 5
unfolding parse_chunk_size find_byte trim_back parse_number from_chars scan_digits digit digit_value
    is_ows
longest_line = refl

no_return : mem_byte b'\r' (codes "0005") ≡ false
unfolding mem_byte
no_return = refl

process-cut_line_example :
    (process (new_decoder limits) (codes "0005" ++ crlf) []
      ≡ some (record {
        decoder = record (new_decoder limits) { stage = chunk_data; chunk_remaining = 5 };
        input = [];
        output = [];
        result = ok need_more;
      }))
    × (process (new_decoder limits) (codes "0005" ++ (b'\r' ∷ [])) []
        ≡ some (record {
          decoder = new_decoder limits;
          input = codes "0005" ++ (b'\r' ∷ []);
          output = [];
          result = fail response_limit_exceeded;
        }))
process-cut_line_example =
    process-cut_line limits (codes "0005") [] 5 no_return refl longest_line (ground arith)
      (ground arith)

extension_loop-returns_example :
    (b : Bool) × (loop (length (codes "x=1;y") + 1) extension_step (codes "x=1;y") ≡ some b)
extension_loop-returns_example = extension_loop-returns (codes "x=1;y")

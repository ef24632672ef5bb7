-- ===== src/Chunked/Line.antt =====
-- src/http/chunked_decoder.cpp, the two kinds of lines: `parse_chunk_size` and
-- `valid_trailer_line`.
use cpp_request.Base.{
  ℕ, ◌+◌, Bool, false, not, ◌&&◌, ◌||◌, Option, none, some, [], ◌∷◌, ◌==◌, if◌then◌else◌, Bytes,
  is_empty, take, drop, codes, find_byte,
}
use cpp_request.Error.{Result, ok, fail, refuse, ◌>>◌, invalid_chunk_size, invalid_chunk_framing}
use cpp_request.Ascii.{ascii_iequals, valid_field_name, valid_field_value}
use cpp_request.Scan.{size_t_mod, parse_number, trim_back}
use cpp_request.Chunked.Extensions.{valid_chunk_extensions}

-- `text.substr(0, index)`, with `npos` for no index.
abbrev pub before : Option ℕ → Bytes → Bytes
before none text = text
before (some i) text = take i text

-- `semicolon != npos && !valid_chunk_extensions(line.substr(semicolon + 1))`.
bad_extensions : Option ℕ → Bytes → Bool
bad_extensions none line = false
bad_extensions (some i) line = not (valid_chunk_extensions (drop (i + 1) line))

number_or_fail : Option ℕ → Result ℕ
number_or_fail none = fail invalid_chunk_size
number_or_fail (some n) = ok n

unfoldable pub parse_chunk_size : Bytes → Result ℕ
unfolding bad_extensions number_or_fail
parse_chunk_size line = do
  let semicolon = find_byte b';' line
  let size_text = trim_back (before semicolon line)
  refuse (is_empty size_text) invalid_chunk_size
  refuse (bad_extensions semicolon line) invalid_chunk_framing
  number_or_fail (parse_number 16 size_t_mod size_text)

unfoldable pub starts_with_ows : Bytes → Bool
starts_with_ows [] = false
starts_with_ows (c ∷ s) = c == b' ' || c == b'\t'

-- The field of a trailer line, split at the colon.
valid_trailer_field : Bytes → Bytes → Bool
valid_trailer_field name value =
    valid_field_name name
    && valid_field_value value
    && not (ascii_iequals name (codes "Content-Length"))
    && not (ascii_iequals name (codes "Transfer-Encoding"))

unfoldable pub valid_trailer_line : Bytes → Bool
unfolding starts_with_ows valid_trailer_field
valid_trailer_line line =
    if is_empty line || starts_with_ows line then false else elim (find_byte b':' line) [
      | none ↦ false
      | some colon ↦
          not (colon == 0) && valid_trailer_field (take colon line) (drop (colon + 1) line)
    ]

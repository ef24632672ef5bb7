-- ===== src/Url.antt =====
-- include/cpp_request/url.hpp and src/core/url.cpp: absolute `http` URLs. A URL keeps one text and
-- the positions of its parts in it. `inet_pton` of the socket library, at `AF_INET6`, is the
-- parameter `inet_pton6`.
pub mod Host
pub mod WellFormed
use cpp_request.Base.{
  ℕ, ◌+◌, ◌-◌, ◌<◌, ◌≡◌, Bool, true, false, not, ◌&&◌, ◌||◌, Option, none, some, List, [], ◌∷◌,
  ◌++◌, leb, ltb, ◌==◌, if◌then◌else◌, Bytes, length, is_empty, take, drop, all, codes, find,
  find_byte, mem_byte, shift,
}
use cpp_request.Error.{Result, ok, err, fail, refuse, ◌>>=◌, ◌>>◌, invalid_url, unsupported_scheme}
use cpp_request.Ascii.{within, ascii_lower, ascii_iequals, lower}
use cpp_request.Chunked.Line.{before}
use Host.{Authority, parse_authority}

pub record Url : Type 0 where
  pub storage : Bytes
  pub scheme_begin : ℕ
  pub scheme_size : ℕ
  pub host_begin : ℕ
  pub host_size : ℕ
  pub path_begin : ℕ
  pub path_size : ℕ
  pub query_begin : ℕ
  pub query_size : ℕ
  pub target_begin : ℕ
  pub target_size : ℕ
  pub port : ℕ
  pub has_explicit_port : Bool
  pub host_is_ipv6_literal : Bool

-- `{storage_.data() + begin, size}`
abbrev pub view : ℕ → ℕ → Bytes → Bytes
view begin size storage = take size (drop begin storage)

unfoldable pub scheme : Url → Bytes
scheme u = view u.scheme_begin u.scheme_size u.storage

unfoldable pub host : Url → Bytes
host u = view u.host_begin u.host_size u.storage

unfoldable pub path : Url → Bytes
path u = view u.path_begin u.path_size u.storage

unfoldable pub query : Url → Bytes
query u = view u.query_begin u.query_size u.storage

unfoldable pub target : Url → Bytes
target u = view u.target_begin u.target_size u.storage

unfoldable pub allowed_byte : ℕ → Bool
allowed_byte byte = not (leb byte 0x20 || byte == 0x7f)

unfoldable pub contains_forbidden_url_byte : Bytes → Bool
contains_forbidden_url_byte input = not (all allowed_byte input)

unfoldable pub is_hex_digit : ℕ → Bool
is_hex_digit ch = within b'0' b'9' ch || within b'A' b'F' ch || within b'a' b'f' ch

unfoldable pub valid_percent_escapes : Bytes → Bool
valid_percent_escapes [] = true
valid_percent_escapes (c ∷ []) = not (c == b'%')
valid_percent_escapes (c ∷ a ∷ []) = not (c == b'%') && not (a == b'%')
valid_percent_escapes (c ∷ a ∷ b ∷ s) =
    let onward = valid_percent_escapes (a ∷ b ∷ s) in
    let escaped = is_hex_digit a && is_hex_digit b && valid_percent_escapes s in
    if not (c == b'%') then onward else escaped

-- `find_first_of("/?", …)` in the text from a position on.
unfoldable pub find_authority_end : Bytes → Option ℕ
find_authority_end [] = none
find_authority_end (c ∷ s) = if c == b'/' || c == b'?' then some 0 else shift (find_authority_end s)

abbrev pub or_length : Option ℕ → Bytes → ℕ
or_length none s = length s
or_length (some i) s = i

-- The text behind the authority, with a `/` in front if the path is empty.
unfoldable pub with_slash : Bytes → Bytes
with_slash [] = b'/' ∷ []
with_slash (c ∷ s) = if c == b'?' then b'/' ∷ c ∷ s else c ∷ s

-- The URL from its front (scheme, separator and authority), its target and its authority.
unfoldable pub make_url : ℕ → Bytes → Bytes → Authority → Url
make_url separator front target a =
    let path_begin = length front in
    let storage = front ++ target in
    let marker = find_byte b'?' target in
    record {
      storage = storage;
      scheme_begin = 0;
      scheme_size = separator;
      host_begin = separator + 3 + a.host_offset;
      host_size = a.host_size;
      path_begin = path_begin;
      path_size = or_length marker target;
      query_begin = elim marker [ none ↦ length storage | some i ↦ path_begin + i + 1 ];
      query_size = elim marker [ none ↦ 0 | some i ↦ length target - (i + 1) ];
      target_begin = path_begin;
      target_size = length target;
      port = a.port;
      has_explicit_port = a.has_explicit_port;
      host_is_ipv6_literal = a.is_ipv6_literal;
    }

module _ (inet_pton6 : Bytes → Bool) where
  -- From the scheme on: `text` is the text without the fragment, `separator` the place of `://`.
  unfoldable pub parse_from : ℕ → Bytes → Result Url
  parse_from separator text = do
    let storage = lower (take separator text) ++ drop separator text
    let authority_begin = separator + 3
    refuse (leb (length storage) authority_begin) invalid_url
    let behind = drop authority_begin storage
    let authority_size = or_length (find_authority_end behind) behind
    refuse (authority_size == 0) invalid_url
    let authority = take authority_size behind
    refuse (mem_byte b'@' authority || mem_byte b'%' authority) invalid_url
    a ← parse_authority inet_pton6 authority
    refuse (a.host_size == 0) invalid_url
    let target = with_slash (drop authority_size behind)
    refuse (not (valid_percent_escapes target)) invalid_url
    ok (make_url separator (take (authority_begin + authority_size) storage) target a)

  unfoldable pub parse_scheme : Option ℕ → Bytes → Result Url
  parse_scheme none input = fail invalid_url
  parse_scheme (some separator) input = do
    refuse (separator == 0) invalid_url
    refuse (not (ascii_iequals (take separator input) (codes "http"))) unsupported_scheme
    parse_from separator (before (find_byte b'#' input) input)

  unfoldable pub parse : Bytes → Result Url
  parse input = do
    refuse (is_empty input || contains_forbidden_url_byte input) invalid_url
    parse_scheme (find (codes "://") input) input

-- ===== src/Redirect.antt =====
-- src/http/redirect.hpp and src/http/redirect.cpp: which responses redirect, with which method, and
-- the resolution of a `Location`.
pub mod Dots
pub mod Plain
pub mod Resolve
use cpp_request.Base.{
  ℕ, suc, ◌+◌, Bool, true, false, not, ◌&&◌, ◌||◌, Option, none, some, List, [], ◌∷◌, ◌++◌, ◌==◌,
  if◌then◌else◌, Bytes, length, is_empty, take, drop, codes, starts_with, find_byte, shift,
}
use cpp_request.Error.{
  ErrorCode, Error, error, Result, ok, err, fail, refuse, ◌>>=◌, ◌>>◌, unsupported_scheme,
  missing_redirect_location, unsupported_redirect_scheme,
}
use cpp_request.Ascii.{within, is_alnum, ascii_iequals}
use cpp_request.Request.{Method, get, head, post, put, patch, delete}
use cpp_request.Scan.{to_chars}
use cpp_request.Chunked.Line.{before}
use cpp_request.Url.Host.{rfind_byte}
use cpp_request.Url.{Url}
use cpp_request.Url
use Dots.{remove_dot_segments}

-- At a fixed byte class of the "C" locale, `std::isalnum` is the ASCII one.
unfoldable pub is_scheme_char : ℕ → Bool
is_scheme_char ch = is_alnum ch || ch == b'+' || ch == b'-' || ch == b'.'

-- The loop of `scheme_end` behind the first character.
unfoldable pub scheme_end_from : Bytes → Option ℕ
scheme_end_from [] = none
scheme_end_from (ch ∷ s) =
    if ch == b':'
    then some 0
    else if ch == b'/' || ch == b'?' || ch == b'#'
    then none
    else if not (is_scheme_char ch)
    then none
    else shift (scheme_end_from s)

unfoldable pub scheme_end : Bytes → Option ℕ
scheme_end [] = none
scheme_end (ch ∷ s) =
    if not (within b'A' b'Z' ch || within b'a' b'z' ch) then none else shift (scheme_end_from s)

-- The host as it stands in a URL.
unfoldable pub bracketed_host : Url → Bytes
bracketed_host base =
    if base.host_is_ipv6_literal then b'[' ∷ (Url.host base ++ (b']' ∷ [])) else Url.host base

-- `:` and the port, if the URL has an explicit one.
unfoldable pub port_suffix : Url → Bytes
port_suffix base = if base.has_explicit_port then b':' ∷ to_chars base.port else []

unfoldable pub build_origin : Url → Bytes
build_origin base = codes "http://" ++ (bracketed_host base ++ port_suffix base)

unfoldable pub strip_fragment : Bytes → Bytes
strip_fragment value = before (find_byte b'#' value) value

unfoldable pub is_redirect_status : ℕ → Bool
is_redirect_status status_code =
    status_code == 301
    || status_code == 302
    || status_code == 303
    || status_code == 307
    || status_code == 308

pub record RedirectBehavior : Type 0 where
  pub method : Method
  pub preserve_body : Bool

abbrev pub head_or_get : Method → Method
head_or_get head = head
head_or_get _ = get

abbrev pub is_post : Method → Bool
is_post post = true
is_post _ = false

unfoldable pub redirect_behavior : ℕ → Method → RedirectBehavior
redirect_behavior status_code current_method =
    if status_code == 303
    then record { method = head_or_get current_method; preserve_body = false }
    else if (status_code == 301 || status_code == 302) && is_post current_method
    then record { method = get; preserve_body = false }
    else record { method = current_method; preserve_body = true }

-- `if (error.code == UnsupportedScheme) return Error{UnsupportedRedirectScheme};`
abbrev pub redirect_code : ErrorCode → Error → Error
redirect_code unsupported_scheme e = error unsupported_redirect_scheme
redirect_code _ e = e

abbrev pub redirect_error : Error → Error
redirect_error e = redirect_code e.code e

-- The directory of the base's path: up to the last slash.
abbrev pub directory : Option ℕ → Bytes → Bytes
directory none base_path = b'/' ∷ []
directory (some slash) base_path = take (slash + 1) base_path

unfoldable pub merge_path : Url → Bytes → Bytes
merge_path base relative =
    if starts_with (b'/' ∷ []) relative
    then relative
    else directory (rfind_byte b'/' (Url.path base)) (Url.path base) ++ relative

-- `find_first_of("?#")`.
unfoldable pub find_suffix : Bytes → Option ℕ
find_suffix [] = none
find_suffix (c ∷ s) = if c == b'?' || c == b'#' then some 0 else shift (find_suffix s)

abbrev pub suffix_from : Option ℕ → Bytes → Bytes
suffix_from none s = []
suffix_from (some i) s = drop i s

-- The candidate for a location that is a path.
unfoldable pub relative_candidate : Url → Bytes → Bytes
relative_candidate base location =
    let suffix_begin = find_suffix location in
    build_origin base
    ++ (remove_dot_segments (merge_path base (before suffix_begin location))
        ++ suffix_from suffix_begin location)

-- The candidate for a location without a scheme that is not empty.
unfoldable pub schemeless_candidate : Url → Bytes → Bytes
schemeless_candidate base location =
    if starts_with (codes "//") location
    then codes "http:" ++ location
    else if starts_with (codes "#") location
    then build_origin base ++ (Url.target base ++ location)
    else if starts_with (codes "?") location
    then build_origin base ++ (Url.path base ++ location)
    else relative_candidate base location

module _ (inet_pton6 : Bytes → Bool) where
  unfoldable pub validated : Bytes → Result Url → Result Bytes
  validated candidate (ok u) = ok candidate
  validated candidate (err e) = err (redirect_error e)

  unfoldable pub validate_redirect_url : Bytes → Result Bytes
  validate_redirect_url candidate =
      let stripped = strip_fragment candidate in validated stripped (Url.parse inet_pton6 stripped)

  unfoldable pub resolve_by_scheme : Url → Bytes → Option ℕ → Result Bytes
  resolve_by_scheme base location none = validate_redirect_url (schemeless_candidate base location)
  resolve_by_scheme base location (some i) = do
    refuse (not (ascii_iequals (take i location) (codes "http"))) unsupported_redirect_scheme
    validate_redirect_url location

  unfoldable pub resolve_redirect_location : Url → Bytes → Result Bytes
  resolve_redirect_location base location = do
    refuse (is_empty location) missing_redirect_location
    resolve_by_scheme base location (scheme_end location)

-- ===== src/Tests/Policy.antt =====
-- Header lists, redirects and the client's decisions.
use cpp_request.Base.{
  ◌+◌, ◌≡◌, refl, Bool, true, false, ◌||◌, [], ◌∷◌, Bytes, codes, equal, find, find_byte, mem_byte,
  all, starts_with, if◌then◌else◌,
}
use cpp_request.Error.{Result, ok, err}
use cpp_request.Ascii.{ascii_iequals, ascii_lower, is_alnum}
use cpp_request.Headers.{Headers, field, set, contains, add, count_named}
use cpp_request.Headers
use cpp_request.Headers.Laws.{get-set, count_named-set, get-add}
use cpp_request.Request.{get, post}
use cpp_request.Response.{Response}
use cpp_request.Tokens.{split_on}
use cpp_request.Url.{
  Url, make_url, contains_forbidden_url_byte, allowed_byte, parse_scheme, parse_from,
  find_authority_end, valid_percent_escapes, with_slash,
}
use cpp_request.Url.Host.{parse_authority, parse_named, rfind_byte}
use cpp_request.Url
use cpp_request.Redirect.{
  resolve_redirect_location, redirect_behavior, resolve_by_scheme, scheme_end, scheme_end_from,
  is_scheme_char, strip_fragment, validate_redirect_url, validated,
}
use cpp_request.Redirect.Dots.{remove_dot_segments, first_segment}
use cpp_request.Redirect.Plain.{not_dots, remove_dot_segments-plain}
use cpp_request.Redirect.Resolve.{IsResolved, IsSchemeChecked, resolve_redirect_location-IsResolved}
use cpp_request.Client.{
  add_redirected, is_skipped, redirect_to, same_origin, is_cross_origin_sensitive_header,
  is_entity_header_removed_with_body, redirected_headers, Redirection, next_redirection,
}
use cpp_request.Client.Redirects.{
  count_named-redirected_headers, Followed, next_redirection-Followed,
}

abbrev cookies : Headers
cookies = field (codes "Cookie") (codes "a") ∷ field (codes "cookie") (codes "b") ∷ []

get-set_example : Headers.get (codes "COOKIE") (set (codes "Cookie") (codes "c") cookies) ≡ (
    if ascii_iequals (codes "Cookie") (codes "COOKIE")
    then codes "c"
    else Headers.get (codes "COOKIE") cookies)
get-set_example = get-set (codes "COOKIE") (codes "Cookie") (codes "c") cookies

count_named-set_example :
    count_named (codes "COOKIE") (set (codes "Cookie") (codes "c") cookies) ≡ (
      if ascii_iequals (codes "Cookie") (codes "COOKIE")
      then 1
      else count_named (codes "COOKIE") cookies)
count_named-set_example = count_named-set (codes "COOKIE") (codes "Cookie") (codes "c") cookies

abbrev deep_path : Bytes
deep_path = codes "/a/../../b/./c/.."

remove_dot_segments-plain_example :
    (starts_with (b'/' ∷ []) (remove_dot_segments deep_path) ≡ true)
    × (all not_dots (split_on b'/' (first_segment (remove_dot_segments deep_path))) ≡ true)
remove_dot_segments-plain_example = remove_dot_segments-plain deep_path

count_named-redirected_headers_example :
    count_named (codes "COOKIE") (redirected_headers cookies true false) ≡ 0
unfolding is_cross_origin_sensitive_header ascii_iequals ascii_lower
    is_entity_header_removed_with_body
count_named-redirected_headers_example =
    count_named-redirected_headers (codes "COOKIE") cookies true false

get-add_example :
    (Headers.get (codes "COOKIE") (add (codes "Accept") (codes "c") cookies) ≡ (
      if contains (codes "COOKIE") cookies
      then Headers.get (codes "COOKIE") cookies
      else if ascii_iequals (codes "Accept") (codes "COOKIE")
      then codes "c"
      else []))
    × (contains (codes "COOKIE") (add (codes "Accept") (codes "c") cookies)
        ≡ contains (codes "COOKIE") cookies || ascii_iequals (codes "Accept") (codes "COOKIE"))
    × (count_named (codes "COOKIE") (add (codes "Accept") (codes "c") cookies)
        ≡ count_named (codes "COOKIE") cookies
          + (if ascii_iequals (codes "Accept") (codes "COOKIE") then 1 else 0))
get-add_example = get-add (codes "COOKIE") (codes "Accept") (codes "c") cookies

-- An address parser that knows the loopback address alone.
abbrev loopback : Bytes → Bool
loopback text = equal text (codes "::1")

abbrev base_of : Result Url → Url
base_of (ok u) = u
base_of (err e) = make_url 0 [] [] (record {
  host_offset = 0;
  host_size = 0;
  port = 80;
  has_explicit_port = false;
  is_ipv6_literal = false;
})

abbrev base : Url
base = base_of (Url.parse loopback (codes "http://[::1]:81/a/b?c"))

resolve_redirect_location-IsResolved_example :
    IsResolved loopback (resolve_redirect_location loopback base (codes "ftp://b/"))
    × IsSchemeChecked loopback
        (codes "ftp://b/")
        (resolve_redirect_location loopback base (codes "ftp://b/"))
resolve_redirect_location-IsResolved_example =
    resolve_redirect_location-IsResolved loopback base (codes "ftp://b/")

abbrev moved : Response
moved = record {
  status_code = 303;
  reason = codes "See Other";
  headers = field (codes "Location") (codes "http://b/y") ∷ [];
  body = [];
}

abbrev posted : Redirection
posted = record {
  current_url = codes "http://a/x";
  current_method = post;
  current_headers = field (codes "Authorization") (codes "k") ∷ [];
  current_body = codes "hi";
  redirects_followed = 1;
}

abbrev landed : Redirection
landed = record {
  current_url = codes "http://b/y";
  current_method = get;
  current_headers = [];
  current_body = [];
  redirects_followed = 2;
}

posted_moves : next_redirection loopback 5 posted moved ≡ ok landed
unfolding next_redirection contains ascii_iequals Headers.get Url.parse contains_forbidden_url_byte
    allowed_byte parse_scheme find parse_from find_byte find_authority_end mem_byte parse_authority
    parse_named rfind_byte valid_percent_escapes with_slash ascii_lower is_alnum equal starts_with
    add_redirected is_cross_origin_sensitive_header is_entity_header_removed_with_body is_skipped
    redirect_to redirected_headers same_origin add redirect_behavior resolve_by_scheme
    resolve_redirect_location scheme_end scheme_end_from is_scheme_char strip_fragment
    validate_redirect_url validated Url.host make_url
posted_moves = refl

next_redirection-Followed_example : (u : Url) × (v : Url) × Followed loopback 5 posted u v landed
next_redirection-Followed_example =
    next_redirection-Followed loopback 5 posted landed moved posted_moves

-- ===== src/Client/Redirects.antt =====
-- What a redirect keeps of a request, and what it may not keep.
use cpp_request.Base.{
  ℕ, ◌+◌, ◌≤◌, ◌≡◌, refl, Bool, true, false, not, ◌&&◌, ◌||◌, [], ◌∷◌, arith, leb, if◌then◌else◌,
  Bytes, is_empty, codes,
}
use mathlib.Core.Path.{subst}
use cpp_request.Error.{
  Result, ok, err, ok-injective, ◌>>=◌, refuse-eq-ok, >>=-eq-ok, redirect_limit_exceeded,
  missing_redirect_location,
}
use cpp_request.Ascii.{ascii_iequals, ascii_iequals_iff}
use cpp_request.Headers.{Field, Headers, contains, count_named}
use cpp_request.Headers
use cpp_request.Headers.Laws.{get-add}
use cpp_request.Response.{Response}
use cpp_request.Url.{Url}
use cpp_request.Url
use cpp_request.Redirect.{resolve_redirect_location, redirect_behavior}
use cpp_request.Client.{
  is_cross_origin_sensitive_header, is_entity_header_removed_with_body, is_skipped, add_redirected,
  redirected_headers, same_origin, Redirection, redirect_to, or_redirect_error, next_redirection,
}

-- A name that the two tests skip.
abbrev pub skips : Bool → Bool → Bytes → Bool
skips cross_origin drop_body name =
    (cross_origin && is_cross_origin_sensitive_header name)
    || (drop_body && is_entity_header_removed_with_body name)

-- The tests do not look at the case of a name.
skips_same_name : (c d : Bool) (a b : Bytes) → ascii_iequals a b ≡ true → skips c d a ≡ skips c d b
unfolding is_cross_origin_sensitive_header is_entity_header_removed_with_body
skips_same_name c d a b h = rw (
  same (codes "Host"),
  same (codes "Authorization"),
  same (codes "Proxy-Authorization"),
  same (codes "Cookie"),
  same (codes "Content-Length"),
  same (codes "Transfer-Encoding"),
  same (codes "Content-Type"),
)
  where
    same : (n : Bytes) → ascii_iequals a n ≡ ascii_iequals b n
    same n = ground (arith, ascii_iequals_iff a b, ascii_iequals_iff a n, ascii_iequals_iff b n)

add_redirected-keeps :
    (c d : Bool) (n : Bytes) (result source : Headers)
    → (count_named n (add_redirected c d result source)
        ≡ count_named n result + (if skips c d n then 0 else count_named n source))
unfolding add_redirected is_skipped count_named
add_redirected-keeps c d n result [] = ground arith
add_redirected-keeps c d n result (f ∷ source) = ground (
  arith,
  add_redirected-keeps c d n result source,
  add_redirected-keeps c d n (Headers.add f.name f.value result) source,
  (get-add n f.name f.value result).2,
  skips_same_name c d f.name n,
)

-- A redirect keeps all fields of a name, or none. None of the credentials and of `Host` goes to
-- another origin, none of the entity fields goes along when the body is dropped, and every field
-- of any other name is kept, under whatever spelling.
pub count_named-redirected_headers :
    (n : Bytes) (source : Headers) (cross_origin drop_body : Bool)
    → count_named n (redirected_headers source cross_origin drop_body) ≡ (
        if (cross_origin && is_cross_origin_sensitive_header n)
          || (drop_body && is_entity_header_removed_with_body n)
        then 0
        else count_named n source)
unfolding redirected_headers count_named
count_named-redirected_headers n source c d = ground (arith, add_redirected-keeps c d n [] source)

authorization-sensitive : is_cross_origin_sensitive_header (codes "Authorization") ≡ true
unfolding is_cross_origin_sensitive_header ascii_iequals
authorization-sensitive = refl

authorization-kept : is_entity_header_removed_with_body (codes "Authorization") ≡ false
unfolding is_entity_header_removed_with_body ascii_iequals
authorization-kept = refl

module _ (inet_pton6 : Bytes → Bool) where
  or_redirect_error-eq-ok : (r : Result Url) {u : Url} → or_redirect_error r ≡ ok u → r ≡ ok u
  or_redirect_error-eq-ok (ok a) h = h
  or_redirect_error-eq-ok (err e) h = cc

  sends_credentials :
      (s : Redirection) (base next : Url) (status : ℕ) (url : Bytes)
      → count_named (codes "Authorization") (redirect_to s status base next url).current_headers ≡ (
          if same_origin base next
          then count_named (codes "Authorization") s.current_headers
          else 0)
  unfolding redirect_to
  sends_credentials s base next status url = ground (
    arith,
    count_named-redirected_headers (codes "Authorization") s.current_headers
        (not (same_origin base next))
        (not (redirect_behavior status s.current_method).preserve_body),
    authorization-sensitive,
    authorization-kept,
  )

  -- What a redirect that is followed does.
  abbrev pub Followed : ℕ → Redirection → Url → Url → Redirection → Type 0
  Followed max s base next t =
      (Url.parse inet_pton6 s.current_url ≡ ok base)
      × (Url.parse inet_pton6 t.current_url ≡ ok next)
      × (t.redirects_followed ≡ s.redirects_followed + 1)
      × (t.redirects_followed ≤ max)
      × (count_named (codes "Authorization") t.current_headers ≡ (
          if same_origin base next
          then count_named (codes "Authorization") s.current_headers
          else 0))

  to_redirection :
      (max : ℕ) (s : Redirection) (base next : Url) (status : ℕ) (url : Bytes)
      → Url.parse inet_pton6 s.current_url ≡ ok base
      → Url.parse inet_pton6 url ≡ ok next
      → leb max s.redirects_followed ≡ false
      → Followed max s base next (redirect_to s status base next url)
  unfolding redirect_to
  to_redirection max s base next status url p v w =
      (p, v, refl, ground arith, sends_credentials s base next status url)

  -- A redirect that is followed is counted and stays within the maximum, both its old and its new
  -- URL are valid, and the field `Authorization` goes along exactly if they have the same origin.
  pub next_redirection-Followed :
      (max : ℕ) (s t : Redirection) (r : Response)
      → next_redirection inet_pton6 max s r ≡ ok t
      → (base : Url) × (next : Url) × Followed max s base next t
  unfolding next_redirection
  next_redirection-Followed max s t r h =
      let (within, h1) = refuse-eq-ok (leb max s.redirects_followed) redirect_limit_exceeded _ h in
      let (there, h2) =
        refuse-eq-ok (not (contains (codes "Location") r.headers)) missing_redirect_location _ h1 in
      let (some_text, h3) =
        refuse-eq-ok (is_empty (Headers.get (codes "Location") r.headers)) missing_redirect_location
          _ h2 in
      let (base, parsed, h4) = >>=-eq-ok (Url.parse inet_pton6 s.current_url) _ h3 in
      let (url, resolved, h5) =
        >>=-eq-ok
          (resolve_redirect_location inet_pton6 base (Headers.get (codes "Location") r.headers))
          (λ u. or_redirect_error (Url.parse inet_pton6 u) >>= λ next.
            ok (redirect_to s r.status_code base next u))
          h4 in
      let (next, valid, h6) =
        >>=-eq-ok (or_redirect_error (Url.parse inet_pton6 url))
          (λ next. ok (redirect_to s r.status_code base next url)) h5 in
      (
        base,
        next,
        subst (Followed max s base next) (ok-injective h6) (
            to_redirection max s base next r.status_code url parsed
              (or_redirect_error-eq-ok (Url.parse inet_pton6 url) valid) within),
      )

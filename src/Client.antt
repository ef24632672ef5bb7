-- ===== src/Client.antt =====
-- src/core/client.cpp: the client's decisions that need no socket: which connection a request may
-- reuse, which fields a redirect keeps, and the next request of a redirect (the loop body of
-- `Client::request` up to its call of `execute_once`).
pub mod Redirects
pub mod Keeping
pub mod Exchange
pub mod Requests
pub mod Tokens
pub mod Sockets
pub mod Leaving
pub mod Receiving
pub mod Acquiring
pub mod NoLeak
pub mod Sending
pub mod Delivering
pub mod Behind
pub mod KeepAlive
pub mod Settings
pub mod Redirecting
pub mod Following
pub mod Owner
use cpp_request.Base.{
  ℕ, ◌+◌, Bool, true, false, not, ◌&&◌, ◌||◌, List, [], ◌∷◌, leb, ◌==◌, if◌then◌else◌, Bytes,
  is_empty, codes,
}
use cpp_request.Error.{
  Error, Result, ok, err, refuse, ◌>>=◌, ◌>>◌, redirect_limit_exceeded, missing_redirect_location,
}
use cpp_request.Ascii.{ascii_iequals}
use cpp_request.Tokens.{contains_token}
use cpp_request.Headers.{Field, Headers, contains}
use cpp_request.Headers
use cpp_request.Request.{Method, Request, new_request}
use cpp_request.Response.{Response}
use cpp_request.Url.{Url}
use cpp_request.Url
use cpp_request.Redirect.{redirect_behavior, redirect_error, resolve_redirect_location}

unfoldable pub wants_connection_close : Headers → Bool
wants_connection_close [] = false
wants_connection_close (f ∷ fields) =
    (ascii_iequals f.name (codes "Connection") && contains_token f.value (codes "close"))
    || wants_connection_close fields

unfoldable pub request_wants_connection_close : Request → Bool
request_wants_connection_close r = wants_connection_close r.headers

-- The origin of the kept connection, and that of a request.
unfoldable pub same_stored_origin : Bytes → ℕ → Bytes → ℕ → Bool
same_stored_origin stored_host stored_port host port =
    stored_port == port && ascii_iequals stored_host host

unfoldable pub same_origin : Url → Url → Bool
same_origin lhs rhs = lhs.port == rhs.port && ascii_iequals (Url.host lhs) (Url.host rhs)

unfoldable pub is_cross_origin_sensitive_header : Bytes → Bool
is_cross_origin_sensitive_header name =
    ascii_iequals name (codes "Host")
    || ascii_iequals name (codes "Authorization")
    || ascii_iequals name (codes "Proxy-Authorization")
    || ascii_iequals name (codes "Cookie")

unfoldable pub is_entity_header_removed_with_body : Bytes → Bool
is_entity_header_removed_with_body name =
    ascii_iequals name (codes "Content-Length")
    || ascii_iequals name (codes "Transfer-Encoding")
    || ascii_iequals name (codes "Content-Type")

-- The two tests with which the loop of `redirected_headers` skips a field.
unfoldable pub is_skipped : Bool → Bool → Field → Bool
is_skipped cross_origin drop_body f =
    (cross_origin && is_cross_origin_sensitive_header f.name)
    || (drop_body && is_entity_header_removed_with_body f.name)

unfoldable pub add_redirected : Bool → Bool → Headers → Headers → Headers
add_redirected cross_origin drop_body result [] = result
add_redirected cross_origin drop_body result (f ∷ source) =
    add_redirected cross_origin drop_body
      (if is_skipped cross_origin drop_body f then result else Headers.add f.name f.value result)
      source

unfoldable pub redirected_headers : Headers → Bool → Bool → Headers
redirected_headers source cross_origin drop_body = add_redirected cross_origin drop_body [] source

unfoldable pub make_request : Method → Bytes → Bytes → Request
make_request method url body = record (new_request method url) { body = body }

-- The variables of the redirect loop.
pub record Redirection : Type 0 where
  pub current_url : Bytes
  pub current_method : Method
  pub current_headers : Headers
  pub current_body : Bytes
  pub redirects_followed : ℕ

-- `Request redirected{…}` and its two assignments.
unfoldable pub redirected : Redirection → Request
redirected s = record {
  method = s.current_method;
  url = s.current_url;
  headers = s.current_headers;
  body = s.current_body;
  query_params = [];
}

abbrev pub or_redirect_error {ℓ} : {A : Type ℓ} → Result A → Result A
or_redirect_error (ok a) = ok a
or_redirect_error (err e) = err (redirect_error e)

-- The new variables, from both URLs and the response's status.
unfoldable pub redirect_to : Redirection → ℕ → Url → Url → Bytes → Redirection
redirect_to s status base next_parsed next_url =
    let behavior = redirect_behavior status s.current_method in
    let cross_origin = not (same_origin base next_parsed) in
    let drop_body = not behavior.preserve_body in
    record {
      current_url = next_url;
      current_method = behavior.method;
      current_headers = redirected_headers s.current_headers cross_origin drop_body;
      current_body = if behavior.preserve_body then s.current_body else [];
      redirects_followed = s.redirects_followed + 1;
    }

module _ (inet_pton6 : Bytes → Bool) where
  -- One round of the loop, before `execute_once(redirected)`.
  unfoldable pub next_redirection : ℕ → Redirection → Response → Result Redirection
  next_redirection max_redirects s response = do
    refuse (leb max_redirects s.redirects_followed) redirect_limit_exceeded
    refuse (not (contains (codes "Location") response.headers)) missing_redirect_location
    let location = Headers.get (codes "Location") response.headers
    refuse (is_empty location) missing_redirect_location
    base ← Url.parse inet_pton6 s.current_url
    next_url ← resolve_redirect_location inet_pton6 base location
    next_parsed ← or_redirect_error (Url.parse inet_pton6 next_url)
    ok (redirect_to s response.status_code base next_parsed next_url)

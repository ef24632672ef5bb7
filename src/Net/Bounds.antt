-- ===== src/Net/Bounds.antt =====
-- What the resolver and the deadlines give to the calls of the system.
use cpp_request.Base.{
  both, both_with, ℕ, ◌+◌, ◌-◌, ◌*◌, ◌≤◌, ◌≡◌, refl, ◌↔◌, Bool, true, false, not, ◌&&◌, ◌||◌, ◌==◌,
  leb, ltb, Option, none, some, List, [], ◌∷◌, Bytes, is_empty, mem_byte, all, arith,
}
use cpp_request.Error.{ℤ, pos, Result, ok, err}
use cpp_request.Scan.{to_chars}
use cpp_request.Platform.{System, AddrInfo}
use cpp_request.Platform.NativeSocket.{same_int}
use cpp_request.Platform.NetworkRuntime.{ensure_network_runtime}
use cpp_request.Net.Endpoint.{Endpoint, valid, make_endpoint}
use cpp_request.Net.Resolver.{
  is_null, is_usable, endpoint_of, collect_endpoints, some_endpoints, resolved, resolve,
}
use cpp_request.Net.TcpConnection.{time_left}

-- The milliseconds that are left are 0 exactly at the deadline and behind it, and never a whole
-- millisecond above the time that is left.
pub time_left_bounds :
    (deadline now : ℕ)
    → ((time_left deadline now ≡ 0) ↔ (deadline ≤ now))
      × (time_left deadline now * 1000000 ≤ deadline - now + 999999)
unfolding time_left
time_left_bounds deadline now = (ground arith, ground arith)

module _ (sys : System) where
  -- What is known of an endpoint of the resolver.
  unfoldable pub fits_storage : Endpoint → Bool
  fits_storage e = valid e && leb e.address_size sys.sockaddr_storage_size

  made_fits :
      (a : Option Bytes) (n : ℕ) (t p : ℤ)
      → not (is_null a) ≡ true
      → not (n == 0 || ltb sys.sockaddr_storage_size n) ≡ true
      → fits_storage (make_endpoint sys a n t p) ≡ true
  unfolding fits_storage make_endpoint valid
  made_fits none n t p h k = cc
  made_fits (some a) n t p h k = ground arith

  usable_fits : (i : AddrInfo) → is_usable sys i ≡ true → fits_storage (endpoint_of sys i) ≡ true
  unfolding is_usable endpoint_of
  usable_fits i h = made_fits i.ai_addr i.ai_addrlen _ _ (ground arith) (ground arith)

  collected_fit :
      (results : List AddrInfo) → all fits_storage (collect_endpoints sys results) ≡ true
  unfolding collect_endpoints
  collected_fit [] = refl
  collected_fit (i ∷ results) =
      both_with (λ es. all fits_storage es ≡ true) (is_usable sys i)
        (λ u. rw (usable_fits i u) (collected_fit results)) (λ _. collected_fit results)

  -- A list of endpoints that a caller may connect to.
  abbrev pub UsableAs : Result (List Endpoint) → Type 0
  UsableAs (ok endpoints) = (all fits_storage endpoints ≡ true) × (is_empty endpoints ≡ false)
  UsableAs (err e) = Unit {0}

  some_usable : (es : List Endpoint) → all fits_storage es ≡ true → UsableAs (some_endpoints sys es)
  some_usable [] h = tt
  some_usable (e ∷ es) h = (h, refl)

  -- The resolver gives at least one endpoint or an error, and every endpoint that it gives is valid
  -- and its address fits a `sockaddr_storage`.
  pub resolve-UsableAs :
      (host : Bytes) (port : ℕ) (w : sys.World) → UsableAs (resolve sys host port w).0
  unfolding resolve resolved
  resolve-UsableAs host port w =
      let ((status, results), w1) = sys.getaddrinfo host (to_chars port) w in
      let P : Result (List Endpoint) × sys.World → Type 0 = λ r. UsableAs r.0 in
      both P (is_empty host || mem_byte 0 host) tt (
        both P (not ensure_network_runtime.usable) tt (
          both UsableAs (not (same_int status (pos 0))) tt
            (some_usable (collect_endpoints sys results) (collected_fit results))))

-- ===== src/Net/Resolver.antt =====
-- src/net/resolver.cpp: `Resolver::resolve`. The buffer of the service name has room for the five
-- digits of a port, so that `std::to_chars` succeeds.
use cpp_request.Base.{
  ℕ, Bool, true, false, not, ◌&&◌, ◌||◌, Option, none, some, List, [], ◌∷◌, ◌==◌, ltb,
  if◌then◌else◌, Bytes, is_empty, mem_byte,
}
use cpp_request.Error.{ℤ, pos, Result, ok, err, fail, resolve_failed}
use cpp_request.Scan.{to_chars}
use cpp_request.Platform.{System, AddrInfo}
use cpp_request.Platform.NativeSocket.{same_int}
use cpp_request.Platform.NetworkRuntime.{ensure_network_runtime}
use cpp_request.Net.Endpoint.{Endpoint, make_endpoint}

-- `n != 0 ? n : fallback`
abbrev pub nonzero_or : ℤ → ℤ → ℤ
nonzero_or n fallback = if same_int n (pos 0) then fallback else n

abbrev pub is_null : Option Bytes → Bool
is_null none = true
is_null (some a) = false

module _ (sys : System) where
  open sys use {
    World, getaddrinfo, af_inet, af_inet6, sock_stream, ipproto_tcp, sockaddr_storage_size,
  }

  -- The tests with which the loop skips a result.
  unfoldable pub is_usable : AddrInfo → Bool
  is_usable current =
      not (is_null current.ai_addr)
      && (same_int current.ai_family af_inet || same_int current.ai_family af_inet6)
      && not (current.ai_addrlen == 0 || ltb sockaddr_storage_size current.ai_addrlen)

  unfoldable pub endpoint_of : AddrInfo → Endpoint
  endpoint_of current =
      make_endpoint sys current.ai_addr current.ai_addrlen
        (nonzero_or current.ai_socktype sock_stream) (nonzero_or current.ai_protocol ipproto_tcp)

  -- The loop over the results.
  unfoldable pub collect_endpoints : List AddrInfo → List Endpoint
  collect_endpoints [] = []
  collect_endpoints (current ∷ results) =
      let rest = collect_endpoints results in
      if is_usable current then endpoint_of current ∷ rest else rest

  abbrev pub some_endpoints : List Endpoint → Result (List Endpoint)
  some_endpoints [] = fail resolve_failed
  some_endpoints (e ∷ es) = ok (e ∷ es)

  -- Behind the call of `getaddrinfo`.
  unfoldable pub resolved : ℤ → List AddrInfo → Result (List Endpoint)
  resolved status results =
      if not (same_int status (pos 0))
      then err (record { code = resolve_failed; native_code = status })
      else some_endpoints (collect_endpoints results)

  unfoldable pub resolve : Bytes → ℕ → World → Result (List Endpoint) × World
  resolve host port w =
      if is_empty host || mem_byte 0 host
      then (fail resolve_failed, w)
      else if not ensure_network_runtime.usable
      then (
        err (record { code = resolve_failed; native_code = ensure_network_runtime.native_code }),
        w,
      )
      else (let ((status, results), w1) = getaddrinfo host (to_chars port) w in
          (resolved status results, w1))

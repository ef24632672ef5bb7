-- ===== src/Net/Endpoint.antt =====
-- src/net/endpoint.hpp: an address that a socket may be connected to.
use cpp_request.Base.{ℕ, Bool, not, ◌==◌, leb, if◌then◌else◌, Option, none, some, [], Bytes, take}
use cpp_request.Error.{ℤ}
use cpp_request.Platform.{System}
use cpp_request.Platform.NativeSocket.{same_int}

pub record Endpoint : Type 0 where
  pub address : Bytes
  pub address_size : ℕ
  pub socket_type : ℤ
  pub protocol : ℤ

unfoldable pub valid : Endpoint → Bool
valid e = not (e.address_size == 0)

module _ (sys : System) where
  open sys use {ss_family, sockaddr_storage_size, af_unspec, af_inet, af_inet6}

  -- The constructor; a null address, or one that does not fit, gives an endpoint that is not valid.
  unfoldable pub make_endpoint : Option Bytes → ℕ → ℤ → ℤ → Endpoint
  make_endpoint none address_size socket_type protocol = record {
    address = [];
    address_size = 0;
    socket_type = socket_type;
    protocol = protocol;
  }
  make_endpoint (some address) address_size socket_type protocol =
      let fits = leb address_size sockaddr_storage_size in
      record {
        address = if fits then take address_size address else [];
        address_size = if fits then address_size else 0;
        socket_type = socket_type;
        protocol = protocol;
      }

  unfoldable pub family : Endpoint → ℤ
  family e = if valid e then ss_family e.address else af_unspec

  unfoldable pub is_ipv4 : Endpoint → Bool
  is_ipv4 e = same_int (family e) af_inet

  unfoldable pub is_ipv6 : Endpoint → Bool
  is_ipv6 e = same_int (family e) af_inet6

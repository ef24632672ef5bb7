-- ===== src/Client/Keeping.antt =====
-- include/cpp_request/client.hpp and src/core/client.cpp: the members of the client, and the
-- connection that it keeps between requests.
use cpp_request.Base.{ℕ, ◌-◌, ◌^◌, ◌%◌, Bool, true, false, [], Bytes, ltb, if◌then◌else◌}
use cpp_request.Error.{ℤ, pos, negsuc}
use cpp_request.Limits.{ResponseLimits, default_limits}
use cpp_request.Platform.{System}
use cpp_request.Platform.NativeSocket.{NativeSocket}
use cpp_request.Platform.NativeSocket

pub record Client : Type 0 where
  pub reusable_socket_token : ℕ
  pub has_reusable_connection : Bool
  pub reusable_host : Bytes
  pub reusable_port : ℕ
  pub follow_redirects : Bool
  pub max_redirects : ℕ
  pub response_limits : ResponseLimits
  pub connect_timeout : ℤ
  pub read_timeout : ℤ
  pub write_timeout : ℤ

-- `Client()`
abbrev pub new_client : Client
new_client = record {
  reusable_socket_token = 0;
  has_reusable_connection = false;
  reusable_host = [];
  reusable_port = 0;
  follow_redirects = true;
  max_redirects = 10;
  response_limits = default_limits;
  connect_timeout = pos 5000;
  read_timeout = pos 30000;
  write_timeout = pos 30000;
}

abbrev pub set_connect_timeout : ℤ → Client → Client
set_connect_timeout timeout s = record s { connect_timeout = timeout }

abbrev pub set_read_timeout : ℤ → Client → Client
set_read_timeout timeout s = record s { read_timeout = timeout }

abbrev pub set_write_timeout : ℤ → Client → Client
set_write_timeout timeout s = record s { write_timeout = timeout }

abbrev pub set_follow_redirects : Bool → Client → Client
set_follow_redirects enabled s = record s { follow_redirects = enabled }

abbrev pub set_max_redirects : ℕ → Client → Client
set_max_redirects count s = record s { max_redirects = count }

abbrev pub set_response_limits : ResponseLimits → Client → Client
set_response_limits limits s = record s { response_limits = limits }

-- `static_cast<std::uintptr_t>(handle)`: a negative `int` wraps around in 64 bits.
unfoldable pub encode_socket_handle : ℤ → ℕ
encode_socket_handle (pos n) = n
encode_socket_handle (negsuc n) = 2 ^ 64 - 1 - n

-- The `int` of the low 32 bits.
abbrev pub as_int : ℕ → ℤ
as_int bits = if ltb bits (2 ^ 31) then pos bits else negsuc (2 ^ 32 - 1 - bits)

-- `static_cast<int>(token)`
unfoldable pub decode_socket_handle : ℕ → ℤ
decode_socket_handle token = as_int (token % 2 ^ 32)

-- The members without the kept connection.
unfoldable pub forget_connection : Client → Client
forget_connection s = record s {
  reusable_socket_token = 0;
  has_reusable_connection = false;
  reusable_host = [];
  reusable_port = 0;
}

unfoldable pub keep_connection : ℤ → Bytes → ℕ → Client → Client
keep_connection handle host port s = record s {
  reusable_socket_token = encode_socket_handle handle;
  has_reusable_connection = true;
  reusable_host = host;
  reusable_port = port;
}

-- The local socket of `close_reusable_connection`.
abbrev pub kept_socket : Client → NativeSocket
kept_socket s = record { handle = decode_socket_handle s.reusable_socket_token }

-- The client after `std::move`; the moved string is left in a state that the standard does not fix.
unfoldable pub moved_from : Bytes → Client → Client
moved_from rest s = record s {
  reusable_socket_token = 0;
  has_reusable_connection = false;
  reusable_host = rest;
  reusable_port = 0;
}

-- `Client(Client&&)`: the new client and the old one.
unfoldable pub move_construct : Bytes → Client → Client × Client
move_construct rest other = (other, moved_from rest other)

module _ (sys : System) where
  open sys use {World}

  unfoldable pub close_reusable_connection : Client → World → Client × World
  close_reusable_connection s w = (
    forget_connection s,
    (if s.has_reusable_connection then NativeSocket.destroy sys (kept_socket s) w else w),
  )

  -- `~Client`
  unfoldable pub destroy : Client → World → World
  destroy s w = (close_reusable_connection s w).1

  -- `operator=(Client&&)` of two different clients: the target and the source.
  unfoldable pub move_assign : Bytes → Client → Client → World → (Client × Client) × World
  move_assign rest s other w =
      let (closed, w1) = close_reusable_connection s w in ((other, moved_from rest other), w1)

-- ===== src/Platform.antt =====
-- src/platform: sockets, on a POSIX system (the branches without `_WIN32`). The calls of the system
-- are the parameter `System`: each takes the world and gives its result and the world after it.
pub mod NativeSocket
pub mod NetworkRuntime
pub mod SocketMode
pub mod SocketIo
pub mod SocketConnect
pub mod Kernel
pub mod Quiet
pub mod Ownership
use cpp_request.Base.{ℕ, Bool, Option, List, Bytes}
use cpp_request.Error.{ℤ}

-- One result of `getaddrinfo`; `none` is a null `ai_addr`, and the address is its bytes.
pub record AddrInfo : Type 0 where
  pub ai_family : ℤ
  pub ai_socktype : ℤ
  pub ai_protocol : ℤ
  pub ai_addrlen : ℕ
  pub ai_addr : Option Bytes

-- The calls of the system and the constants of its headers. Times are in nanoseconds, the timeout of
-- `poll` is in milliseconds, the flags of a file are the bits of an `int`.
pub record System : Type 1 where
  pub World : Type 0
  -- `std::chrono::steady_clock::now()`
  pub now : World → ℕ × World
  -- the constant length of a tick of that clock, a nanosecond, in cycles of the processor; only the
  -- fuel of the loops that wait uses it
  pub tick_cycles : ℕ
  -- `errno` after a call that failed
  pub errno : World → ℤ
  -- `::socket(family, type, protocol)`
  pub socket : ℤ → ℤ → ℤ → World → ℤ × World
  -- `::close(handle)`
  pub close : ℤ → World → World
  -- `::fcntl(handle, F_GETFL, 0)` and `::fcntl(handle, F_SETFL, flags)`
  pub get_flags : ℤ → World → ℕ × World
  pub set_flags : ℤ → ℕ → World → ℤ × World
  -- `::connect(handle, address, size)`
  pub connect : ℤ → Bytes → ℕ → World → ℤ × World
  -- `::getsockopt(handle, SOL_SOCKET, SO_ERROR, …)`, and the error that it stores
  pub get_socket_error : ℤ → World → (ℤ × ℤ) × World
  -- `::poll` of one handle, for writing or for reading
  pub poll : ℤ → Bool → ℕ → World → ℤ × World
  -- `::send(handle, data, size, MSG_NOSIGNAL)`
  pub send : ℤ → Bytes → World → ℤ × World
  -- `::recv(handle, buffer, size, 0)`, and what it stores in the buffer
  pub recv : ℤ → ℕ → World → (ℤ × Bytes) × World
  -- `::getaddrinfo(host, service, hints, …)` with the hints of the resolver
  pub getaddrinfo : Bytes → Bytes → World → (ℤ × List AddrInfo) × World
  -- `ss_family` of a `sockaddr_storage` that begins with these bytes
  pub ss_family : Bytes → ℤ
  -- the constants
  pub eagain : ℤ
  pub ewouldblock : ℤ
  pub eintr : ℤ
  pub epipe : ℤ
  pub econnreset : ℤ
  pub enotconn : ℤ
  pub eshutdown : ℤ
  pub einprogress : ℤ
  pub ealready : ℤ
  pub af_unspec : ℤ
  pub af_inet : ℤ
  pub af_inet6 : ℤ
  pub sock_stream : ℤ
  pub ipproto_tcp : ℤ
  pub o_nonblock : ℕ
  pub sockaddr_storage_size : ℕ

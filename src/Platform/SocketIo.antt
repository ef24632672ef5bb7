-- ===== src/Platform/SocketIo.antt =====
-- src/platform/socket_io.hpp and src/platform/socket_io.cpp: waiting, sending and receiving.
use cpp_request.Base.{
  ℕ, ◌-◌, ◌^◌, min, Bool, true, false, ◌||◌, ◌==◌, if◌then◌else◌, Bytes, length, take,
}
use cpp_request.Error.{ℤ, pos, negsuc}
use cpp_request.Platform.{System}
use cpp_request.Platform.NativeSocket.{same_int}

pub data SocketWaitStatus : Type 0 where
  ready timed_out failed : SocketWaitStatus

pub record SocketWaitResult : Type 0 where
  pub status : SocketWaitStatus
  pub native_code : ℤ

pub record SocketIoAttempt : Type 0 where
  pub transferred : ℤ
  pub native_code : ℤ

-- The greatest `int`.
abbrev pub int_max : ℕ
int_max = 2 ^ 31 - 1

unfoldable pub bounded_io_size : ℕ → ℕ
bounded_io_size size = min size int_max

abbrev pub is_negative : ℤ → Bool
is_negative (pos n) = false
is_negative (negsuc n) = true

module _ (sys : System) where
  open sys use {
    World, errno, poll, send, recv, eagain, ewouldblock, eintr, epipe, econnreset, enotconn,
    eshutdown,
  }

  -- A timeout is its milliseconds; a negative one counts as 0.
  unfoldable pub wait_socket : ℤ → ℕ → Bool → World → SocketWaitResult × World
  wait_socket socket timeout writable w =
      if timeout == 0
      then (record { status = timed_out; native_code = pos 0 }, w)
      else (let (result, w1) = poll socket writable (min timeout int_max) w in
          if same_int result (pos 0)
          then (record { status = timed_out; native_code = pos 0 }, w1)
          else if is_negative result
          then (record { status = failed; native_code = errno w1 }, w1)
          else (record { status = ready; native_code = pos 0 }, w1))

  unfoldable pub wait_socket_readable : ℤ → ℕ → World → SocketWaitResult × World
  wait_socket_readable socket timeout w = wait_socket socket timeout false w

  unfoldable pub wait_socket_writable : ℤ → ℕ → World → SocketWaitResult × World
  wait_socket_writable socket timeout w = wait_socket socket timeout true w

  abbrev pub attempted : ℤ → World → SocketIoAttempt
  attempted result w =
      if is_negative result
      then record { transferred = negsuc 0; native_code = errno w }
      else record { transferred = result; native_code = pos 0 }

  unfoldable pub send_some : ℤ → Bytes → World → SocketIoAttempt × World
  send_some socket text w =
      let (result, w1) = send socket (take (bounded_io_size (length text)) text) w in
      (attempted result w1, w1)

  -- The attempt, with what is in the buffer after it.
  unfoldable pub receive_some : ℤ → ℕ → World → (SocketIoAttempt × Bytes) × World
  receive_some socket size w =
      let ((result, buffer), w1) = recv socket (bounded_io_size size) w in
      ((attempted result w1, buffer), w1)

  unfoldable pub socket_error_is_would_block : ℤ → Bool
  socket_error_is_would_block code = same_int code eagain || same_int code ewouldblock

  unfoldable pub socket_error_is_interrupted : ℤ → Bool
  socket_error_is_interrupted code = same_int code eintr

  unfoldable pub socket_error_is_connection_closed : ℤ → Bool
  socket_error_is_connection_closed code =
      same_int code epipe
      || same_int code econnreset
      || same_int code enotconn
      || same_int code eshutdown

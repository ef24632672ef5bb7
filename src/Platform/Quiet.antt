-- ===== src/Platform/Quiet.antt =====
-- The calls that neither open nor close a socket and hand over nothing: changing the mode of a
-- socket, waiting for it, connecting it, and receiving from it.
use cpp_request.Base.{both, ℕ, min, Bool, true, false, not, ◌==◌, Bytes}
use cpp_request.Error.{ℤ, pos}
use cpp_request.Platform.{System}
use cpp_request.Platform.NativeSocket.{same_int}
use cpp_request.Platform.SocketMode.{set_socket_nonblocking, next_flags, all_bits}
use cpp_request.Platform.SocketIo.{
  SocketWaitStatus, wait_socket, wait_socket_readable, wait_socket_writable, receive_some,
  bounded_io_size, int_max, is_negative,
}
use cpp_request.Platform.SocketConnect.{
  ConnectStatus, ConnectAttemptResult, connect_in_progress, socket_error_result, connected_blocking,
  restore_blocking, after_wait, await_connection, start_connection, connect_with_timeout,
}
use cpp_request.Platform.Kernel.{Observer, Kernel, IsQuiet, IsQuiet-refl, IsQuiet-trans}

module _ (sys : System) (o : Observer sys) (k : Kernel sys o) where
  open sys use {World}

  -- A result, with a world that is reached quietly.
  abbrev Reached {ℓ} : {A : Type ℓ} → World → A × World → Type 0
  Reached w r = IsQuiet sys o w r.1

  pub set_socket_nonblocking-IsQuiet :
      (h : ℤ) (b : Bool) (w : World) → IsQuiet sys o w (set_socket_nonblocking sys h b w).1
  unfolding set_socket_nonblocking
  set_socket_nonblocking-IsQuiet h b w =
      let (flags, w1) = sys.get_flags h w in
      let first = k.get_flags-IsQuiet h w in
      let second = IsQuiet-trans sys o first (k.set_flags-IsQuiet h (next_flags sys b flags) w1) in
      both (Reached w) (flags == all_bits) first (
        both (Reached w) (same_int (sys.set_flags h (next_flags sys b flags) w1).0 (pos 0)) second
          second)

  wait_socket-IsQuiet :
      (h : ℤ) (timeout : ℕ) (b : Bool) (w : World)
      → IsQuiet sys o w (wait_socket sys h timeout b w).1
  unfolding wait_socket
  wait_socket-IsQuiet h timeout b w =
      let (result, w1) = sys.poll h b (min timeout int_max) w in
      let waited = k.poll-IsQuiet h b (min timeout int_max) w in
      both (Reached w) (timeout == 0) (IsQuiet-refl sys o w) (
        both (Reached w) (same_int result (pos 0)) waited
          (both (Reached w) (is_negative result) waited waited))

  pub wait_socket_readable-IsQuiet :
      (h : ℤ) (timeout : ℕ) (w : World) → IsQuiet sys o w (wait_socket_readable sys h timeout w).1
  unfolding wait_socket_readable
  wait_socket_readable-IsQuiet h timeout w = wait_socket-IsQuiet h timeout false w

  pub wait_socket_writable-IsQuiet :
      (h : ℤ) (timeout : ℕ) (w : World) → IsQuiet sys o w (wait_socket_writable sys h timeout w).1
  unfolding wait_socket_writable
  wait_socket_writable-IsQuiet h timeout w = wait_socket-IsQuiet h timeout true w

  pub receive_some-IsQuiet :
      (h : ℤ) (size : ℕ) (w : World) → IsQuiet sys o w (receive_some sys h size w).1
  unfolding receive_some
  receive_some-IsQuiet h size w = k.recv-IsQuiet h (bounded_io_size size) w

  socket_error_result-IsQuiet :
      (h : ℤ) (w : World) → IsQuiet sys o w (socket_error_result sys h w).1
  unfolding socket_error_result
  socket_error_result-IsQuiet h w =
      let ((result, error), w1) = sys.get_socket_error h w in
      let asked = k.get_socket_error-IsQuiet h w in
      both (Reached w) (not (same_int result (pos 0))) asked
        (both (Reached w) (same_int error (pos 0)) asked asked)

  connected_blocking-IsQuiet : (h : ℤ) (w : World) → IsQuiet sys o w (connected_blocking sys h w).1
  unfolding connected_blocking
  connected_blocking-IsQuiet h w =
      let ((done, code), w1) = set_socket_nonblocking sys h false w in
      let set = set_socket_nonblocking-IsQuiet h false w in both (Reached w) (not done) set set

  restore_blocking-IsQuiet :
      (r : ConnectAttemptResult) (s : ConnectStatus) (h : ℤ) (w : World)
      → IsQuiet sys o w (restore_blocking sys r s h w).1
  unfolding restore_blocking
  restore_blocking-IsQuiet r ConnectStatus.connected h w = connected_blocking-IsQuiet h w
  restore_blocking-IsQuiet r ConnectStatus.failed h w = IsQuiet-refl sys o w
  restore_blocking-IsQuiet r ConnectStatus.timed_out h w = IsQuiet-refl sys o w

  after_wait-IsQuiet :
      (s : SocketWaitStatus) (code : ℤ) (h : ℤ) (w : World)
      → IsQuiet sys o w (after_wait sys s code h w).1
  unfolding after_wait
  after_wait-IsQuiet SocketWaitStatus.timed_out code h w = IsQuiet-refl sys o w
  after_wait-IsQuiet SocketWaitStatus.failed code h w = IsQuiet-refl sys o w
  after_wait-IsQuiet SocketWaitStatus.ready code h w =
      let (result, w1) = socket_error_result sys h w in
      IsQuiet-trans sys o (socket_error_result-IsQuiet h w)
        (restore_blocking-IsQuiet result result.status h w1)

  await_connection-IsQuiet :
      (h : ℤ) (timeout : ℕ) (w : World) → IsQuiet sys o w (await_connection sys h timeout w).1
  unfolding await_connection
  await_connection-IsQuiet h timeout w =
      let (wait, w1) = wait_socket_writable sys h timeout w in
      both (Reached w) (not (connect_in_progress sys (sys.errno w))) (IsQuiet-refl sys o w) (
        IsQuiet-trans sys o (wait_socket_writable-IsQuiet h timeout w)
          (after_wait-IsQuiet wait.status wait.native_code h w1))

  start_connection-IsQuiet :
      (h : ℤ) (address : Bytes) (size timeout : ℕ) (w : World)
      → IsQuiet sys o w (start_connection sys h address size timeout w).1
  unfolding start_connection
  start_connection-IsQuiet h address size timeout w =
      let (result, w1) = sys.connect h address size w in
      let asked = k.connect-IsQuiet h address size w in
      both (Reached w) (same_int result (pos 0))
        (IsQuiet-trans sys o asked (connected_blocking-IsQuiet h w1))
        (IsQuiet-trans sys o asked (await_connection-IsQuiet h timeout w1))

  pub connect_with_timeout-IsQuiet :
      (h : ℤ) (address : Bytes) (size timeout : ℕ) (w : World)
      → IsQuiet sys o w (connect_with_timeout sys h address size timeout w).1
  unfolding connect_with_timeout
  connect_with_timeout-IsQuiet h address size timeout w =
      let ((done, code), w1) = set_socket_nonblocking sys h true w in
      let set = set_socket_nonblocking-IsQuiet h true w in
      both (Reached w) (timeout == 0) (IsQuiet-refl sys o w) (
        both (Reached w) (not done) set
          (IsQuiet-trans sys o set (start_connection-IsQuiet h address size timeout w1)))

-- ===== src/Platform/SocketConnect.antt =====
-- src/platform/socket_connect.hpp and src/platform/socket_connect.cpp: creating and connecting a
-- socket, with `MSG_NOSIGNAL` defined, so that `SO_NOSIGPIPE` is not set.
use cpp_request.Base.{ℕ, Bool, true, false, not, ◌||◌, ◌==◌, if◌then◌else◌, Bytes}
use cpp_request.Error.{ℤ, pos}
use cpp_request.Platform.{System}
use cpp_request.Platform.NativeSocket.{NativeSocket, no_socket, invalid_socket, same_int}
use cpp_request.Platform.SocketMode.{set_socket_nonblocking}
use cpp_request.Platform.SocketIo.{wait_socket_writable, SocketWaitStatus}

pub data ConnectStatus : Type 0 where
  connected failed timed_out : ConnectStatus

pub record ConnectAttemptResult : Type 0 where
  pub status : ConnectStatus
  pub native_code : ℤ

abbrev pub attempt : ConnectStatus → ℤ → ConnectAttemptResult
attempt s c = record { status = s; native_code = c }

module _ (sys : System) where
  open sys use {World, errno, socket, get_socket_error, ewouldblock, einprogress, ealready}

  unfoldable pub connect_in_progress : ℤ → Bool
  connect_in_progress code =
      same_int code einprogress || same_int code ewouldblock || same_int code ealready

  unfoldable pub socket_error_result : ℤ → World → ConnectAttemptResult × World
  socket_error_result handle w =
      let ((result, error), w1) = get_socket_error handle w in
      if not (same_int result (pos 0))
      then (attempt failed (errno w1), w1)
      else if same_int error (pos 0)
      then (attempt connected (pos 0), w1)
      else (attempt failed error, w1)

  -- The socket and the `native_code`.
  unfoldable pub create_tcp_socket : ℤ → ℤ → ℤ → World → (NativeSocket × ℤ) × World
  create_tcp_socket family socket_type protocol w =
      let (handle, w1) = socket family socket_type protocol w in
      if same_int handle invalid_socket
      then ((no_socket, errno w1), w1)
      else ((record { handle = handle }, pos 0), w1)

  -- `if (!set_socket_nonblocking(socket, false, native_code)) …`, and the given result.
  unfoldable pub connected_blocking : ℤ → World → ConnectAttemptResult × World
  connected_blocking handle w =
      let ((done, code), w1) = set_socket_nonblocking sys handle false w in
      if not done then (attempt failed code, w1) else (attempt connected (pos 0), w1)

  unfoldable pub restore_blocking :
      ConnectAttemptResult → ConnectStatus → ℤ → World → ConnectAttemptResult × World
  restore_blocking result connected handle w = connected_blocking handle w
  restore_blocking result failed handle w = (result, w)
  restore_blocking result timed_out handle w = (result, w)

  -- Behind the wait.
  unfoldable pub after_wait : SocketWaitStatus → ℤ → ℤ → World → ConnectAttemptResult × World
  after_wait SocketWaitStatus.timed_out code handle w = (attempt timed_out code, w)
  after_wait SocketWaitStatus.failed code handle w = (attempt failed code, w)
  after_wait SocketWaitStatus.ready code handle w =
      let (result, w1) = socket_error_result handle w in
      restore_blocking result result.status handle w1

  -- Behind a `connect` that did not succeed at once.
  unfoldable pub await_connection : ℤ → ℕ → World → ConnectAttemptResult × World
  await_connection handle timeout w =
      if not (connect_in_progress (errno w))
      then (attempt failed (errno w), w)
      else (let (wait, w1) = wait_socket_writable sys handle timeout w in
          after_wait wait.status wait.native_code handle w1)

  -- Behind the change to non-blocking.
  unfoldable pub start_connection : ℤ → Bytes → ℕ → ℕ → World → ConnectAttemptResult × World
  start_connection handle address address_size timeout w =
      let (result, w1) = sys.connect handle address address_size w in
      if same_int result (pos 0)
      then connected_blocking handle w1
      else await_connection handle timeout w1

  unfoldable pub connect_with_timeout : ℤ → Bytes → ℕ → ℕ → World → ConnectAttemptResult × World
  connect_with_timeout handle address address_size timeout w =
      if timeout == 0
      then (attempt timed_out (pos 0), w)
      else (let ((done, code), w1) = set_socket_nonblocking sys handle true w in
          if not done
          then (attempt failed code, w1)
          else start_connection handle address address_size timeout w1)

-- ===== src/Net/TcpConnection/Reading.antt =====
-- src/net/tcp_connection.cpp: `TcpConnection::read_some`. A buffer that is not null is the bytes
-- that `recv` stores in it; the result is their count, with those bytes.
use cpp_request.Base.{
  ℕ, ◌+◌, ◌*◌, Bool, true, false, not, ◌==◌, leb, if◌then◌else◌, Option, some, [], Bytes, take,
}
use cpp_request.Base.Loop.{Step, next, stop, loop}
use cpp_request.Error.{ℤ, pos, negsuc, error, ok, err, connection_closed, read_failed, read_timeout}
use cpp_request.Platform.{System}
use cpp_request.Platform.SocketMode.{set_socket_nonblocking}
use cpp_request.Platform.SocketIo.{receive_some}
use cpp_request.Net.TcpConnection.{
  TcpConnection, Done, connected, close_with, milliseconds, nanoseconds, native_error,
}
use cpp_request.Net.TcpConnection.Waiting.{Waited, retry, give_up, Side, after_failure}

abbrev pub read_side : Side
read_side = record { writable = false; timeout_code = read_timeout; failed_code = read_failed }

-- The count, and the first bytes of the buffer.
pub record Received : Type 0 where
  pub count : ℕ
  pub bytes : Bytes

module _ (sys : System) where
  open sys use {World, now, tick_cycles}

  abbrev pub Read : Type 0
  Read = Done World Received

  abbrev pub ReadStep : Type 0
  ReadStep = Step World Read

  -- Behind a `recv` of at least one byte.
  unfoldable pub finish_read : TcpConnection → ℕ → Bytes → World → Read
  finish_read c n buffer w =
      let ((set, code), w1) = set_socket_nonblocking sys c.socket.handle false w in
      if not set then close_with sys c (native_error read_failed code) w1 else record {
        connection = c;
        world = w1;
        result = ok (record { count = n; bytes = take n buffer });
      }

  abbrev pub retry_read : Waited World → ReadStep
  retry_read (retry w) = next w
  retry_read (give_up c e w) = stop (record { connection = c; world = w; result = err e })

  -- Behind `receive_some`, by what it transferred.
  unfoldable pub received : ℕ → TcpConnection → ℤ → ℤ → Bytes → World → ReadStep
  received deadline c (pos n) code buffer w =
      if n == 0
      then stop (close_with sys c (error connection_closed) w)
      else stop (finish_read c n buffer w)
  received deadline c (negsuc n) code buffer w =
      retry_read (after_failure sys read_side deadline c code w)

  -- The body of the loop.
  unfoldable pub step_read : ℕ → TcpConnection → ℕ → World → ReadStep
  step_read deadline c capacity w =
      let (t, w1) = now w in
      if leb deadline t
      then stop (close_with sys c (error read_timeout) w1)
      else (let ((attempt, buffer), w2) = receive_some sys c.socket.handle capacity w1 in
          received deadline c attempt.transferred attempt.native_code buffer w2)

  -- The loop, with the cycles of the processor in the timeout as its fuel.
  unfoldable pub read_loop : ℕ → TcpConnection → ℕ → World → Option Read
  read_loop timeout c capacity w =
      let (t, w1) = now w in
      loop (nanoseconds timeout * tick_cycles + 1) (step_read (t + nanoseconds timeout) c capacity)
        w1

  -- Behind the tests on the arguments.
  unfoldable pub start_read : ℕ → TcpConnection → ℕ → World → Option Read
  start_read timeout c capacity w =
      let ((set, code), w1) = set_socket_nonblocking sys c.socket.handle true w in
      if not set
      then some (close_with sys c (native_error read_failed code) w1)
      else read_loop timeout c capacity w1

  unfoldable pub read_some : TcpConnection → Bool → ℕ → ℤ → World → Option Read
  read_some c null_buffer capacity timeout w =
      if not (connected c)
      then some (record { connection = c; world = w; result = err (error connection_closed) })
      else if capacity == 0
      then some
          (record { connection = c; world = w; result = ok (record { count = 0; bytes = [] }) })
      else if null_buffer
      then some (record { connection = c; world = w; result = err (error read_failed) })
      else if milliseconds timeout == 0
      then some (close_with sys c (error read_timeout) w)
      else start_read (milliseconds timeout) c capacity w

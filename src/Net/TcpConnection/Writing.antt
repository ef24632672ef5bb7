-- ===== src/Net/TcpConnection/Writing.antt =====
-- src/net/tcp_connection.cpp: `TcpConnection::write_all`.
use cpp_request.Base.{
  ℕ, ◌+◌, ◌*◌, true, false, not, ◌==◌, leb, ltb, if◌then◌else◌, Option, some, Bytes, length, drop,
  is_empty,
}
use cpp_request.Base.Loop.{Step, next, stop, loop}
use cpp_request.Error.{
  ℤ, pos, negsuc, error, ok, err, connection_closed, write_failed, write_timeout,
}
use cpp_request.Platform.{System}
use cpp_request.Platform.SocketMode.{set_socket_nonblocking}
use cpp_request.Platform.SocketIo.{send_some}
use cpp_request.Net.TcpConnection.{
  TcpConnection, Done, connected, close_with, milliseconds, nanoseconds, native_error,
}
use cpp_request.Net.TcpConnection.Waiting.{Waited, retry, give_up, Side, after_failure}

abbrev pub write_side : Side
write_side = record { writable = true; timeout_code = write_timeout; failed_code = write_failed }

-- The variables of the loop.
pub record Writing (W : Type 0) : Type 0 where
  pub total_written : ℕ
  pub world : W

module _ (sys : System) where
  open sys use {World, now, tick_cycles}

  abbrev pub Written : Type 0
  Written = Done World ℕ

  abbrev pub WriteStep : Type 0
  WriteStep = Step (Writing World) Written

  -- Behind the loop.
  unfoldable pub finish_write : TcpConnection → ℕ → World → Written
  finish_write c total_written w =
      let ((set, code), w1) = set_socket_nonblocking sys c.socket.handle false w in
      if not set
      then close_with sys c (native_error write_failed code) w1
      else record { connection = c; world = w1; result = ok total_written }

  abbrev pub retry_write : ℕ → Waited World → WriteStep
  retry_write total_written (retry w) = next (record { total_written = total_written; world = w })
  retry_write total_written (give_up c e w) =
      stop (record { connection = c; world = w; result = err e })

  -- Behind `send_some`, by what it transferred.
  unfoldable pub sent : ℕ → TcpConnection → ℕ → ℤ → ℤ → World → WriteStep
  sent deadline c total_written (pos n) code w =
      if n == 0
      then stop (close_with sys c (error connection_closed) w)
      else next (record { total_written = total_written + n; world = w })
  sent deadline c total_written (negsuc n) code w =
      retry_write total_written (after_failure sys write_side deadline c code w)

  -- The body of the loop, with its test.
  unfoldable pub step_write : ℕ → TcpConnection → Bytes → Writing World → WriteStep
  step_write deadline c text s =
      if not (ltb s.total_written (length text))
      then stop (finish_write c s.total_written s.world)
      else (let (t, w1) = now s.world in
          if leb deadline t
          then stop (close_with sys c (error write_timeout) w1)
          else (let (attempt, w2) = send_some sys c.socket.handle (drop s.total_written text) w1 in
              sent deadline c s.total_written attempt.transferred attempt.native_code w2))

  -- The loop, with the cycles of the processor in the timeout as its fuel.
  unfoldable pub write_loop : ℕ → TcpConnection → Bytes → World → Option Written
  write_loop timeout c text w =
      let (t, w1) = now w in
      loop (nanoseconds timeout * tick_cycles + 1) (step_write (t + nanoseconds timeout) c text)
        (record { total_written = 0; world = w1 })

  -- Behind the tests on the arguments.
  unfoldable pub start_write : ℕ → TcpConnection → Bytes → World → Option Written
  start_write timeout c text w =
      let ((set, code), w1) = set_socket_nonblocking sys c.socket.handle true w in
      if not set
      then some (close_with sys c (native_error write_failed code) w1)
      else write_loop timeout c text w1

  unfoldable pub write_all : TcpConnection → Bytes → ℤ → World → Option Written
  write_all c text timeout w =
      if not (connected c)
      then some (record { connection = c; world = w; result = err (error connection_closed) })
      else if is_empty text
      then some (record { connection = c; world = w; result = ok 0 })
      else if milliseconds timeout == 0
      then some (close_with sys c (error write_timeout) w)
      else start_write (milliseconds timeout) c text w

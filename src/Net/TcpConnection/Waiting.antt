-- ===== src/Net/TcpConnection/Waiting.antt =====
-- src/net/tcp_connection.cpp: what the loops of `write_all` and of `read_some` do behind a `send` or
-- a `recv` that failed. They differ in the side they wait for and in two error codes.
use cpp_request.Base.{ℕ, Bool, not, ◌==◌, if◌then◌else◌}
use cpp_request.Error.{ℤ, ErrorCode, Error, error, connection_closed}
use cpp_request.Platform.{System}
use cpp_request.Platform.SocketIo.{
  SocketWaitStatus, SocketWaitResult, wait_socket_readable, wait_socket_writable,
  socket_error_is_would_block, socket_error_is_interrupted, socket_error_is_connection_closed,
}
use cpp_request.Net.TcpConnection.{TcpConnection, close, native_error, remaining_timeout}

-- Another round, or the end: the connection after its `close`, and the error.
pub data Waited (W : Type 0) : Type 0 where
  retry : W → Waited W
  give_up : TcpConnection → Error → W → Waited W

-- The parts that differ.
pub record Side : Type 0 where
  pub writable : Bool
  pub timeout_code : ErrorCode
  pub failed_code : ErrorCode

module _ (sys : System) where
  open sys use {World}

  unfoldable pub closing : TcpConnection → Error → World → Waited World
  closing c e w = let (closed, w1) = close sys c w in give_up closed e w1

  unfoldable pub wait_for : Side → ℤ → ℕ → World → SocketWaitResult × World
  wait_for side handle timeout w =
      if side.writable
      then wait_socket_writable sys handle timeout w
      else wait_socket_readable sys handle timeout w

  -- Behind the wait.
  unfoldable pub judge_wait : Side → TcpConnection → SocketWaitStatus → ℤ → World → Waited World
  judge_wait side c SocketWaitStatus.ready code w = retry w
  judge_wait side c SocketWaitStatus.timed_out code w =
      closing c (native_error side.timeout_code code) w
  judge_wait side c SocketWaitStatus.failed code w =
      if socket_error_is_interrupted sys code
      then retry w
      else if socket_error_is_connection_closed sys code
      then closing c (native_error connection_closed code) w
      else closing c (native_error side.failed_code code) w

  -- Behind the test that the error is `would_block`.
  unfoldable pub wait_until : Side → ℕ → TcpConnection → World → Waited World
  wait_until side deadline c w =
      let (remaining, w1) = remaining_timeout sys deadline w in
      if remaining == 0
      then closing c (error side.timeout_code) w1
      else (let (wait, w2) = wait_for side c.socket.handle remaining w1 in
          judge_wait side c wait.status wait.native_code w2)

  unfoldable pub after_failure : Side → ℕ → TcpConnection → ℤ → World → Waited World
  after_failure side deadline c native_code w =
      if socket_error_is_interrupted sys native_code
      then retry w
      else if socket_error_is_connection_closed sys native_code
      then closing c (native_error connection_closed native_code) w
      else if not (socket_error_is_would_block sys native_code)
      then closing c (native_error side.failed_code native_code) w
      else wait_until side deadline c w

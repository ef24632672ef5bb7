-- ===== src/Net/TcpConnection/Closing.antt =====
-- How `write_all` and `read_some` close a connection: what is left at each of their errors.
use cpp_request.Base.{both, ℕ, ◌≡◌, refl, ◌∙◌, ap, true, not, ◌==◌}
use cpp_request.Error.{ℤ, Error, error, connection_closed, err}
use cpp_request.Platform.{System}
use cpp_request.Platform.SocketIo.{
  SocketWaitStatus, SocketWaitResult, socket_error_is_interrupted,
  socket_error_is_connection_closed, socket_error_is_would_block,
}
use cpp_request.Platform.Kernel.{
  Observer, Kernel, IsQuiet, IsCalm, erase, IsQuiet-refl, IsQuiet-trans, IsCalm-trans,
}
use cpp_request.Platform.Quiet.{wait_socket_readable-IsQuiet, wait_socket_writable-IsQuiet}
use cpp_request.Platform.Ownership.{close_valid}
use cpp_request.Net.TcpConnection.{
  TcpConnection, no_connection, close, close_with, connected, native_error, remaining_timeout,
}
use cpp_request.Net.TcpConnection.Waiting.{
  Waited, retry, give_up, Side, closing, wait_for, judge_wait, wait_until, after_failure,
}

module _ (sys : System) (o : Observer sys) (k : Kernel sys o) where
  open sys use {World}
  open o use {opened}

  -- The connection is closed, and so is its socket; nothing is handed over meanwhile.
  abbrev pub HasClosed : TcpConnection → World → TcpConnection → World → Type 0
  HasClosed c w c' w' =
      (c' ≡ no_connection) × ((opened w' ≡ erase c.socket.handle (opened w)) × IsCalm sys o w w')

  close_eq :
      (c : TcpConnection) (w : World)
      → connected c ≡ true
      → close sys c w ≡ (no_connection, sys.close c.socket.handle w)
  unfolding close connected
  close_eq c w v = rw (close_valid sys c.socket w v)

  pub close-HasClosed :
      (c : TcpConnection) (w : World)
      → connected c ≡ true
      → let (c', w') = close sys c w in HasClosed c w c' w'
  close-HasClosed c w v =
      rw (close_eq c w v)
        (refl, (k.close-opened c.socket.handle w, k.close-IsCalm c.socket.handle w))

  pub closed_after :
      (c : TcpConnection) {c' : TcpConnection} {w w1 w2 : World}
      → IsQuiet sys o w w1
      → HasClosed c w1 c' w2
      → HasClosed c w c' w2
  closed_after c (e, q) (a, (b, d)) =
      (a, (b ∙ ap (erase c.socket.handle) e, IsCalm-trans sys o q d))

  -- A new round, or an end after a failure.
  abbrev pub HasWaited : TcpConnection → World → Waited World → Type 0
  HasWaited c w (retry w') = IsQuiet sys o w w'
  HasWaited c w (give_up c' e w') = HasClosed c w c' w'

  pub waited_after :
      (c : TcpConnection) {w w1 : World} (r : Waited World)
      → IsQuiet sys o w w1
      → HasWaited c w1 r
      → HasWaited c w r
  waited_after c (retry w') q h = IsQuiet-trans sys o q h
  waited_after c (give_up c' e w') q h = closed_after c q h

  closing-HasWaited :
      (c : TcpConnection) (e : Error) (w : World)
      → connected c ≡ true
      → HasWaited c w (closing sys c e w)
  unfolding closing
  closing-HasWaited c e w v = close-HasClosed c w v

  wait_for-IsQuiet :
      (side : Side) (h : ℤ) (timeout : ℕ) (w : World)
      → IsQuiet sys o w (wait_for sys side h timeout w).1
  unfolding wait_for
  wait_for-IsQuiet side h timeout w =
      both (λ (r : SocketWaitResult × World). IsQuiet sys o w r.1) side.writable
        (wait_socket_writable-IsQuiet sys o k h timeout w)
        (wait_socket_readable-IsQuiet sys o k h timeout w)

  judge_wait-HasWaited :
      (side : Side) (c : TcpConnection) (status : SocketWaitStatus) (code : ℤ) (w : World)
      → connected c ≡ true
      → HasWaited c w (judge_wait sys side c status code w)
  unfolding judge_wait
  judge_wait-HasWaited side c SocketWaitStatus.ready code w v = IsQuiet-refl sys o w
  judge_wait-HasWaited side c SocketWaitStatus.timed_out code w v =
      closing-HasWaited c (native_error side.timeout_code code) w v
  judge_wait-HasWaited side c SocketWaitStatus.failed code w v =
      both (HasWaited c w) (socket_error_is_interrupted sys code) (IsQuiet-refl sys o w) (
        both (HasWaited c w) (socket_error_is_connection_closed sys code)
          (closing-HasWaited c (native_error connection_closed code) w v)
          (closing-HasWaited c (native_error side.failed_code code) w v))

  wait_until-HasWaited :
      (side : Side) (deadline : ℕ) (c : TcpConnection) (w : World)
      → connected c ≡ true
      → HasWaited c w (wait_until sys side deadline c w)
  unfolding wait_until remaining_timeout closing
  wait_until-HasWaited side deadline c w v =
      let (remaining, w1) = remaining_timeout sys deadline w in
      let asked = k.now-IsQuiet w in
      let (wait, w2) = wait_for sys side c.socket.handle remaining w1 in
      let waited = IsQuiet-trans sys o asked (wait_for-IsQuiet side c.socket.handle remaining w1) in
      both (HasWaited c w) (remaining == 0)
        (closed_after c asked (closing-HasWaited c (error side.timeout_code) w1 v))
        (waited_after c (judge_wait sys side c wait.status wait.native_code w2) waited
          (judge_wait-HasWaited side c wait.status wait.native_code w2 v))

  -- Behind a `send` or a `recv` that failed, there is a new round with the same open sockets, or the
  -- connection is closed.
  pub after_failure-HasWaited :
      (side : Side) (deadline : ℕ) (c : TcpConnection) (code : ℤ) (w : World)
      → connected c ≡ true
      → HasWaited c w (after_failure sys side deadline c code w)
  unfolding after_failure
  after_failure-HasWaited side deadline c code w v =
      both (HasWaited c w) (socket_error_is_interrupted sys code) (IsQuiet-refl sys o w) (
        both (HasWaited c w) (socket_error_is_connection_closed sys code)
          (closing-HasWaited c (native_error connection_closed code) w v)
          (both (HasWaited c w) (not (socket_error_is_would_block sys code))
            (closing-HasWaited c (native_error side.failed_code code) w v)
            (wait_until-HasWaited side deadline c w v)))

  pub close_with-HasClosed :
      {A : Type 0} (c : TcpConnection) (e : Error) (w : World)
      → connected c ≡ true
      → let d = close_with sys {A = A} c e w in
        HasClosed c w d.connection d.world × (d.result ≡ err e)
  unfolding close_with
  close_with-HasClosed c e w v = (close-HasClosed c w v, refl)

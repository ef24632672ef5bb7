-- ===== src/Net/TcpConnection/Receipt.antt =====
-- `TcpConnection::read_some`: what it gives, and what is left of the connection.
use cpp_request.Base.{
  both, both_with, Yields, yields, yielded, ℕ, ◌+◌, ◌*◌, ◌≤◌, ◌<◌, ◌≡◌, refl, true, false, not,
  ◌==◌, leb, some, Bytes, length, min, arith, length-take,
}
use cpp_request.Base.Loop.{After, loop_inv}
use cpp_request.Error.{
  ℤ, pos, negsuc, Error, error, Result, ok, err, read_timeout, connection_closed, read_failed,
}
use cpp_request.Platform.{System}
use cpp_request.Platform.SocketMode.{set_socket_nonblocking}
use cpp_request.Platform.SocketIo.{receive_some, attempted, bounded_io_size, int_max}
use cpp_request.Platform.Kernel.{
  Observer, Kernel, IsQuiet, HasReceived, IsQuiet-refl, IsQuiet-trans,
}
use cpp_request.Platform.Quiet.{set_socket_nonblocking-IsQuiet}
use cpp_request.Net.TcpConnection.{
  TcpConnection, close_with, connected, native_error, nanoseconds, milliseconds,
}
use cpp_request.Net.TcpConnection.Waiting.{Waited, retry, give_up, after_failure}
use cpp_request.Net.TcpConnection.Reading.{
  read_side, Received, Read, ReadStep, finish_read, retry_read, received, step_read, read_loop,
  start_read, read_some,
}
use cpp_request.Net.TcpConnection.Closing.{
  HasClosed, HasWaited, after_failure-HasWaited, close_with-HasClosed, closed_after, waited_after,
}

module _ (sys : System) (o : Observer sys) (k : Kernel sys o) (c : TcpConnection)
    (capacity : ℕ) where
  open sys use {World}

  -- The end of a read, from the world of its beginning: bytes that fit the buffer, and the connection
  -- as before, or an error, and the connection and its socket are closed.
  abbrev pub ReadAs : World → TcpConnection → World → Result Received → Type 0
  ReadAs w c' w' (ok r) =
      (c' ≡ c)
      × (IsQuiet sys o w w' × ((0 < r.count) × ((r.count ≤ capacity) × (length r.bytes ≡ r.count))))
  ReadAs w c' w' (err e) = HasClosed sys o k c w c' w'

  abbrev pub HasRead : World → Read sys → Type 0
  HasRead w d = ReadAs w d.connection d.world d.result

  read_close_with :
      (w w1 : World) (e : Error)
      → connected c ≡ true
      → IsQuiet sys o w w1
      → HasRead w (close_with sys c e w1)
  unfolding close_with
  read_close_with w w1 e v q =
      closed_after sys o k c q (close_with-HasClosed sys o k {A = Received} c e w1 v).0

  finish_read-HasRead :
      (w : World) (n : ℕ) (buffer : Bytes) (w1 : World)
      → connected c ≡ true
      → IsQuiet sys o w w1
      → 0 < n
      → n ≤ capacity
      → n ≤ length buffer
      → HasRead w (finish_read sys c n buffer w1)
  unfolding finish_read
  finish_read-HasRead w n buffer w1 v q some_bytes fits stored =
      let ((set, code), w2) = set_socket_nonblocking sys c.socket.handle false w1 in
      let q2 =
        IsQuiet-trans sys o q (set_socket_nonblocking-IsQuiet sys o k c.socket.handle false w1) in
      both (HasRead w) (not set) (read_close_with w w2 (native_error read_failed code) v q2)
        (refl, (q2, (some_bytes, (fits, omega (arith, length-take n buffer)))))

  abbrev StepRead : World → ReadStep sys → Type 0
  StepRead w = After (IsQuiet sys o w) (HasRead w)

  retry_read-StepRead :
      (w : World) (r : Waited World) → HasWaited sys o k c w r → StepRead w (retry_read sys r)
  retry_read-StepRead w (retry w1) h = h
  retry_read-StepRead w (give_up c' e w1) h = h

  received-StepRead :
      (w : World) (deadline size : ℕ) (r : ℤ) (buffer : Bytes) (w1 : World)
      → connected c ≡ true
      → IsQuiet sys o w w1
      → size ≤ capacity
      → HasReceived sys o size r buffer
      → let a = attempted sys r w1 in
        StepRead w (received sys deadline c a.transferred a.native_code buffer w1)
  unfolding received
  received-StepRead w deadline size (pos n) buffer w1 v q le (fits, stored) =
      both_with (StepRead w) (n == 0) (λ b. read_close_with w w1 (error connection_closed) v q)
        (λ b. finish_read-HasRead w n buffer w1 v q (ground arith) (omega arith) stored)
  received-StepRead w deadline size (negsuc n) buffer w1 v q le h =
      retry_read-StepRead w (after_failure sys read_side deadline c (sys.errno w1) w1) (
        waited_after sys o k c _ q
          (after_failure-HasWaited sys o k read_side deadline c (sys.errno w1) w1 v))

  step_read-StepRead :
      (w : World) (deadline : ℕ) (w1 : World)
      → connected c ≡ true
      → IsQuiet sys o w w1
      → StepRead w (step_read sys deadline c capacity w1)
  unfolding step_read receive_some bounded_io_size
  step_read-StepRead w deadline w1 v q =
      let (t, w2) = sys.now w1 in
      let q2 = IsQuiet-trans sys o q (k.now-IsQuiet w1) in
      let h = c.socket.handle in
      let size = min capacity int_max in
      let ((result, buffer), w3) = sys.recv h size w2 in
      both (StepRead w) (leb deadline t) (read_close_with w w2 (error read_timeout) v q2) (
        received-StepRead w deadline size result buffer w3 v
          (IsQuiet-trans sys o q2 (k.recv-IsQuiet h size w2)) (omega arith)
          (k.recv-HasReceived h size w2))

  read_loop-HasRead :
      (w : World) (timeout : ℕ) (w1 : World)
      → connected c ≡ true
      → IsQuiet sys o w w1
      → Yields (HasRead w) (read_loop sys timeout c capacity w1)
  unfolding read_loop
  read_loop-HasRead w timeout w1 v q =
      let (t, w2) = sys.now w1 in
      yields (HasRead w) _ (λ d.
        loop_inv (IsQuiet sys o w) (HasRead w) (step_read sys (t + nanoseconds timeout) c capacity)
          (λ w3 p. step_read-StepRead w (t + nanoseconds timeout) w3 v p)
          (nanoseconds timeout * sys.tick_cycles + 1) w2 (IsQuiet-trans sys o q (k.now-IsQuiet w1)))

  start_read-HasRead :
      (w : World) (timeout : ℕ)
      → connected c ≡ true
      → Yields (HasRead w) (start_read sys timeout c capacity w)
  unfolding start_read
  start_read-HasRead w timeout v =
      let ((set, code), w1) = set_socket_nonblocking sys c.socket.handle true w in
      let q = set_socket_nonblocking-IsQuiet sys o k c.socket.handle true w in
      both (Yields (HasRead w)) (not set) (read_close_with w w1 (native_error read_failed code) v q)
        (read_loop-HasRead w timeout w1 v q)

  no_room : {n : ℕ} → (n == 0) ≡ true → 0 < n → ⊥
  no_room b h = ground arith

  -- Under the laws of the system calls, on a connected socket, into a buffer that is not null and
  -- has room: a `read_some` that succeeds gives at least one byte and no more than fit, and leaves
  -- the connection, the open sockets and what was handed over as they were. One that fails has
  -- closed the connection and its socket, and no other.
  pub read_some-HasRead :
      (timeout : ℤ) (w : World) (d : Read sys)
      → connected c ≡ true
      → 0 < capacity
      → read_some sys c false capacity timeout w ≡ some d
      → HasRead w d
  unfolding read_some
  read_some-HasRead timeout w d v room = yielded (HasRead w) d (
      rw v (
        both_with (Yields (HasRead w)) (capacity == 0) (λ b. absurd (no_room b room))
          (λ b.
            both (Yields (HasRead w)) (milliseconds timeout == 0)
              (read_close_with w w (error read_timeout) v (IsQuiet-refl sys o w))
              (start_read-HasRead w (milliseconds timeout) v))))

-- ===== src/Net/TcpConnection/Delivery.antt =====
-- `TcpConnection::write_all`: what is handed over to the system, and what is left of the connection.
use cpp_request.Base.{
  both, both_with, Yields, yields, yielded, empty_is_nil, ℕ, ◌+◌, ◌*◌, ◌≤◌, ◌≡◌, refl, sym, ap, ◌∙◌,
  true, false, not, ◌==◌, inl, inr, leb, ltb, some, ◌++◌, append-nil, append_assoc, Bytes, length,
  take, drop, is_empty, arith, Bool-cases, length-take, length-drop, take-add, take-take_of_le,
  take_all,
}
use cpp_request.Base.Loop.{After, loop_inv}
use cpp_request.Error.{
  ℤ, pos, negsuc, Error, error, Result, ok, err, write_timeout, connection_closed, write_failed,
}
use cpp_request.Platform.{System}
use cpp_request.Platform.SocketMode.{set_socket_nonblocking}
use cpp_request.Platform.SocketIo.{send_some, attempted, bounded_io_size}
use cpp_request.Platform.Kernel.{Observer, Kernel, IsQuiet, HasSent, erase, IsQuiet-refl}
use cpp_request.Platform.Quiet.{set_socket_nonblocking-IsQuiet}
use cpp_request.Net.TcpConnection.{
  TcpConnection, no_connection, close_with, connected, native_error, nanoseconds, milliseconds,
}
use cpp_request.Net.TcpConnection.Waiting.{Waited, retry, give_up, after_failure}
use cpp_request.Net.TcpConnection.Writing.{
  write_side, Writing, Written, WriteStep, finish_write, retry_write, sent, step_write, write_loop,
  start_write, write_all,
}
use cpp_request.Net.TcpConnection.Closing.{
  HasClosed, HasWaited, after_failure-HasWaited, close_with-HasClosed,
}

module _ (sys : System) (o : Observer sys) (k : Kernel sys o) (c : TcpConnection)
    (text : Bytes) where
  open sys use {World}
  open o use {opened, output}

  -- The first `n` bytes were handed over since a world, and no socket was opened or closed.
  abbrev pub HasHanded : World → ℕ → World → Type 0
  HasHanded w n w' =
      (output c.socket.handle w' ≡ output c.socket.handle w ++ take n text) × (n ≤ length text)

  abbrev IsWriting : World → Writing World → Type 0
  IsWriting w s = (opened s.world ≡ opened w) × HasHanded w s.total_written s.world

  -- The end of a write, from the world of its beginning: all was handed over and the connection is
  -- as before, or a part of it at the front was, and the connection and its socket are closed.
  abbrev pub WrittenAs : World → TcpConnection → World → Result ℕ → Type 0
  WrittenAs w c' w' (ok n) =
      (n ≡ length text)
      × ((c' ≡ c)
          × ((opened w' ≡ opened w)
              × (output c.socket.handle w' ≡ output c.socket.handle w ++ text)))
  WrittenAs w c' w' (err e) =
      (c' ≡ no_connection)
      × ((opened w' ≡ erase c.socket.handle (opened w)) × ((n : ℕ) × HasHanded w n w'))

  abbrev pub HasWritten : World → Written sys → Type 0
  HasWritten w d = WrittenAs w d.connection d.world d.result

  IsWriting-after :
      (w : World) {n : ℕ} {w1 w2 : World}
      → IsWriting w (record { total_written = n; world = w1 })
      → IsQuiet sys o w1 w2
      → IsWriting w (record { total_written = n; world = w2 })
  IsWriting-after w (e, (f, le)) (a, (b, q)) = (a ∙ e, (b c.socket.handle ∙ f, le))

  written_closed :
      (w : World) {n : ℕ} {w1 w2 : World} {c' : TcpConnection} (e : Error)
      → IsWriting w (record { total_written = n; world = w1 })
      → HasClosed sys o k c w1 c' w2
      → WrittenAs w c' w2 (err e)
  written_closed w {n} e (f, (g, le)) (a, (b, (d, q))) =
      (a, (b ∙ ap (erase c.socket.handle) f, (n, (d c.socket.handle ∙ g, le))))

  written_close_with :
      (w : World) {n : ℕ} {w1 : World} (e : Error)
      → connected c ≡ true
      → IsWriting w (record { total_written = n; world = w1 })
      → HasWritten w (close_with sys c e w1)
  unfolding close_with
  written_close_with w {w1} e v h =
      written_closed w e h (close_with-HasClosed sys o k {A = ℕ} c e w1 v).0

  finish_write-HasWritten :
      (w : World) (n : ℕ) (w1 : World)
      → connected c ≡ true
      → ltb n (length text) ≡ false
      → IsWriting w (record { total_written = n; world = w1 })
      → HasWritten w (finish_write sys c n w1)
  unfolding finish_write
  finish_write-HasWritten w n w1 v b h =
      let ((set, code), w2) = set_socket_nonblocking sys c.socket.handle false w1 in
      let (e, (f, le)) =
        IsWriting-after w h (set_socket_nonblocking-IsQuiet sys o k c.socket.handle false w1) in
      let all_of : length text ≤ n = ground arith in
      both (HasWritten w) (not set)
        (written_close_with w (native_error write_failed code) v (e, (f, le)))
        (
          omega arith,
          (refl, (e, f ∙ ap (◌++◌ (output c.socket.handle w)) (take_all n text all_of))),
        )

  abbrev StepWritten : World → WriteStep sys → Type 0
  StepWritten w = After (IsWriting w) (HasWritten w)

  retry_write-StepWritten :
      (w : World) (n : ℕ) (w1 : World) (r : Waited World)
      → IsWriting w (record { total_written = n; world = w1 })
      → HasWaited sys o k c w1 r
      → StepWritten w (retry_write sys n r)
  retry_write-StepWritten w n w1 (retry w2) h q = IsWriting-after w h q
  retry_write-StepWritten w n w1 (give_up c' e w2) h q = written_closed w e h q

  -- A `send` that hands over the next bytes.
  handed_more :
      (w : World) (n m : ℕ) (w1 w2 : World) (r : ℕ)
      → HasHanded w n w1
      → HasSent sys o c.socket.handle (take m (drop n text)) w1 w2 (pos r)
      → HasHanded w (n + r) w2
  handed_more w n m w1 w2 r (f, le) (within, s) = (
    s
        ∙ ap (λ x. x ++ take r (take m (drop n text))) f
        ∙ append_assoc (output c.socket.handle w) (take n text) (take r (take m (drop n text)))
        ∙ ap (◌++◌ (output c.socket.handle w)) (
            ap (◌++◌ (take n text)) (take-take_of_le r m (drop n text) within)
            ∙ sym (take-add n r text)),
    omega (arith, length-take m (drop n text), length-drop n text),
  )

  sent-StepWritten :
      (w : World) (deadline n m : ℕ) (w1 w2 : World) (r : ℤ)
      → connected c ≡ true
      → IsWriting w (record { total_written = n; world = w1 })
      → opened w2 ≡ opened w1
      → HasSent sys o c.socket.handle (take m (drop n text)) w1 w2 r
      → let a = attempted sys r w2 in
        StepWritten w (sent sys deadline c n a.transferred a.native_code w2)
  unfolding sent
  sent-StepWritten w deadline n m w1 w2 (pos r) v (a, h) e s =
      let h2 : IsWriting w (record { total_written = n + r; world = w2 }) =
        (e ∙ a, handed_more w n m w1 w2 r h s) in
      both (StepWritten w) (r == 0) (written_close_with w (error connection_closed) v h2) h2
  sent-StepWritten w deadline n m w1 w2 (negsuc r) v (a, (f, le)) e s =
      retry_write-StepWritten w n w2 (after_failure sys write_side deadline c (sys.errno w2) w2)
        (e ∙ a, (s ∙ f, le))
        (after_failure-HasWaited sys o k write_side deadline c (sys.errno w2) w2 v)

  step_write-StepWritten :
      (w : World) (deadline : ℕ) (s : Writing World)
      → connected c ≡ true
      → IsWriting w s
      → StepWritten w (step_write sys deadline c text s)
  unfolding step_write send_some
  step_write-StepWritten w deadline s v h = elim (Bool-cases (ltb s.total_written (length text))) [
    | inr b ↦ rw b (finish_write-HasWritten w s.total_written s.world v b h)
    | inl b ↦
        let (t, w1) = sys.now s.world in
        let h1 = IsWriting-after w h (k.now-IsQuiet s.world) in
        let rest = drop s.total_written text in
        let size = bounded_io_size (length rest) in
        let (result, w2) = sys.send c.socket.handle (take size rest) w1 in
        rw b (
          both (StepWritten w) (leb deadline t) (written_close_with w (error write_timeout) v h1) (
            sent-StepWritten w deadline s.total_written size w1 w2 result v h1
              (k.send-opened c.socket.handle (take size rest) w1)
              (k.send-HasSent c.socket.handle (take size rest) w1)))
  ]

  write_loop-HasWritten :
      (w : World) (timeout : ℕ) (w1 : World)
      → connected c ≡ true
      → IsQuiet sys o w w1
      → Yields (HasWritten w) (write_loop sys timeout c text w1)
  unfolding write_loop
  write_loop-HasWritten w timeout w1 v q =
      let (t, w2) = sys.now w1 in
      let start : IsWriting w (record { total_written = 0; world = w1 }) =
        (q.0, (q.1.0 c.socket.handle ∙ sym (append-nil (output c.socket.handle w)), omega arith)) in
      yields (HasWritten w) _ (λ d.
        loop_inv (IsWriting w) (HasWritten w) (step_write sys (t + nanoseconds timeout) c text)
          (λ s p. step_write-StepWritten w (t + nanoseconds timeout) s v p)
          (nanoseconds timeout * sys.tick_cycles + 1) (record { total_written = 0; world = w2 })
          (IsWriting-after w start (k.now-IsQuiet w1)))

  -- A connection that is closed before anything is written.
  unwritten :
      (w w1 : World) (e : Error)
      → connected c ≡ true
      → IsQuiet sys o w w1
      → HasWritten w (close_with sys c e w1)
  unwritten w w1 e v q =
      written_close_with w {n = 0} e v
        (q.0, (q.1.0 c.socket.handle ∙ sym (append-nil (output c.socket.handle w)), omega arith))

  start_write-HasWritten :
      (w : World) (timeout : ℕ)
      → connected c ≡ true
      → Yields (HasWritten w) (start_write sys timeout c text w)
  unfolding start_write
  start_write-HasWritten w timeout v =
      let ((set, code), w1) = set_socket_nonblocking sys c.socket.handle true w in
      let q = set_socket_nonblocking-IsQuiet sys o k c.socket.handle true w in
      both (Yields (HasWritten w)) (not set) (unwritten w w1 (native_error write_failed code) v q)
        (write_loop-HasWritten w timeout w1 v q)

  nothing_to_write : (w : World) → is_empty text ≡ true → WrittenAs w c w (ok 0)
  nothing_to_write w b =
      let e = empty_is_nil text b in
      (
        sym (ap length e),
        (refl, (refl, sym (ap (◌++◌ (output c.socket.handle w)) e ∙ append-nil _))),
      )

  -- Under the laws of the system calls, on a connected socket: a `write_all` that succeeds has
  -- handed over all bytes once and in their order, and leaves the connection as it was. One that
  -- fails has handed over the first bytes of the text, and has closed the connection and its
  -- socket. No other socket is opened or closed.
  pub write_all-HasWritten :
      (timeout : ℤ) (w : World) (d : Written sys)
      → connected c ≡ true
      → write_all sys c text timeout w ≡ some d
      → HasWritten w d
  unfolding write_all
  write_all-HasWritten timeout w d v = yielded (HasWritten w) d (
      rw v (
        both_with (Yields (HasWritten w)) (is_empty text) (nothing_to_write w) (λ b.
          both (Yields (HasWritten w)) (milliseconds timeout == 0)
            (unwritten w w (error write_timeout) v (IsQuiet-refl sys o w))
            (start_write-HasWritten w (milliseconds timeout) v))))

-- ===== src/Net/TcpConnection/Returns.antt =====
-- The loops of `write_all` and of `read_some` end, since the steady clock keeps up with the time
-- that the rounds take: enough fuel is given.
use cpp_request.Base.{
  both, both_with, ℕ, zero, ◌+◌, ◌-◌, ◌*◌, ◌/◌, ◌≤◌, ◌<◌, ◌≡◌, refl, Bool, true, false, not, ◌==◌,
  leb, ltb, Option, some, Bytes, length, drop, take, is_empty, arith,
}
use cpp_request.Base.Loop.{Step, next, stop, stuck, Descends, loop_total}
use cpp_request.Error.{ℤ, pos, negsuc}
use native.Mathlib.Nat.{add-mul, div-lt_iff_lt-mul, div-mul-le_self}
use cpp_request.Platform.{System}
use cpp_request.Platform.SocketMode.{set_socket_nonblocking}
use cpp_request.Platform.SocketIo.{send_some, receive_some, bounded_io_size}
use cpp_request.Platform.Kernel.{Observer, Kernel, IsSteady}
use cpp_request.Net.TcpConnection.{TcpConnection, connected, nanoseconds, milliseconds}
use cpp_request.Net.TcpConnection.Waiting.{Waited, retry, give_up, after_failure}
use cpp_request.Net.TcpConnection.Writing.{
  write_side, Writing, Written, retry_write, sent, step_write, write_loop, start_write, write_all,
}
use cpp_request.Net.TcpConnection.Reading.{
  read_side, Read, retry_read, received, step_read, read_loop, start_read, read_some,
}
use cpp_request.Net.TcpConnection.Closing.{HasWaited, after_failure-HasWaited}

-- The arithmetic of the loops, with `k` cycles in a tick: a round lasts, it began before the
-- deadline, and the first round has fuel for the whole timeout.
sooner : {a b c : ℕ} → a < b → b ≤ c → a < c
sooner h g = omega arith

before_deadline :
    (deadline : ℕ) {t now k : ℕ}
    → zero < k
    → t ≡ now / k
    → leb deadline t ≡ false
    → now < deadline * k
before_deadline deadline p e h = (div-lt_iff_lt-mul p).0 (ground arith)

fuel_enough :
    (ns k : ℕ) {t now later : ℕ} → t ≡ now / k → now ≤ later → (t + ns) * k - later < ns * k + 1
fuel_enough ns k {t} {now} e h =
    let whole : t * k ≤ now = rw e (div-mul-le_self now k) in rw (add-mul t ns k) (omega arith)

module _ (sys : System) (o : Observer sys) (k : Kernel sys o) (c : TcpConnection) where
  open sys use {World}
  open o use {elapsed}

  -- Time at the next round is not behind the one of a world, and no inner loop runs out.
  abbrev Passes : {S R : Type 0} → (S → World) → World → Step S R → Type 0
  Passes world w (next s) = elapsed w ≤ elapsed (world s)
  Passes world w (stop r) = Unit {0}
  Passes world w stuck = ⊥

  Passes-Descends :
      {S R : Type 0} (world : S → World) (limit : ℕ) (w : World) (s : S) (x : Step S R)
      → elapsed (world s) < elapsed w
      → elapsed (world s) < limit
      → Passes world w x
      → Descends (λ s. limit - elapsed (world s)) s x
  Passes-Descends world limit w s (next s') a b p = omega arith
  Passes-Descends world limit w s (stop r) a b p = tt
  Passes-Descends world limit w s stuck a b p = p

  retry_write-Passes :
      (n : ℕ) (w : World) (r : Waited World)
      → HasWaited sys o k c w r
      → Passes Writing.world w (retry_write sys n r)
  retry_write-Passes n w (retry w') h = h.1.1
  retry_write-Passes n w (give_up c' e w') h = tt

  sent-Passes :
      (deadline n : ℕ) (t code : ℤ) (w : World)
      → connected c ≡ true
      → Passes Writing.world w (sent sys deadline c n t code w)
  unfolding sent
  sent-Passes deadline n (pos m) code w v = both (Passes Writing.world w) (m == 0) tt (omega arith)
  sent-Passes deadline n (negsuc m) code w v =
      retry_write-Passes n w (after_failure sys write_side deadline c code w)
        (after_failure-HasWaited sys o k write_side deadline c code w v)

  step_write-Descends :
      (deadline : ℕ) (text : Bytes) (s : Writing World)
      → IsSteady sys o
      → connected c ≡ true
      → Descends
          (λ s. deadline * sys.tick_cycles - elapsed s.world)
          s
          (step_write sys deadline c text s)
  unfolding step_write send_some
  step_write-Descends deadline text s steady v =
      let (t, w1) = sys.now s.world in
      let rest = drop s.total_written text in
      let h = c.socket.handle in
      let part = take (bounded_io_size (length rest)) rest in
      let (attempt, w2) = send_some sys h rest w1 in
      let P : Step (Writing World) (Written sys) → Type 0 =
        Descends (λ s. deadline * sys.tick_cycles - elapsed s.world) s in
      both P (not (ltb s.total_written (length text))) tt (
        both_with P (leb deadline t) (λ b. tt)
          (λ b.
            Passes-Descends Writing.world (deadline * sys.tick_cycles) w2 s
              (sent sys deadline c s.total_written attempt.transferred attempt.native_code w2)
              (sooner (steady.now-lasts s.world) (k.send-elapsed h part w1))
              (before_deadline deadline steady.tick-lasts (steady.now-ticks s.world) b)
              (sent-Passes deadline s.total_written attempt.transferred attempt.native_code w2 v)))

  retry_read-Passes :
      (w : World) (r : Waited World)
      → HasWaited sys o k c w r
      → Passes {S = World} (λ w. w) w (retry_read sys r)
  retry_read-Passes w (retry w') h = h.1.1
  retry_read-Passes w (give_up c' e w') h = tt

  received-Passes :
      (deadline : ℕ) (t code : ℤ) (buffer : Bytes) (w : World)
      → connected c ≡ true
      → Passes {S = World} (λ w. w) w (received sys deadline c t code buffer w)
  unfolding received
  received-Passes deadline (pos m) code buffer w v = both (Passes (λ w. w) w) (m == 0) tt tt
  received-Passes deadline (negsuc m) code buffer w v =
      retry_read-Passes w (after_failure sys read_side deadline c code w)
        (after_failure-HasWaited sys o k read_side deadline c code w v)

  step_read-Descends :
      (deadline capacity : ℕ) (w : World)
      → IsSteady sys o
      → connected c ≡ true
      → Descends
          (λ w. deadline * sys.tick_cycles - elapsed w)
          w
          (step_read sys deadline c capacity w)
  unfolding step_read receive_some
  step_read-Descends deadline capacity w steady v =
      let (t, w1) = sys.now w in
      let h = c.socket.handle in
      let ((attempt, buffer), w2) = receive_some sys h capacity w1 in
      let P : Step World (Read sys) → Type 0 =
        Descends (λ w. deadline * sys.tick_cycles - elapsed w) w in
      both_with P (leb deadline t) (λ b. tt)
        (λ b.
          Passes-Descends (λ w. w) (deadline * sys.tick_cycles) w2 w
            (received sys deadline c attempt.transferred attempt.native_code buffer w2)
            (sooner (steady.now-lasts w) (k.recv-IsQuiet h (bounded_io_size capacity) w1).1.1)
            (before_deadline deadline steady.tick-lasts (steady.now-ticks w) b)
            (received-Passes deadline attempt.transferred attempt.native_code buffer w2 v))

  write_loop-returns :
      (timeout : ℕ) (text : Bytes) (w : World)
      → IsSteady sys o
      → connected c ≡ true
      → (d : Written sys) × (write_loop sys timeout c text w ≡ some d)
  unfolding write_loop
  write_loop-returns timeout text w steady v =
      let (t, w1) = sys.now w in
      let deadline = t + nanoseconds timeout in
      loop_total (λ _. Unit {0}) (λ s. deadline * sys.tick_cycles - elapsed s.world)
        (step_write sys deadline c text) (λ s _. step_write-Descends deadline text s steady v)
        (λ _ _ _ _. tt) (nanoseconds timeout * sys.tick_cycles + 1)
        (record { total_written = 0; world = w1 }) tt
        (fuel_enough (nanoseconds timeout) sys.tick_cycles (steady.now-ticks w)
          (k.now-IsQuiet w).1.1)

  read_loop-returns :
      (timeout capacity : ℕ) (w : World)
      → IsSteady sys o
      → connected c ≡ true
      → (d : Read sys) × (read_loop sys timeout c capacity w ≡ some d)
  unfolding read_loop
  read_loop-returns timeout capacity w steady v =
      let (t, w1) = sys.now w in
      let deadline = t + nanoseconds timeout in
      loop_total (λ _. Unit {0}) (λ w. deadline * sys.tick_cycles - elapsed w)
        (step_read sys deadline c capacity) (λ w _. step_read-Descends deadline capacity w steady v)
        (λ _ _ _ _. tt) (nanoseconds timeout * sys.tick_cycles + 1) w1 tt
        (fuel_enough (nanoseconds timeout) sys.tick_cycles (steady.now-ticks w)
          (k.now-IsQuiet w).1.1)

  -- Under the laws of the system calls, if the clock counts ticks of a constant length and a reading
  -- of it takes at least one cycle of the processor, then `write_all` returns, whatever the system
  -- answers, also when readings are equal.
  pub write_all-returns :
      (text : Bytes) (timeout : ℤ) (w : World)
      → IsSteady sys o
      → (d : Written sys) × (write_all sys c text timeout w ≡ some d)
  unfolding write_all start_write
  write_all-returns text timeout w steady =
      let P : Option (Written sys) → Type 0 = λ r. (d : Written sys) × (r ≡ some d) in
      let ((set, code), w1) = set_socket_nonblocking sys c.socket.handle true w in
      both_with P (not (connected c)) (λ b. (_, refl))
        (λ b.
          both P (is_empty text) (_, refl)
            (both P (milliseconds timeout == 0) (_, refl)
              (both P (not set) (_, refl)
                (write_loop-returns (milliseconds timeout) text w1 steady (ground arith)))))

  -- Under the laws of the system calls, if the clock counts ticks of a constant length and a reading
  -- of it takes at least one cycle of the processor, then `read_some` returns, whatever the system
  -- answers, also when readings are equal.
  pub read_some-returns :
      (null_buffer : Bool) (capacity : ℕ) (timeout : ℤ) (w : World)
      → IsSteady sys o
      → (d : Read sys) × (read_some sys c null_buffer capacity timeout w ≡ some d)
  unfolding read_some start_read
  read_some-returns null_buffer capacity timeout w steady =
      let P : Option (Read sys) → Type 0 = λ r. (d : Read sys) × (r ≡ some d) in
      let ((set, code), w1) = set_socket_nonblocking sys c.socket.handle true w in
      both_with P (not (connected c)) (λ b. (_, refl))
        (λ b.
          both P (capacity == 0) (_, refl)
            (both P null_buffer (_, refl)
              (both P (milliseconds timeout == 0) (_, refl)
                (both P (not set) (_, refl)
                  (read_loop-returns (milliseconds timeout) capacity w1 steady (ground arith))))))

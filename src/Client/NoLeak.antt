-- ===== src/Client/NoLeak.antt =====
-- `execute_once` and the open sockets of the process.
use cpp_request.Base.{
  both, Yields, ℕ, ◌≡◌, refl, Bool, false, Option, none, some, List, Bytes, is_empty,
}
use cpp_request.Error.{ℤ, pos, Result, ok, err}
use cpp_request.Request.{Request}
use cpp_request.RequestSerializer.{SerializedRequest}
use cpp_request.Platform.{System}
use cpp_request.Platform.Kernel.{Observer, Kernel}
use cpp_request.Net.TcpConnection.{TcpConnection, remaining_timeout}
use cpp_request.Net.TcpConnection.Writing.{Written}
use cpp_request.Client.Keeping.{Client}
use cpp_request.Client.Exchange.{
  Executed, acquire, read_response, judge_write, after_write, add_timeout, write_body, exchange,
  acquired, execute_serialized, execute_once,
}
use cpp_request.RequestSerializer.{serialize_request}
use cpp_request.Client.Sockets.{
  same-IsBeside, IsBeside, WriteBeside, write_all-IsBeside, read_some-IsBeside,
}
use cpp_request.Client.Acquiring.{AcquiredAs, acquire-HasAcquired}
use cpp_request.Client.Leaving.{kept_aside, HasLeft, leave-HasLeft, exchanged-HasLeft}
use cpp_request.Client.Receiving.{read_response-Yields}

module _ (sys : System) (o : Observer sys) (k : Kernel sys o) (before : List ℤ) where
  open sys use {World}
  open o use {opened}

  abbrev pub Leaves : Option (Executed World) → Type 0
  Leaves = Yields (HasLeft sys o k before)

  read_response-Leaves :
      (fuel : ℕ) (r : Request) (z : SerializedRequest) (s : Client) (c : TcpConnection) (w : World)
      → s.has_reusable_connection ≡ false
      → IsBeside sys o k before c w
      → Leaves (read_response sys fuel r z s c w)
  read_response-Leaves fuel r z s c w e b =
      read_response-Yields sys (IsBeside sys o k before) (read_some-IsBeside sys o k before)
        (λ _. Unit {0}) (λ _ _ _ _ _ _ _. tt) (λ _ _ _ _ _. tt) (HasLeft sys o k before) fuel r z s
        c w b tt
        (λ x (h, _). exchanged-HasLeft sys o k before r z s x.connection x.world x.outcome e h)

  judge_write-Leaves :
      (s : Client) (rest : TcpConnection → World → Option (Executed World)) (c : TcpConnection)
      (w : World) (r : Result ℕ)
      → s.has_reusable_connection ≡ false
      → ((c : TcpConnection) (w : World) → IsBeside sys o k before c w → Leaves (rest c w))
      → IsBeside sys o k before c w
      → Leaves (judge_write sys s rest c w r)
  unfolding judge_write
  judge_write-Leaves s rest c w (ok n) e ih b = ih c w b
  judge_write-Leaves s rest c w (err x) e ih b = leave-HasLeft sys o k before s c w (err x) e b

  after_write-Leaves :
      (s : Client) (rest : TcpConnection → World → Option (Executed World))
      (d : Option (Written sys))
      → s.has_reusable_connection ≡ false
      → ((c : TcpConnection) (w : World) → IsBeside sys o k before c w → Leaves (rest c w))
      → Yields (WriteBeside sys o k before) d
      → Leaves (after_write sys s rest d)
  after_write-Leaves s rest none e ih b = tt
  after_write-Leaves s rest (some d) e ih b =
      judge_write-Leaves s rest d.connection d.world d.result e ih b

  -- Reading the clock changes nothing.
  asked-IsBeside :
      (c : TcpConnection) (w : World)
      → IsBeside sys o k before c w
      → IsBeside sys o k before c (sys.now w).1
  asked-IsBeside c w b = same-IsBeside sys o k before c c w _ b refl (k.now-IsQuiet w).0

  write_body-Leaves :
      (fuel : ℕ) (r : Request) (z : SerializedRequest) (s : Client) (deadline : ℕ)
      (c : TcpConnection) (w : World)
      → s.has_reusable_connection ≡ false
      → IsBeside sys o k before c w
      → Leaves (write_body sys fuel r z s deadline c w)
  unfolding write_body remaining_timeout
  write_body-Leaves fuel r z s deadline c w e b =
      let (left, w1) = remaining_timeout sys deadline w in
      both Leaves (is_empty z.body) (read_response-Leaves fuel r z s c w e b) (
        after_write-Leaves s (read_response sys fuel r z s) _ e
          (λ c' w' b'. read_response-Leaves fuel r z s c' w' e b')
          (write_all-IsBeside sys o k before c z.body (pos left) w1 (asked-IsBeside c w b)))

  exchange-Leaves :
      (fuel : ℕ) (r : Request) (z : SerializedRequest) (s : Client) (c : TcpConnection) (w : World)
      → s.has_reusable_connection ≡ false
      → IsBeside sys o k before c w
      → Leaves (exchange sys fuel r z s c w)
  unfolding exchange remaining_timeout
  exchange-Leaves fuel r z s c w e b =
      let (t, w1) = sys.now w in
      let deadline = add_timeout t s.write_timeout in
      let (left, w2) = remaining_timeout sys deadline w1 in
      after_write-Leaves s (write_body sys fuel r z s deadline) _ e
        (λ c' w' b'. write_body-Leaves fuel r z s deadline c' w' e b')
        (write_all-IsBeside sys o k before c z.head (pos left) w2
          (asked-IsBeside c w1 (asked-IsBeside c w b)))

  acquired-Leaves :
      (fuel : ℕ) (r : Request) (z : SerializedRequest) (s : Client) (w : World)
      (x : Result TcpConnection)
      → AcquiredAs sys o k before s w x
      → Leaves (acquired sys fuel r z s w x)
  acquired-Leaves fuel r z s w (ok c) (e, b) = exchange-Leaves fuel r z s c w e b
  acquired-Leaves fuel r z s w (err e) h = h

  execute_serialized-Leaves :
      (fuel : ℕ) (r : Request) (s : Client) (w : World) (x : Result SerializedRequest)
      → kept_aside s (opened w) ≡ before
      → Leaves (execute_serialized sys fuel r s w x)
  unfolding execute_serialized
  execute_serialized-Leaves fuel r s w (err e) h = h
  execute_serialized-Leaves fuel r s w (ok z) h =
      let a = acquire sys z s w in
      acquired-Leaves fuel r z a.client a.world a.outcome
        (acquire-HasAcquired sys o k before z s w h)

  pub execute_once-Leaves :
      (inet_pton6 : Bytes → Bool) (fuel : ℕ) (r : Request) (s : Client) (w : World)
      → kept_aside s (opened w) ≡ before
      → Leaves (execute_once sys inet_pton6 fuel r s w)
  unfolding execute_once
  execute_once-Leaves inet_pton6 fuel r s w h =
      execute_serialized-Leaves fuel r s w (serialize_request inet_pton6 r) h

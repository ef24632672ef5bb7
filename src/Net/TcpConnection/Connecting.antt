-- ===== src/Net/TcpConnection/Connecting.antt =====
-- `TcpConnection::connect` and the open sockets of the process.
use cpp_request.Base.{
  arith, both, ℕ, ◌+◌, ◌≡◌, refl, ◌∙◌, inl, inr, true, not, List, [], ◌∷◌, Bool-cases, leb, ◌==◌,
  if◌then◌else◌,
}
use cpp_request.Error.{ℤ, Result, ok, err}
use cpp_request.Platform.{System}
use cpp_request.Platform.NativeSocket.{NativeSocket, no_socket, same_int, invalid_socket, valid}
use cpp_request.Platform.NativeSocket
use cpp_request.Platform.NetworkRuntime.{ensure_network_runtime}
use cpp_request.Platform.SocketConnect.{ConnectStatus, create_tcp_socket, connect_with_timeout}
use cpp_request.Platform.Kernel.{Observer, Kernel, IsInt}
use cpp_request.Platform.Quiet.{connect_with_timeout-IsQuiet}
use cpp_request.Platform.Ownership.{others, opened-destroy, erase_head, valid_of, valid_no_socket}
use cpp_request.Net.Endpoint.{Endpoint, family}
use cpp_request.Net.Endpoint
use cpp_request.Net.TcpConnection.{
  TcpConnection, Attempts, no_attempts, Tried, go_on, settled, no_endpoint_left, connected,
  remaining_timeout, judge_attempt, use_socket, try_endpoint, try_endpoints, is_no_endpoint,
  connect, milliseconds, nanoseconds,
}

module _ (sys : System) (o : Observer sys) (k : Kernel sys o) where
  open sys use {World}
  open o use {opened}

  -- What a connection attempt leaves open, from the sockets that were open before it.
  abbrev pub HasConnected : List ℤ → Result TcpConnection → World → Type 0
  HasConnected before (ok c) w =
      (connected c ≡ true) × ((opened w ≡ c.socket.handle ∷ before) × IsInt c.socket.handle)
  HasConnected before (err e) w = opened w ≡ before

  abbrev HasTried : List ℤ → Tried World → Type 0
  HasTried before (go_on s w) = opened w ≡ before
  HasTried before (settled r w) = HasConnected before r w

  opened-destroy_new :
      (s : NativeSocket) (before : List ℤ) (w : World)
      → valid s ≡ true
      → opened w ≡ s.handle ∷ before
      → opened (NativeSocket.destroy sys s w) ≡ before
  unfolding others
  opened-destroy_new s before w v e =
      let e' = opened-destroy sys o k s w in rw (v, e, erase_head) at e'

  judge_attempt-HasTried :
      (s : Attempts) (socket : NativeSocket) (status : ConnectStatus) (code : ℤ) (before : List ℤ)
      (w : World)
      → valid socket ≡ true
      → opened w ≡ socket.handle ∷ before
      → IsInt socket.handle
      → HasTried before (judge_attempt sys s socket status code w)
  unfolding judge_attempt connected
  judge_attempt-HasTried s socket ConnectStatus.connected code before w v e i = (v, (e, i))
  judge_attempt-HasTried s socket ConnectStatus.timed_out code before w v e i =
      opened-destroy_new socket before w v e
  judge_attempt-HasTried s socket ConnectStatus.failed code before w v e i =
      opened-destroy_new socket before w v e

  opened-remaining_timeout :
      (deadline : ℕ) (w : World) → opened (remaining_timeout sys deadline w).1 ≡ opened w
  unfolding remaining_timeout
  opened-remaining_timeout deadline w = (k.now-IsQuiet w).0

  -- Behind the creation of a socket, which opened it or failed.
  use_socket-HasTried :
      (deadline : ℕ) (e : Endpoint) (s : Attempts) (socket : NativeSocket) (code : ℤ)
      (before : List ℤ) (w : World)
      → opened w ≡ (if valid socket then socket.handle ∷ before else before)
      → IsInt socket.handle
      → HasTried before (use_socket sys deadline e s socket code w)
  unfolding use_socket
  use_socket-HasTried deadline e s socket code before w h i = elim (Bool-cases (valid socket)) [
    | inr v ↦ rw v (rw v at h)
    | inl v ↦
        let (remaining, w1) = remaining_timeout sys deadline w in
        let (attempt, w2) =
          connect_with_timeout sys socket.handle e.address e.address_size remaining w1 in
        let opened_then =
          (connect_with_timeout-IsQuiet sys o k socket.handle e.address e.address_size remaining
            w1).0
          ∙ opened-remaining_timeout deadline w in
        rw v (
          judge_attempt-HasTried (record s { created_socket = true }) socket attempt.status
            attempt.native_code before w2 v (opened_then ∙ (rw v at h)) i)
  ]

  opened-create_tcp_socket :
      (family type protocol : ℤ) (w : World)
      → let ((socket, code), w1) = create_tcp_socket sys family type protocol w in
        opened w1 ≡ (if valid socket then socket.handle ∷ opened w else opened w)
  unfolding create_tcp_socket
  opened-create_tcp_socket family type protocol w =
      let h = (sys.socket family type protocol w).0 in
      let made = k.socket-HasOpened family type protocol w in
      elim (Bool-cases (same_int h invalid_socket)) [
        | inl e ↦ rw (e, valid_no_socket) (rw e at made)
        | inr e ↦ rw (e, valid_of h e) (rw e at made)
      ]

  IsInt-create_tcp_socket :
      (family type protocol : ℤ) (w : World)
      → IsInt (create_tcp_socket sys family type protocol w).0.0.handle
  unfolding create_tcp_socket
  IsInt-create_tcp_socket family' type protocol w =
      both (λ (r : (NativeSocket × ℤ) × World). IsInt r.0.0.handle)
        (same_int (sys.socket family' type protocol w).0 invalid_socket) (omega arith)
        (k.socket-IsInt family' type protocol w)

  try_endpoint-HasTried :
      (deadline : ℕ) (e : Endpoint) (s : Attempts) (w : World)
      → HasTried (opened w) (try_endpoint sys deadline e s w)
  unfolding try_endpoint
  try_endpoint-HasTried deadline e s w =
      let (t, w1) = sys.now w in
      let seen = record s { saw_valid_endpoint = true } in
      let ((socket, create_error), w2) =
        create_tcp_socket sys (family sys e) e.socket_type e.protocol w1 in
      let asked = (k.now-IsQuiet w).0 in
      let made = opened-create_tcp_socket (family sys e) e.socket_type e.protocol w1 in
      both (HasTried (opened w)) (not (Endpoint.valid e)) refl (
        both (HasTried (opened w)) (leb deadline t) asked (
          use_socket-HasTried deadline e seen socket create_error (opened w) w2 (rw asked at made)
            (IsInt-create_tcp_socket (family sys e) e.socket_type e.protocol w1)))

  no_endpoint_left-HasConnected :
      (s : Attempts) (before : List ℤ) (w : World)
      → opened w ≡ before
      → HasConnected before (no_endpoint_left s) w
  unfolding no_endpoint_left
  no_endpoint_left-HasConnected s before w h =
      both (λ r. HasConnected before r w) (not s.saw_valid_endpoint) h
        (both (λ r. HasConnected before r w) (not s.created_socket) h h)

  abbrev behind_try : ℕ → List Endpoint → Tried World → Result TcpConnection × World
  behind_try deadline endpoints (go_on s w) = try_endpoints sys deadline endpoints s w
  behind_try deadline endpoints (settled r w) = (r, w)

  try_endpoints-HasConnected :
      (deadline : ℕ) (endpoints : List Endpoint) (s : Attempts) (before : List ℤ) (w : World)
      → opened w ≡ before
      → let (r, w1) = try_endpoints sys deadline endpoints s w in HasConnected before r w1
  unfolding try_endpoints
  try_endpoints-HasConnected deadline [] s before w h = no_endpoint_left-HasConnected s before w h
  try_endpoints-HasConnected deadline (e ∷ endpoints) s before w h =
      elim (try_endpoint sys deadline e s w)
          as (λ t.
            HasTried before t
            → let (r, w1) = behind_try deadline endpoints t in HasConnected before r w1) [
              | go_on s' w' ↦ λ a. try_endpoints-HasConnected deadline endpoints s' before w' a
              | settled r w' ↦ λ a. a
            ]
        (rw h at (try_endpoint-HasTried deadline e s w))

  -- Under the laws of the system calls, `connect` gives a connected socket, whose handle is an
  -- `int` and which is then open beside those that were open before, or it fails, and then the
  -- open sockets are those of before: a failed attempt leaves none behind.
  pub connect-HasConnected :
      (endpoints : List Endpoint) (timeout : ℤ) (w : World)
      → let (r, w1) = connect sys endpoints timeout w in HasConnected (opened w) r w1
  unfolding connect
  connect-HasConnected endpoints timeout w =
      let (t, w1) = sys.now w in
      let P : Result TcpConnection × World → Type 0 = λ r. HasConnected (opened w) r.0 r.1 in
      both P (milliseconds timeout == 0) refl (
        both P (is_no_endpoint sys endpoints) refl (
          both P (not ensure_network_runtime.usable) refl (
            try_endpoints-HasConnected (t + nanoseconds (milliseconds timeout)) endpoints
              no_attempts (opened w) w1 (k.now-IsQuiet w).0)))

-- ===== src/Client/Acquiring.antt =====
-- How `execute_once` gets its connection, and the open sockets of the process.
use cpp_request.Base.{
  both, both_with, ℕ, ◌≡◌, refl, ◌∙◌, Bool, true, false, not, ◌&&◌, inl, inr, Bool-cases, List,
  Bytes, is_empty, arith,
}
use cpp_request.Error.{ℤ, Result, ok, err}
use cpp_request.Url
use cpp_request.RequestSerializer.{SerializedRequest}
use cpp_request.Platform.{System}
use cpp_request.Platform.Kernel.{Observer, Kernel}
use cpp_request.Platform.Ownership.{others, opened-destroy, erase_head}
use cpp_request.Net.Endpoint.{Endpoint}
use cpp_request.Net.Resolver.{resolve}
use cpp_request.Net.TcpConnection.{TcpConnection, connected, connect}
use cpp_request.Net.TcpConnection.Connecting.{connect-HasConnected, HasConnected}
use cpp_request.Client.Keeping.{Client, kept_socket, forget_connection, close_reusable_connection}
use cpp_request.Client.Tokens.{IsInt-decode}
use cpp_request.Client.Exchange.{Acquired, reuse_existing, connect_to, acquire}
use cpp_request.Base.{◌||◌, mem_byte}
use cpp_request.Scan.{to_chars}
use cpp_request.Platform.NetworkRuntime.{ensure_network_runtime}
use cpp_request.Net.TcpConnection.{adopt_native_handle}
use cpp_request.Net.TcpConnection.Connecting.{HasConnected}
use cpp_request.Client.Sockets.{IsBeside}
use cpp_request.Client.Leaving.{kept_aside}

module _ (sys : System) (o : Observer sys) (k : Kernel sys o) (before : List ℤ) where
  open sys use {World}
  open o use {opened}

  -- What `execute_once` has before it writes.
  abbrev pub AcquiredAs : Client → World → Result TcpConnection → Type 0
  AcquiredAs s w (ok c) = (s.has_reusable_connection ≡ false) × IsBeside sys o k before c w
  AcquiredAs s w (err e) = kept_aside s (opened w) ≡ before

  abbrev pub HasAcquired : Acquired World → Type 0
  HasAcquired a = AcquiredAs a.client a.world a.outcome

  connected-AcquiredAs :
      (s : Client) (w : World) (r : Result TcpConnection)
      → s.has_reusable_connection ≡ false
      → HasConnected sys o k before r w
      → AcquiredAs s w r
  unfolding others kept_aside connected
  connected-AcquiredAs s w (ok c) e (v, (f, i)) = (e, (rw (v, f, erase_head) refl, i))
  connected-AcquiredAs s w (err x) e h = rw e h

  connect_to-HasAcquired :
      (s : Client) (r : Result (List Endpoint)) (w : World)
      → s.has_reusable_connection ≡ false
      → opened w ≡ before
      → HasAcquired (connect_to sys s r w)
  unfolding connect_to kept_aside
  connect_to-HasAcquired s (err x) w e f = rw e f
  connect_to-HasAcquired s (ok endpoints) w e f =
      let (r, w1) = connect sys endpoints s.connect_timeout w in
      connected-AcquiredAs s w1 r e
        (rw f at (connect-HasConnected sys o k endpoints s.connect_timeout w))

  pub opened-close_reusable_connection :
      (s : Client) (w : World)
      → opened (close_reusable_connection sys s w).1 ≡ kept_aside s (opened w)
  unfolding close_reusable_connection kept_aside
  opened-close_reusable_connection s w = elim (Bool-cases s.has_reusable_connection) [
    | inl e ↦ rw e (opened-destroy sys o k (kept_socket s) w)
    | inr e ↦ rw e refl
  ]

  opened-resolve :
      (host : Bytes) (port : ℕ) (w : World) → opened (resolve sys host port w).1 ≡ opened w
  unfolding resolve
  opened-resolve host port w =
      let P : Result (List Endpoint) × World → Type 0 = λ r. opened r.1 ≡ opened w in
      both P (is_empty host || mem_byte 0 host) refl (
        both P (not ensure_network_runtime.usable) refl
          (k.getaddrinfo-IsQuiet host (to_chars port) w).0)

  has_connection :
      (s : Client) (b : Bool)
      → s.has_reusable_connection && b ≡ true
      → s.has_reusable_connection ≡ true
  has_connection s b h = ground arith

  pub acquire-HasAcquired :
      (z : SerializedRequest) (s : Client) (w : World)
      → kept_aside s (opened w) ≡ before
      → HasAcquired (acquire sys z s w)
  unfolding acquire reuse_existing kept_aside adopt_native_handle forget_connection
      close_reusable_connection
  acquire-HasAcquired z s w h =
      let (s1, w1) = close_reusable_connection sys s w in
      let (endpoints, w2) = resolve sys (Url.host z.url) z.url.port w1 in
      both_with HasAcquired (reuse_existing z s)
        (λ b. (refl, (rw (has_connection s _ b) at h, IsInt-decode s.reusable_socket_token)))
        (λ b. connect_to-HasAcquired s1 endpoints w2 refl (
          opened-resolve (Url.host z.url) z.url.port w1 ∙ opened-close_reusable_connection s w ∙ h))

-- ===== src/Client/KeepAlive.antt =====
-- When `execute_once` keeps its connection for another request.
use cpp_request.Base.{
  both_with, Yields, yields, yielded, ℕ, ◌≡◌, refl, Bool, true, false, not, ◌&&◌, inl, some,
  is_empty, arith,
}
use cpp_request.Error.{Result, ok, err}
use cpp_request.Request.{Request}
use cpp_request.Response.{Response}
use cpp_request.RequestSerializer.{SerializedRequest}
use cpp_request.ResponseParser.State.{ResponseParser}
use cpp_request.Platform.{System}
use cpp_request.Net.TcpConnection.{TcpConnection, connected}
use cpp_request.Client.Keeping.{Client, keep_connection}
use cpp_request.Client.Exchange.{Executed, leave, finish_exchange, exchanged, exchange, is_reusable}
use mathlib.Core.Path.{subst}
use cpp_request.Base.{◌||◌, ◌==◌}
use cpp_request.ResponseParser.{connection_reusable}
use cpp_request.ResponseParser.Asked.{IsFair, fair-asks, fed-IsFair, finished-IsFair}
use cpp_request.Client.{request_wants_connection_close, wants_connection_close}
use cpp_request.Client.Receiving.{read_response-Yields, ParsedAs}
use cpp_request.Client.Behind.{exchange-Yields}

module _ (sys : System) (r : Request) where
  open sys use {World}

  -- If a connection is kept, nobody asked for its end.
  abbrev MayKeep : Bool → Result Response → Type 0
  MayKeep false response = Unit {0}
  MayKeep true (err e) = ⊥
  MayKeep true (ok response) =
      ((wants_connection_close response.headers || response.status_code == 101) ≡ false)
      × (request_wants_connection_close r ≡ false)

  abbrev KeepsFairly : Executed World → Type 0
  KeepsFairly x = MayKeep x.client.has_reusable_connection x.result

  leave-KeepsFairly :
      (s : Client) (c : TcpConnection) (w : World) (x : Result Response)
      → s.has_reusable_connection ≡ false
      → KeepsFairly (leave sys s c w x)
  unfolding leave
  leave-KeepsFairly s c w x e = rw e tt

  reusable_parts : (a b c d : Bool) → (a && b && c && not d) ≡ true → (b ≡ true) × (d ≡ false)
  reusable_parts a b c d h = (ground arith, ground arith)

  exchanged-KeepsFairly :
      (z : SerializedRequest) (s : Client) (c : TcpConnection) (w : World)
      (x : Result ResponseParser)
      → s.has_reusable_connection ≡ false
      → ParsedAs IsFair x
      → KeepsFairly (exchanged sys r z s c w x)
  unfolding exchanged finish_exchange is_reusable leave keep_connection
  exchanged-KeepsFairly z s c w (err x) e f = rw e tt
  exchanged-KeepsFairly z s c w (ok p) e (f, done) =
      both_with KeepsFairly (is_reusable r c p)
        (λ b.
          let (again, unasked) =
            reusable_parts (connected c) (connection_reusable p) (is_empty p.buffer)
              (request_wants_connection_close r) b in
          (fair-asks p f again, unasked))
        (λ _. rw e tt)

  exchange-KeepsFairly :
      (fuel : ℕ) (z : SerializedRequest) (s : Client) (c : TcpConnection) (w : World)
      → s.has_reusable_connection ≡ false
      → Yields KeepsFairly (exchange sys fuel r z s c w)
  exchange-KeepsFairly fuel z s c w e =
      exchange-Yields sys fuel r z s KeepsFairly (λ c' w' x. leave-KeepsFairly s c' w' (err x) e)
        (λ c' w'.
          read_response-Yields sys (λ _ _. Unit {0})
            (λ c t w _. yields (λ _. Unit {0}) _ (λ _ _. tt)) IsFair fed-IsFair finished-IsFair
            KeepsFairly fuel r z s c' w' tt (inl refl)
            (λ x y. exchanged-KeepsFairly z s x.connection x.world x.outcome e y.1))
        c w

  kept_response :
      (x : Result Response)
      → MayKeep true x
      → (response : Response) × ((x ≡ ok response)
          × (((wants_connection_close response.headers || response.status_code == 101) ≡ false)
              × (request_wants_connection_close r ≡ false)))
  kept_response (ok response) h = (response, (refl, h))
  kept_response (err e) h = absurd h

  -- If `execute_once`, behind its connection, ends with a kept connection where there was none, then
  -- it gives a response whose status is not 101, and neither in the response nor in the request has
  -- a `Connection` field the token `close`, as the client reads them.
  pub exchange_kept :
      (fuel : ℕ) (z : SerializedRequest) (s : Client) (c : TcpConnection) (w : World)
      (x : Executed World)
      → s.has_reusable_connection ≡ false
      → exchange sys fuel r z s c w ≡ some x
      → x.client.has_reusable_connection ≡ true
      → (response : Response) × ((x.result ≡ ok response)
          × (((wants_connection_close response.headers || response.status_code == 101) ≡ false)
              × (request_wants_connection_close r ≡ false)))
  exchange_kept fuel z s c w x e h kept = kept_response x.result (
      subst (λ b. MayKeep b x.result) kept
        (yielded KeepsFairly x (exchange-KeepsFairly fuel z s c w e) h))

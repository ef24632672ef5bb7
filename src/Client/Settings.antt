-- ===== src/Client/Settings.antt =====
-- `execute_once` keeps the client's settings, and gives only responses that they admit.
use cpp_request.Base.{both, Yields, yields, ℕ, ◌≡◌, refl, sym, ap, ◌∙◌, Bool, true, List, Bytes}
use cpp_request.Error.{Error, Result, ok, err}
use cpp_request.Request.{Request}
use cpp_request.Response.{Response}
use cpp_request.RequestSerializer.{SerializedRequest}
use cpp_request.ResponseParser.{finish_eof, is_complete}
use cpp_request.ResponseParser.State.{ResponseParser}
use cpp_request.Platform.{System}
use cpp_request.Net.Endpoint.{Endpoint}
use cpp_request.Net.TcpConnection.{TcpConnection}
use cpp_request.Client.Keeping.{
  Client, forget_connection, keep_connection, close_reusable_connection,
}
use cpp_request.Client.Exchange.{
  Executed, Acquired, reuse_existing, connect_to, acquire, leave, finish_exchange, exchanged,
  read_response, exchange, acquired, execute_serialized, execute_once, is_reusable,
}
use cpp_request.ResponseParser.State.{new_parser}
use mathlib.Core.Path.{subst}
use cpp_request.Base.{◌≤◌, length}
use cpp_request.Limits.{ResponseLimits}
use cpp_request.ResponseParser.{is_completed}
use cpp_request.ResponseParser.State.{
  new_parser, Stage, reading_head, content_length_body, close_delimited_body, chunked_body,
  completed,
}
use cpp_request.ResponseParser.Invariant.{IsWithin, StageWithin, ResultWithin}
use cpp_request.ResponseParser.Bounds.{feed-IsWithin, finish_eof-IsWithin, new_parser-IsWithin}
use cpp_request.RequestSerializer.{serialize_request}
use cpp_request.Client.Behind.{exchange-Yields}
use cpp_request.Client.Receiving.{read_response-Yields, ParsedAs}

-- A response is within the limit of its body.
abbrev pub BodyWithin : ResponseLimits → Result Response → Type 0
BodyWithin l (ok response) = length response.body ≤ l.max_body_bytes
BodyWithin l (err e) = Unit {0}

completed_body :
    (l : ResponseLimits) (stage : Stage) (p : ResponseParser)
    → is_completed stage ≡ true
    → StageWithin l stage p
    → length p.response.body ≤ l.max_body_bytes
completed_body l reading_head p e w = cc
completed_body l content_length_body p e w = cc
completed_body l close_delimited_body p e w = cc
completed_body l chunked_body p e w = cc
completed_body l completed p e w = w.0

complete_body :
    (l : ResponseLimits) (p : ResponseParser)
    → is_complete p ≡ true
    → IsWithin l p
    → length p.response.body ≤ l.max_body_bytes
unfolding is_complete
complete_body l p e (k, w) = completed_body l p.stage p e w

forget_again : (s : Client) → forget_connection (forget_connection s) ≡ forget_connection s
unfolding forget_connection
forget_again s = refl

-- The settings of a client are the client without its connection.
module _ (sys : System) (settings : Client) where
  open sys use {World}

  abbrev pub IsSound : Executed World → Type 0
  IsSound x = (forget_connection x.client ≡ settings) × BodyWithin settings.response_limits x.result

  exchanged-IsSound :
      (r : Request) (z : SerializedRequest) (s : Client) (c : TcpConnection) (w : World)
      (x : Result ResponseParser)
      → forget_connection s ≡ settings
      → ParsedAs (IsWithin settings.response_limits) x
      → IsSound (exchanged sys r z s c w x)
  unfolding exchanged finish_exchange leave keep_connection forget_connection
  exchanged-IsSound r z s c w (err x) e h = (e, tt)
  exchanged-IsSound r z s c w (ok p) e (h, done) =
      let fits = complete_body settings.response_limits p done h in
      both IsSound (is_reusable r c p) (e, fits) (e, fits)

  read_response-IsSound :
      (fuel : ℕ) (r : Request) (z : SerializedRequest) (s : Client) (c : TcpConnection) (w : World)
      → forget_connection s ≡ settings
      → Yields IsSound (read_response sys fuel r z s c w)
  unfolding forget_connection
  read_response-IsSound fuel r z s c w e =
      let l = settings.response_limits in
      read_response-Yields sys (λ _ _. Unit {0}) (λ c t w _. yields (λ _. Unit {0}) _ (λ _ _. tt))
        (IsWithin l) (λ p bytes q x v _ h. feed-IsWithin l p bytes _ v h)
        (λ p x v _ h. subst (ResultWithin l (finish_eof p).parser) h (finish_eof-IsWithin l p v))
        IsSound fuel r z s c w tt
        (subst (λ t. IsWithin l (new_parser r.method t)) (sym (ap (λ t. t.response_limits) e))
          (new_parser-IsWithin r.method l))
        (λ x y. exchanged-IsSound r z s x.connection x.world x.outcome e y.1)

  leave-IsSound :
      (s : Client) (c : TcpConnection) (w : World) (e : Error)
      → forget_connection s ≡ settings
      → IsSound (leave sys s c w (err e))
  unfolding leave
  leave-IsSound s c w e h = (h, tt)

  exchange-IsSound :
      (fuel : ℕ) (r : Request) (z : SerializedRequest) (s : Client) (c : TcpConnection) (w : World)
      → forget_connection s ≡ settings
      → Yields IsSound (exchange sys fuel r z s c w)
  exchange-IsSound fuel r z s c w e =
      exchange-Yields sys fuel r z s IsSound (λ c' w' x. leave-IsSound s c' w' x e)
        (λ c' w'. read_response-IsSound fuel r z s c' w' e) c w

  forget-connect_to :
      (s : Client) (r : Result (List Endpoint)) (w : World)
      → forget_connection (connect_to sys s r w).client ≡ forget_connection s
  unfolding connect_to
  forget-connect_to s (err e) w = refl
  forget-connect_to s (ok endpoints) w = refl

  forget-acquire :
      (z : SerializedRequest) (s : Client) (w : World)
      → forget_connection (acquire sys z s w).client ≡ forget_connection s
  unfolding acquire close_reusable_connection
  forget-acquire z s w =
      let P : Acquired World → Type 0 = λ a. forget_connection a.client ≡ forget_connection s in
      both P (reuse_existing z s) (forget_again s)
        (forget-connect_to (forget_connection s) _ _ ∙ forget_again s)

  acquired-IsSound :
      (fuel : ℕ) (r : Request) (z : SerializedRequest) (s : Client) (w : World)
      (x : Result TcpConnection)
      → forget_connection s ≡ settings
      → Yields IsSound (acquired sys fuel r z s w x)
  acquired-IsSound fuel r z s w (err x) e = (e, tt)
  acquired-IsSound fuel r z s w (ok c) e = exchange-IsSound fuel r z s c w e

  execute_serialized-IsSound :
      (fuel : ℕ) (r : Request) (s : Client) (w : World) (x : Result SerializedRequest)
      → forget_connection s ≡ settings
      → Yields IsSound (execute_serialized sys fuel r s w x)
  unfolding execute_serialized
  execute_serialized-IsSound fuel r s w (err x) e = (e, tt)
  execute_serialized-IsSound fuel r s w (ok z) e =
      acquired-IsSound fuel r z _ _ _ (forget-acquire z s w ∙ e)

  pub execute_once-IsSound :
      (inet_pton6 : Bytes → Bool) (fuel : ℕ) (r : Request) (s : Client) (w : World)
      → forget_connection s ≡ settings
      → Yields IsSound (execute_once sys inet_pton6 fuel r s w)
  unfolding execute_once
  execute_once-IsSound inet_pton6 fuel r s w e =
      execute_serialized-IsSound fuel r s w (serialize_request inet_pton6 r) e

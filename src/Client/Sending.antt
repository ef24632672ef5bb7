-- ===== src/Client/Sending.antt =====
-- What `execute_once` hands over on its connection: the serialized request, head and body.
use cpp_request.Base.{
  both, Yields, yields, ℕ, ◌≡◌, sym, ap, ◌∙◌, false, inl, inr, Bool-cases, Bytes, arith,
}
use cpp_request.Error.{ℤ, Result, ok, err}
use cpp_request.Request.{Request}
use cpp_request.Response.{Response}
use cpp_request.Url
use cpp_request.RequestSerializer.{SerializedRequest}
use cpp_request.ResponseParser.State.{ResponseParser}
use cpp_request.Platform.{System}
use cpp_request.Platform.Kernel.{Observer, Kernel}
use cpp_request.Net.TcpConnection.{TcpConnection, connected, destroy, release_native_handle}
use cpp_request.Net.TcpConnection.Reading.{Received, Read, read_some}
use cpp_request.Net.TcpConnection.Receipt.{read_some-HasRead, ReadAs}
use cpp_request.Client.Keeping.{Client, keep_connection}
use cpp_request.Client.Exchange.{
  Executed, leave, finish_exchange, exchanged, read_response, is_reusable, read_buffer_size,
}
use cpp_request.Base.{◌++◌, ◌≤◌, length, take, take_all}
use cpp_request.Platform.Ownership.{IsCalm-destroy}
use cpp_request.Net.TcpConnection.Receipt.{ReadAs, read_some-HasRead}
use cpp_request.Client.Receiving.{read_response-Yields}

module _ (sys : System) (o : Observer sys) (k : Kernel sys o) (h : ℤ) (start : Bytes) where
  open sys use {World}
  open o use {output}

  -- On the handle, after a start, some bytes were handed over.
  abbrev pub HasOutput : Bytes → World → Type 0
  HasOutput text w = output h w ≡ start ++ text

  -- All of a text, or for an error the first bytes of it.
  abbrev pub SentAs : Bytes → World → Result Response → Type 0
  SentAs text w (ok response) = HasOutput text w
  SentAs text w (err e) = (n : ℕ) × ((n ≤ length text) × HasOutput (take n text) w)

  abbrev pub HasSentRequest : Bytes → Executed World → Type 0
  HasSentRequest text x = SentAs text x.world x.result

  all-SentAs : (text : Bytes) (w : World) (r : Result Response) → HasOutput text w → SentAs text w r
  all-SentAs text w (ok response) e = e
  all-SentAs text w (err x) e = (
    length text,
    (omega arith, e ∙ ap (◌++◌ start) (sym (take_all (length text) text (omega arith)))),
  )

  pub output-destroy :
      (c : TcpConnection) (w : World) (text : Bytes)
      → HasOutput text w
      → HasOutput text (destroy sys c w)
  unfolding destroy
  output-destroy c w text e = (IsCalm-destroy sys o k c.socket w).0 h ∙ e

  pub output-leave :
      (s : Client) (c : TcpConnection) (w : World) (r : Result Response) (text : Bytes)
      → HasOutput text w
      → HasSentRequest text (leave sys s c w r)
  unfolding leave
  output-leave s c w r text e = all-SentAs text (destroy sys c w) r (output-destroy c w text e)

  exchanged-HasSentRequest :
      (r : Request) (z : SerializedRequest) (s : Client) (c : TcpConnection) (w : World)
      (x : Result ResponseParser) (text : Bytes)
      → HasOutput text w
      → HasSentRequest text (exchanged sys r z s c w x)
  unfolding exchanged finish_exchange
  exchanged-HasSentRequest r z s c w (err x) text e = output-leave s c w (err x) text e
  exchanged-HasSentRequest r z s c w (ok p) text e =
      let (handle, rest) = release_native_handle c in
      both (HasSentRequest text) (is_reusable r c p)
        (output-leave (keep_connection handle (Url.host z.url) z.url.port s) rest w (ok p.response)
          text e)
        (output-leave s c w (ok p.response) text e)

  read_output :
      (c c' : TcpConnection) (w w' : World) (r : Result Received) (text : Bytes)
      → HasOutput text w
      → ReadAs sys o k c read_buffer_size w c' w' r
      → HasOutput text w'
  read_output c c' w w' (ok n) text e a = a.1.0.1.0 h ∙ e
  read_output c c' w w' (err x) text e a = a.1.1.0 h ∙ e

  read_some-HasOutput :
      (text : Bytes) (c : TcpConnection) (timeout : ℤ) (w : World)
      → HasOutput text w
      → Yields
          (λ (d : Read sys). HasOutput text d.world)
          (read_some sys c false read_buffer_size timeout w)
  unfolding read_some
  read_some-HasOutput text c timeout w e = elim (Bool-cases (connected c)) [
    | inl v ↦
        yields (λ d. HasOutput text d.world) (read_some sys c false read_buffer_size timeout w)
          (λ d f.
            read_output c d.connection w d.world d.result text e
              (read_some-HasRead sys o k c read_buffer_size timeout w d v (omega arith) f))
    | inr v ↦ rw v e
  ]

  pub read_response-HasSentRequest :
      (fuel : ℕ) (r : Request) (z : SerializedRequest) (s : Client) (c : TcpConnection) (w : World)
      (text : Bytes)
      → HasOutput text w
      → Yields (HasSentRequest text) (read_response sys fuel r z s c w)
  read_response-HasSentRequest fuel r z s c w text e =
      read_response-Yields sys (λ c w. HasOutput text w) (read_some-HasOutput text) (λ _. Unit {0})
        (λ _ _ _ _ _ _ _. tt) (λ _ _ _ _ _. tt) (HasSentRequest text) fuel r z s c w e tt
        (λ x (f, _). exchanged-HasSentRequest r z s x.connection x.world x.outcome text f)

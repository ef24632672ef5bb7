-- ===== src/Client/Receiving.antt =====
-- The loop of `execute_once` that reads, for any property of the connection that reading keeps and
-- any property of the parser that feeding keeps.
use cpp_request.Base.{
  both, both_with, Yields, yields, ℕ, ◌≡◌, refl, ap, ◌∙◌, true, false, Option, none, some, Bytes,
}
use cpp_request.Base.Loop.{After, loop_inv}
use cpp_request.Error.{ℤ, Error, Result, ok, err}
use cpp_request.Request.{Request}
use cpp_request.RequestSerializer.{SerializedRequest}
use cpp_request.ResponseParser.{finish_eof, feed, is_complete}
use cpp_request.ResponseParser.State.{ResponseParser, ResponseParseProgress, Returned}
use cpp_request.Platform.{System}
use cpp_request.Net.TcpConnection.{TcpConnection}
use cpp_request.Net.TcpConnection.Reading.{Received, Read, read_some}
use cpp_request.Client.Keeping.{Client}
use cpp_request.Client.Exchange.{
  Executed, Exchanging, Exchanged, judge_eof, judge_failure, judge_fed, judge_read, after_read,
  after_feed, step_exchange, exchanged, after_loop, read_response, is_closed_code, read_buffer_size,
  ReadingStep,
}
use cpp_request.Base.Loop.{loop}
use cpp_request.ResponseParser.State.{new_parser}

-- A parser that is passed on has a property, and a whole message.
abbrev pub ParsedAs : (ResponseParser → Type 0) → Result ResponseParser → Type 0
ParsedAs R (ok p) = R p × (is_complete p ≡ true)
ParsedAs R (err e) = Unit {0}

module _ (sys : System) (P : TcpConnection → sys.World → Type 0)
    (reads : (c : TcpConnection) (timeout : ℤ) (w : sys.World)
      → P c w
      → Yields
          (λ (d : Read sys). P d.connection d.world)
          (read_some sys c false read_buffer_size timeout w))
    (R : ResponseParser → Type 0)
    (feeds : (p : ResponseParser) (bytes : Bytes) (q : ResponseParser) (x : ResponseParseProgress)
      → R p
      → is_complete p ≡ false
      → feed p bytes ≡ some (record { parser = q; result = ok x })
      → R q)
    (finishes : (p : ResponseParser) (x : ResponseParseProgress)
      → R p
      → is_complete p ≡ false
      → (finish_eof p).result ≡ ok x
      → R (finish_eof p).parser) where
  open sys use {World}

  -- At each round.
  abbrev pub IsExchanging : Exchanging World → Type 0
  IsExchanging x = P x.connection x.world × R x.parser

  -- At the end.
  abbrev pub HasExchanged : Exchanged World → Type 0
  HasExchanged x = P x.connection x.world × ParsedAs R x.outcome

  abbrev StepExchanged : ReadingStep sys → Type 0
  StepExchanged = After IsExchanging HasExchanged

  judge_eof-HasExchanged :
      (c : TcpConnection) (e : Error) (w : World) (p : ResponseParser)
      (r : Result ResponseParseProgress)
      → P c w
      → ((x : ResponseParseProgress) → r ≡ ok x → R p)
      → HasExchanged (judge_eof sys c e w p r)
  unfolding judge_eof
  judge_eof-HasExchanged c e w p (err x) b h = (b, tt)
  judge_eof-HasExchanged c e w p (ok x) b h =
      both_with HasExchanged (is_complete p) (λ done. (b, (h x refl, done))) (λ _. (b, tt))

  judge_fed-StepExchanged :
      (c : TcpConnection) (w : World) (p : ResponseParser) (r : Result ResponseParseProgress)
      → P c w
      → ((x : ResponseParseProgress) → r ≡ ok x → R p)
      → StepExchanged (judge_fed sys c w p r)
  unfolding judge_fed
  judge_fed-StepExchanged c w p (err e) b h = (b, tt)
  judge_fed-StepExchanged c w p (ok x) b h = (b, h x refl)

  after_feed-StepExchanged :
      (c : TcpConnection) (w : World) (r : Option Returned)
      → P c w
      → ((d : Returned) → r ≡ some d → (x : ResponseParseProgress) → d.result ≡ ok x → R d.parser)
      → StepExchanged (after_feed sys c w r)
  after_feed-StepExchanged c w none b h = tt
  after_feed-StepExchanged c w (some r) b h =
      judge_fed-StepExchanged c w r.parser r.result b (h r refl)

  judge_read-StepExchanged :
      (c : TcpConnection) (p : ResponseParser) (w : World) (r : Result Received)
      → P c w
      → R p
      → is_complete p ≡ false
      → StepExchanged (judge_read sys c p w r)
  unfolding judge_read judge_failure
  judge_read-StepExchanged c p w (err e) b h u =
      both HasExchanged (is_closed_code e.code)
        (judge_eof-HasExchanged c e w (finish_eof p).parser (finish_eof p).result b
          (λ x f. finishes p x h u f))
        (b, tt)
  judge_read-StepExchanged c p w (ok r) b h u =
      after_feed-StepExchanged c w (feed p r.bytes) b (λ d f x g.
        feeds p r.bytes d.parser x h u
          (f ∙ ap (λ y. some (record { parser = d.parser; result = y })) g))

  after_read-StepExchanged :
      (p : ResponseParser) (d : Option (Read sys))
      → Yields (λ (d : Read sys). P d.connection d.world) d
      → R p
      → is_complete p ≡ false
      → StepExchanged (after_read sys p d)
  after_read-StepExchanged p none y h u = tt
  after_read-StepExchanged p (some d) y h u =
      judge_read-StepExchanged d.connection p d.world d.result y h u

  step_exchange-StepExchanged :
      (timeout : ℤ) (x : Exchanging World)
      → IsExchanging x
      → StepExchanged (step_exchange sys timeout x)
  unfolding step_exchange
  step_exchange-StepExchanged timeout x (b, h) =
      both_with StepExchanged (is_complete x.parser) (λ done. (b, (h, done)))
        (λ u. after_read-StepExchanged x.parser _ (reads x.connection timeout x.world b) h u)

  -- What holds of `read_response`, if it holds of each way out of the loop.
  pub read_response-Yields :
      (Q : Executed World → Type 0) (fuel : ℕ) (r : Request) (z : SerializedRequest) (s : Client)
      (c : TcpConnection) (w : World)
      → P c w
      → R (new_parser r.method s.response_limits)
      → ((x : Exchanged World)
          → HasExchanged x
          → Q (exchanged sys r z s x.connection x.world x.outcome))
      → Yields Q (read_response sys fuel r z s c w)
  unfolding read_response
  read_response-Yields Q fuel r z s c w b h out =
      after_loop-Yields (loop fuel (step_exchange sys s.read_timeout) start) (
        yields HasExchanged _ (λ x.
          loop_inv IsExchanging HasExchanged (step_exchange sys s.read_timeout)
            (step_exchange-StepExchanged s.read_timeout) fuel start (b, h)))
    where
      start : Exchanging World
      start = record { connection = c; parser = new_parser r.method s.response_limits; world = w }

      after_loop-Yields :
          (x : Option (Exchanged World)) → Yields HasExchanged x → Yields Q (after_loop sys r z s x)
      after_loop-Yields none y = tt
      after_loop-Yields (some x) y = out x y

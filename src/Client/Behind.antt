-- ===== src/Client/Behind.antt =====
-- `execute_once` behind its connection: what holds of each of its errors and of the reading of the
-- response holds of its result.
use cpp_request.Base.{both, Yields, ℕ, Option, none, some, is_empty}
use cpp_request.Error.{Error, Result, ok, err}
use cpp_request.Request.{Request}
use cpp_request.RequestSerializer.{SerializedRequest}
use cpp_request.Platform.{System}
use cpp_request.Net.TcpConnection.{TcpConnection}
use cpp_request.Net.TcpConnection.Writing.{Written}
use cpp_request.Client.Keeping.{Client}
use cpp_request.Client.Exchange.{Executed, leave, read_response, after_write, write_body, exchange}
use cpp_request.Client.Exchange.{judge_write, after_write}

module _ (sys : System) (fuel : ℕ) (r : Request) (z : SerializedRequest) (s : Client)
    (Q : Executed sys.World → Type 0)
    (leaves : (c : TcpConnection) (w : sys.World) (e : Error) → Q (leave sys s c w (err e)))
    (reads : (c : TcpConnection) (w : sys.World)
      → Yields Q (read_response sys fuel r z s c w)) where
  open sys use {World}

  judge_write-Yields :
      (rest : TcpConnection → World → Option (Executed World)) (c : TcpConnection) (w : World)
      (x : Result ℕ)
      → ((c : TcpConnection) (w : World) → Yields Q (rest c w))
      → Yields Q (judge_write sys s rest c w x)
  unfolding judge_write
  judge_write-Yields rest c w (ok n) h = h c w
  judge_write-Yields rest c w (err e) h = leaves c w e

  after_write-Yields :
      (rest : TcpConnection → World → Option (Executed World)) (d : Option (Written sys))
      → ((c : TcpConnection) (w : World) → Yields Q (rest c w))
      → Yields Q (after_write sys s rest d)
  after_write-Yields rest none h = tt
  after_write-Yields rest (some d) h = judge_write-Yields rest d.connection d.world d.result h

  write_body-Yields :
      (deadline : ℕ) (c : TcpConnection) (w : World)
      → Yields Q (write_body sys fuel r z s deadline c w)
  unfolding write_body
  write_body-Yields deadline c w =
      both (Yields Q) (is_empty z.body) (reads c w)
        (after_write-Yields (read_response sys fuel r z s) _ reads)

  pub exchange-Yields : (c : TcpConnection) (w : World) → Yields Q (exchange sys fuel r z s c w)
  unfolding exchange
  exchange-Yields c w = after_write-Yields _ _ (λ c' w'. write_body-Yields _ c' w')

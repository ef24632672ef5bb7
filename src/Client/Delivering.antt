-- ===== src/Client/Delivering.antt =====
-- `execute_once` behind its connection: the whole request is handed over, or its first bytes.
use mathlib.Core.Path.{subst}
use cpp_request.Base.{
  both_with, Yields, yielded, ℕ, ◌+◌, ◌≡◌, refl, sym, ap, ◌∙◌, true, Option, none, some, Bytes,
  is_empty, arith,
}
use cpp_request.Error.{ℤ, pos, Error, Result, ok, err}
use cpp_request.Request.{Request}
use cpp_request.RequestSerializer.{SerializedRequest}
use cpp_request.Platform.{System}
use cpp_request.Platform.Kernel.{Observer, Kernel}
use cpp_request.Net.TcpConnection.{TcpConnection, connected, remaining_timeout}
use cpp_request.Net.TcpConnection.Writing.{Written, write_all}
use cpp_request.Net.TcpConnection.Delivery.{write_all-HasWritten, WrittenAs}
use cpp_request.Client.Keeping.{Client}
use cpp_request.Client.Exchange.{Executed, leave, read_response, after_write, write_body, exchange}
use cpp_request.Base.{
  ◌++◌, ◌≤◌, [], length, take, take_all, take-append, take-append_of_le, append-nil, append_assoc,
  length-append, empty_is_nil,
}
use cpp_request.Net.TcpConnection.Delivery.{WrittenAs, HasWritten, write_all-HasWritten}
use cpp_request.Client.Exchange.{judge_write, after_write, add_timeout}
use cpp_request.Client.Sending.{
  HasOutput, HasSentRequest, output-destroy, read_response-HasSentRequest,
}

take-length_add : (xs ys : Bytes) (n : ℕ) → take (length xs + n) (xs ++ ys) ≡ xs ++ take n ys
take-length_add xs ys n =
    rw (take-append (length xs + n) xs ys, take_all (length xs + n) xs (omega arith))
      (ap (λ m. xs ++ take m ys) (omega arith))

first_of :
    (before part after : Bytes) (n : ℕ)
    → n ≤ length part
    → take (length before + n) ((before ++ part) ++ after) ≡ before ++ take n part
first_of before part after n le =
    rw (append_assoc before part after, take-length_add before (part ++ after) n)
      (ap (◌++◌ before) (take-append_of_le n part after le))

module _ (sys : System) (o : Observer sys) (k : Kernel sys o) (c : TcpConnection)
    (start : Bytes) where
  open sys use {World}
  open o use {output}

  abbrev Sends : Bytes → Option (Executed World) → Type 0
  Sends text = Yields (HasSentRequest sys o k c.socket.handle start text)

  abbrev Has : Bytes → World → Type 0
  Has = HasOutput sys o k c.socket.handle start

  -- An error after the first bytes of the text.
  leave_early :
      (s : Client) (c' : TcpConnection) (w : World) (e : Error) (text : Bytes) (n : ℕ)
      → n ≤ length text
      → Has (take n text) w
      → Sends text (some (leave sys s c' w (err e)))
  unfolding leave
  leave_early s c' w e text n le f =
      (n, (le, output-destroy sys o k c.socket.handle start c' w (take n text) f))

  -- Behind a `write_all` of the next bytes.
  judge_write-Sends :
      (s : Client) (rest : TcpConnection → World → Option (Executed World)) (c' : TcpConnection)
      (w w' : World) (r : Result ℕ) (before part after : Bytes)
      → Has before w
      → WrittenAs sys o k c part w c' w' r
      → ((w'' : World) → Has (before ++ part) w'' → Sends ((before ++ part) ++ after) (rest c w''))
      → Sends ((before ++ part) ++ after) (judge_write sys s rest c' w' r)
  unfolding judge_write
  judge_write-Sends s rest c' w w' (ok n) before part after f (_, (e, (_, g))) next =
      let all_of : Has (before ++ part) w' =
        g ∙ ap (λ x. x ++ part) f ∙ append_assoc start before part in
      subst (λ c''. Sends ((before ++ part) ++ after) (rest c'' w')) (sym e) (next w' all_of)
  judge_write-Sends s rest c' w w' (err x) before part after f (e, (_, (n, (g, le)))) next =
      let first : Has (take (length before + n) ((before ++ part) ++ after)) w' =
        g
        ∙ ap (λ x. x ++ take n part) f
        ∙ append_assoc start before (take n part)
        ∙ ap (◌++◌ start) (sym (first_of before part after n le)) in
      leave_early s c' w' x ((before ++ part) ++ after) (length before + n)
        (omega (arith, length-append (before ++ part) after, length-append before part)) first

  after_write-Sends :
      (s : Client) (rest : TcpConnection → World → Option (Executed World)) (timeout : ℤ)
      (w : World) (before part after : Bytes)
      → connected c ≡ true
      → Has before w
      → ((w' : World) → Has (before ++ part) w' → Sends ((before ++ part) ++ after) (rest c w'))
      → Sends ((before ++ part) ++ after) (after_write sys s rest (write_all sys c part timeout w))
  after_write-Sends s rest timeout w before part after v f next =
      behind (write_all sys c part timeout w) (write_all-HasWritten sys o k c part timeout w)
    where
      behind :
          (r : Option (Written sys))
          → ((d : Written sys) → connected c ≡ true → r ≡ some d → HasWritten sys o k c part w d)
          → Sends ((before ++ part) ++ after) (after_write sys s rest r)
      behind none written = tt
      behind (some d) written =
          judge_write-Sends s rest d.connection w d.world d.result before part after f
            (written d v refl) next

  asked-Has : (w : World) (text : Bytes) → Has text w → Has text (sys.now w).1
  asked-Has w text e = (k.now-IsQuiet w).1.0 c.socket.handle ∙ e

  write_body-Sends :
      (fuel : ℕ) (r : Request) (z : SerializedRequest) (s : Client) (deadline : ℕ) (w : World)
      → connected c ≡ true
      → Has z.head w
      → Sends (z.head ++ z.body) (write_body sys fuel r z s deadline c w)
  unfolding write_body remaining_timeout
  write_body-Sends fuel r z s deadline w v e =
      let (left, w1) = remaining_timeout sys deadline w in
      let h = c.socket.handle in
      both_with (Sends (z.head ++ z.body)) (is_empty z.body)
        (λ b. read_response-HasSentRequest sys o k h start fuel r z s c w (z.head ++ z.body) (
          e
          ∙ ap (◌++◌ start)
              (sym (append-nil z.head) ∙ ap (◌++◌ z.head) (sym (empty_is_nil z.body b)))))
        (λ _. rw append-nil at (
          after_write-Sends s (read_response sys fuel r z s) (pos left) w1 z.head z.body [] v
            (asked-Has w z.head e)
            (λ w' f.
              read_response-HasSentRequest sys o k h start fuel r z s c w'
                ((z.head ++ z.body) ++ [])
                (f ∙ ap (◌++◌ start) (sym (append-nil (z.head ++ z.body)))))))

-- Under the laws of the system calls, on a connected socket: when `execute_once`, behind its
-- connection, returns a response, then exactly the serialized head and body were handed over on
-- the connection, once and in this order; when it returns an error, a first part of them was.
pub exchange-HasSentRequest :
    (sys : System) (o : Observer sys) (k : Kernel sys o) (fuel : ℕ) (r : Request)
    (z : SerializedRequest) (s : Client) (c : TcpConnection) (w : sys.World)
    (x : Executed sys.World)
    → connected c ≡ true
    → exchange sys fuel r z s c w ≡ some x
    → HasSentRequest sys o k c.socket.handle (o.output c.socket.handle w) (z.head ++ z.body) x
unfolding exchange remaining_timeout
exchange-HasSentRequest sys o k fuel r z s c w x v =
    let (t, w1) = sys.now w in
    let deadline = add_timeout t s.write_timeout in
    let (left, w2) = remaining_timeout sys deadline w1 in
    let start = o.output c.socket.handle w in
    yielded (HasSentRequest sys o k c.socket.handle start (z.head ++ z.body)) x (
      after_write-Sends sys o k c start s (write_body sys fuel r z s deadline) (pos left) w2 []
        z.head z.body v
        (asked-Has sys o k c start w1 [] (asked-Has sys o k c start w [] (sym (append-nil start))))
        (λ w' f. write_body-Sends sys o k c start fuel r z s deadline w' v f))

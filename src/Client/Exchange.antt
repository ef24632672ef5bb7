-- ===== src/Client/Exchange.antt =====
-- src/core/client.cpp: `Client::execute_once`, one request and its response. The loop that reads has
-- no bound of its own in the program, so that it runs on fuel; `none` means that the fuel ran out.
use cpp_request.Base.{
  ℕ, ◌+◌, ◌-◌, ◌*◌, Bool, true, false, not, ◌&&◌, if◌then◌else◌, Option, none, some, List, Bytes,
  is_empty,
}
use cpp_request.Base.Loop.{Step, next, stop, stuck, loop}
use cpp_request.Error.{ℤ, pos, negsuc, ErrorCode, Error, Result, ok, err, connection_closed}
use cpp_request.Request.{Request}
use cpp_request.Response.{Response}
use cpp_request.Url
use cpp_request.RequestSerializer.{SerializedRequest, serialize_request}
use cpp_request.ResponseParser.{feed, finish_eof, is_complete, connection_reusable}
use cpp_request.ResponseParser.State.{ResponseParser, new_parser, Returned, ResponseParseProgress}
use cpp_request.Platform.{System}
use cpp_request.Net.Endpoint.{Endpoint}
use cpp_request.Net.Resolver.{resolve}
use cpp_request.Net.TcpConnection.{
  TcpConnection, adopt_native_handle, release_native_handle, connected, connect, destroy,
  nanoseconds, remaining_timeout,
}
use cpp_request.Net.TcpConnection.Writing.{Written, write_all}
use cpp_request.Net.TcpConnection.Reading.{Received, Read, read_some}
use cpp_request.Client.{same_stored_origin, request_wants_connection_close}
use cpp_request.Client.Keeping.{
  Client, decode_socket_handle, forget_connection, keep_connection, close_reusable_connection,
}

-- A point in time and a timeout; a time before the clock's origin counts as the origin.
abbrev pub add_timeout : ℕ → ℤ → ℕ
add_timeout t (pos ms) = t + nanoseconds ms
add_timeout t (negsuc ms) = t - nanoseconds (ms + 1)

abbrev pub is_closed_code : ErrorCode → Bool
is_closed_code connection_closed = true
is_closed_code _ = false

-- `read_buffer.size()`
abbrev pub read_buffer_size : ℕ
read_buffer_size = 16 * 1024

-- What a request leaves behind.
pub record Executed (W : Type 0) : Type 0 where
  pub client : Client
  pub world : W
  pub result : Result Response

-- The variables of the loop that reads.
pub record Exchanging (W : Type 0) : Type 0 where
  pub connection : TcpConnection
  pub parser : ResponseParser
  pub world : W

-- The end of that loop.
pub record Exchanged (W : Type 0) : Type 0 where
  pub connection : TcpConnection
  pub world : W
  pub outcome : Result ResponseParser

-- What `execute_once` has before it writes: the connection, or an error.
pub record Acquired (W : Type 0) : Type 0 where
  pub client : Client
  pub world : W
  pub outcome : Result TcpConnection

unfoldable pub reuse_existing : SerializedRequest → Client → Bool
reuse_existing z s =
    s.has_reusable_connection
    && same_stored_origin s.reusable_host s.reusable_port (Url.host z.url) z.url.port

unfoldable pub is_reusable : Request → TcpConnection → ResponseParser → Bool
is_reusable r c p =
    connected c
    && connection_reusable p
    && is_empty p.buffer
    && not (request_wants_connection_close r)

module _ (sys : System) where
  open sys use {World, now}

  unfoldable pub connect_to : Client → Result (List Endpoint) → World → Acquired World
  connect_to s (err e) w = record { client = s; world = w; outcome = err e }
  connect_to s (ok endpoints) w =
      let (r, w1) = connect sys endpoints s.connect_timeout w in
      record { client = s; world = w1; outcome = r }

  unfoldable pub acquire : SerializedRequest → Client → World → Acquired World
  acquire z s w =
      if reuse_existing z s
      then record {
        client = forget_connection s;
        world = w;
        outcome = ok (adopt_native_handle (decode_socket_handle s.reusable_socket_token));
      }
      else (let (s1, w1) = close_reusable_connection sys s w in
          let (endpoints, w2) = resolve sys (Url.host z.url) z.url.port w1 in
          connect_to s1 endpoints w2)

  -- `return error;`, with the destructor of the local connection.
  unfoldable pub leave : Client → TcpConnection → World → Result Response → Executed World
  leave s c w r = record { client = s; world = destroy sys c w; result = r }

  -- Behind a `finish_eof` without an error: the message is complete, or the read's error counts.
  abbrev pub judge_eof_progress : TcpConnection → Error → World → ResponseParser → Exchanged World
  judge_eof_progress c e w p =
      if is_complete p
      then record { connection = c; world = w; outcome = ok p }
      else record { connection = c; world = w; outcome = err e }

  unfoldable pub judge_eof :
      TcpConnection
      → Error
      → World
      → ResponseParser
      → Result ResponseParseProgress
      → Exchanged World
  judge_eof c e w p (err failure) = record { connection = c; world = w; outcome = err failure }
  judge_eof c e w p (ok progress) = judge_eof_progress c e w p

  -- Behind a `read_some` that failed.
  unfoldable pub judge_failure : TcpConnection → ResponseParser → Error → World → Exchanged World
  judge_failure c p e w =
      let r = finish_eof p in
      if is_closed_code e.code
      then judge_eof c e w r.parser r.result
      else record { connection = c; world = w; outcome = err e }

  abbrev pub ReadingStep : Type 0
  ReadingStep = Step (Exchanging World) (Exchanged World)

  -- Behind `feed`.
  unfoldable pub judge_fed :
      TcpConnection → World → ResponseParser → Result ResponseParseProgress → ReadingStep
  judge_fed c w p (err e) = stop (record { connection = c; world = w; outcome = err e })
  judge_fed c w p (ok progress) = next (record { connection = c; parser = p; world = w })

  abbrev pub after_feed : TcpConnection → World → Option Returned → ReadingStep
  after_feed c w none = stuck
  after_feed c w (some r) = judge_fed c w r.parser r.result

  -- Behind `read_some`.
  unfoldable pub judge_read : TcpConnection → ResponseParser → World → Result Received → ReadingStep
  judge_read c p w (err e) = stop (judge_failure c p e w)
  judge_read c p w (ok r) = after_feed c w (feed p r.bytes)

  abbrev pub after_read : ResponseParser → Option (Read sys) → ReadingStep
  after_read p none = stuck
  after_read p (some d) = judge_read d.connection p d.world d.result

  -- The body of the loop, with its test.
  unfoldable pub step_exchange : ℤ → Exchanging World → ReadingStep
  step_exchange read_timeout x =
      if is_complete x.parser
      then stop (record { connection = x.connection; world = x.world; outcome = ok x.parser })
      else after_read x.parser
          (read_some sys x.connection false read_buffer_size read_timeout x.world)

  -- Behind the loop.
  unfoldable pub finish_exchange :
      Request → SerializedRequest → Client → TcpConnection → World → ResponseParser → Executed World
  finish_exchange r z s c w p =
      if is_reusable r c p
      then (let (handle, rest) = release_native_handle c in
          leave (keep_connection handle (Url.host z.url) z.url.port s) rest w (ok p.response))
      else leave s c w (ok p.response)

  unfoldable pub exchanged :
      Request
      → SerializedRequest
      → Client
      → TcpConnection
      → World
      → Result ResponseParser
      → Executed World
  exchanged r z s c w (err e) = leave s c w (err e)
  exchanged r z s c w (ok p) = finish_exchange r z s c w p

  abbrev pub after_loop :
      Request → SerializedRequest → Client → Option (Exchanged World) → Option (Executed World)
  after_loop r z s none = none
  after_loop r z s (some x) = some (exchanged r z s x.connection x.world x.outcome)

  -- Behind the writes.
  unfoldable pub read_response :
      ℕ → Request → SerializedRequest → Client → TcpConnection → World → Option (Executed World)
  read_response fuel r z s c w = after_loop r z s (
      loop fuel (step_exchange s.read_timeout)
        (record { connection = c; parser = new_parser r.method s.response_limits; world = w }))

  -- Behind a `write_all`: its error, or what follows.
  unfoldable pub judge_write :
      Client
      → (TcpConnection → World → Option (Executed World))
      → TcpConnection
      → World
      → Result ℕ
      → Option (Executed World)
  judge_write s rest c w (err e) = some (leave s c w (err e))
  judge_write s rest c w (ok n) = rest c w

  abbrev pub after_write :
      Client
      → (TcpConnection → World → Option (Executed World))
      → Option (Written sys)
      → Option (Executed World)
  after_write s rest none = none
  after_write s rest (some d) = judge_write s rest d.connection d.world d.result

  unfoldable pub write_body :
      ℕ → Request → SerializedRequest → Client → ℕ → TcpConnection → World → Option (Executed World)
  write_body fuel r z s deadline c w =
      if is_empty z.body
      then read_response fuel r z s c w
      else (let (left, w1) = remaining_timeout sys deadline w in
          after_write s (read_response fuel r z s) (write_all sys c z.body (pos left) w1))

  -- Behind the connection.
  unfoldable pub exchange :
      ℕ → Request → SerializedRequest → Client → TcpConnection → World → Option (Executed World)
  exchange fuel r z s c w =
      let (t, w1) = now w in
      let deadline = add_timeout t s.write_timeout in
      let (left, w2) = remaining_timeout sys deadline w1 in
      after_write s (write_body fuel r z s deadline) (write_all sys c z.head (pos left) w2)

  abbrev pub acquired :
      ℕ
      → Request
      → SerializedRequest
      → Client
      → World
      → Result TcpConnection
      → Option (Executed World)
  acquired fuel r z s w (err e) = some (record { client = s; world = w; result = err e })
  acquired fuel r z s w (ok c) = exchange fuel r z s c w

  unfoldable pub execute_serialized :
      ℕ → Request → Client → World → Result SerializedRequest → Option (Executed World)
  execute_serialized fuel r s w (err e) = some (record { client = s; world = w; result = err e })
  execute_serialized fuel r s w (ok z) =
      let a = acquire z s w in acquired fuel r z a.client a.world a.outcome

  unfoldable pub execute_once :
      (Bytes → Bool) → ℕ → Request → Client → World → Option (Executed World)
  execute_once inet_pton6 fuel r s w =
      execute_serialized fuel r s w (serialize_request inet_pton6 r)

-- ===== src/Net/TcpConnection.antt =====
-- src/net/tcp_connection.hpp and src/net/tcp_connection.cpp: a connected socket. Points in time are
-- nanoseconds of the steady clock; a timeout that a caller gives is a number of milliseconds that
-- may be negative. Sums of a time and a timeout are those of unbounded numbers.
pub mod Waiting
pub mod Writing
pub mod Reading
pub mod Connecting
pub mod Closing
pub mod Delivery
pub mod Receipt
pub mod Returns
use cpp_request.Base.{
  ℕ, ◌+◌, ◌-◌, ◌*◌, ◌/◌, Bool, true, false, not, ◌==◌, leb, if◌then◌else◌, List, [], ◌∷◌,
}
use cpp_request.Error.{
  ℤ, pos, negsuc, ErrorCode, Error, Result, ok, err, fail, connect_timeout, connect_failed,
  socket_create_failed,
}
use cpp_request.Platform.{System}
use cpp_request.Platform.NativeSocket.{NativeSocket, no_socket}
use cpp_request.Platform.NativeSocket
use cpp_request.Platform.NetworkRuntime.{ensure_network_runtime}
use cpp_request.Platform.SocketConnect.{
  ConnectStatus, ConnectAttemptResult, create_tcp_socket, connect_with_timeout,
}
use cpp_request.Net.Endpoint.{Endpoint, family}
use cpp_request.Net.Endpoint

pub record TcpConnection : Type 0 where
  pub socket : NativeSocket

-- `TcpConnection()`
abbrev pub no_connection : TcpConnection
no_connection = record { socket = no_socket }

unfoldable pub adopt_native_handle : ℤ → TcpConnection
adopt_native_handle handle = record { socket = record { handle = handle } }

unfoldable pub connected : TcpConnection → Bool
connected c = NativeSocket.valid c.socket

unfoldable pub release_native_handle : TcpConnection → ℤ × TcpConnection
release_native_handle c =
    let (handle, rest) = NativeSocket.release c.socket in (handle, record { socket = rest })

-- The milliseconds of a timeout, 0 for those that `timeout.count() <= 0` refuses.
abbrev pub milliseconds : ℤ → ℕ
milliseconds (pos n) = n
milliseconds (negsuc n) = 0

abbrev pub nanoseconds : ℕ → ℕ
nanoseconds ms = ms * 1000000

-- `Error{code, native_code}`
abbrev pub native_error : ErrorCode → ℤ → Error
native_error code native_code = record { code = code; native_code = native_code }

-- What is left of the time until the deadline, in whole milliseconds, and at least one.
unfoldable pub time_left : ℕ → ℕ → ℕ
time_left deadline now =
    let remaining = (deadline - now) / 1000000 in
    if leb deadline now then 0 else if remaining == 0 then 1 else remaining

-- What a call leaves behind: the connection, the world and the result.
pub record Done (W : Type 0) (A : Type 0) : Type 0 where
  pub connection : TcpConnection
  pub world : W
  pub result : Result A

-- The variables of the loop over the endpoints.
pub record Attempts : Type 0 where
  pub created_socket : Bool
  pub saw_valid_endpoint : Bool
  pub last_native_error : ℤ

abbrev pub no_attempts : Attempts
no_attempts = record {
  created_socket = false;
  saw_valid_endpoint = false;
  last_native_error = pos 0;
}

-- One round of that loop: it goes on to the next endpoint, or returns.
pub data Tried (W : Type 0) : Type 0 where
  go_on : Attempts → W → Tried W
  settled : Result TcpConnection → W → Tried W

-- Behind the loop.
unfoldable pub no_endpoint_left : Attempts → Result TcpConnection
no_endpoint_left s =
    if not s.saw_valid_endpoint
    then fail connect_failed
    else if not s.created_socket
    then err (native_error socket_create_failed s.last_native_error)
    else err (native_error connect_failed s.last_native_error)

module _ (sys : System) where
  open sys use {World, now}

  unfoldable pub close : TcpConnection → World → TcpConnection × World
  close c w =
      let (socket, w1) = NativeSocket.close sys c.socket w in (record { socket = socket }, w1)

  -- `close(); return error;`
  unfoldable pub close_with : {A : Type 0} → TcpConnection → Error → World → Done World A
  close_with c e w =
      let (closed, w1) = close c w in record { connection = closed; world = w1; result = err e }

  -- `~TcpConnection`
  unfoldable pub destroy : TcpConnection → World → World
  destroy c w = NativeSocket.destroy sys c.socket w

  unfoldable pub remaining_timeout : ℕ → World → ℕ × World
  remaining_timeout deadline w = let (t, w1) = now w in (time_left deadline t, w1)

  -- The outcome of an attempt. At every end but the first the local socket is destroyed.
  unfoldable pub judge_attempt : Attempts → NativeSocket → ConnectStatus → ℤ → World → Tried World
  judge_attempt s socket ConnectStatus.connected code w =
      settled (ok (record { socket = socket })) w
  judge_attempt s socket ConnectStatus.timed_out code w =
      settled (err (native_error connect_timeout code)) (NativeSocket.destroy sys socket w)
  judge_attempt s socket ConnectStatus.failed code w =
      go_on (record s { last_native_error = code }) (NativeSocket.destroy sys socket w)

  -- Behind `create_tcp_socket`.
  unfoldable pub use_socket : ℕ → Endpoint → Attempts → NativeSocket → ℤ → World → Tried World
  use_socket deadline e s socket create_error w =
      if not (NativeSocket.valid socket)
      then go_on (record s { last_native_error = create_error }) w
      else (let (remaining, w1) = remaining_timeout deadline w in
          let (attempt, w2) =
            connect_with_timeout sys socket.handle e.address e.address_size remaining w1 in
          judge_attempt (record s { created_socket = true }) socket attempt.status
            attempt.native_code w2)

  -- The body of the loop.
  unfoldable pub try_endpoint : ℕ → Endpoint → Attempts → World → Tried World
  try_endpoint deadline e s w =
      if not (Endpoint.valid e)
      then go_on s w
      else (let (t, w1) = now w in
          let seen = record s { saw_valid_endpoint = true } in
          if leb deadline t
          then settled (err (native_error connect_timeout s.last_native_error)) w1
          else (let ((socket, create_error), w2) =
                create_tcp_socket sys (family sys e) e.socket_type e.protocol w1 in
              use_socket deadline e seen socket create_error w2))

  unfoldable pub try_endpoints : ℕ → List Endpoint → Attempts → World → Result TcpConnection × World
  try_endpoints deadline [] s w = (no_endpoint_left s, w)
  try_endpoints deadline (e ∷ endpoints) s w = elim (try_endpoint deadline e s w) [
    | go_on s' w' ↦ try_endpoints deadline endpoints s' w'
    | settled r w' ↦ (r, w')
  ]

  abbrev pub is_no_endpoint : List Endpoint → Bool
  is_no_endpoint [] = true
  is_no_endpoint (e ∷ es) = false

  unfoldable pub connect : List Endpoint → ℤ → World → Result TcpConnection × World
  connect endpoints timeout w =
      if milliseconds timeout == 0
      then (fail connect_timeout, w)
      else if is_no_endpoint endpoints
      then (fail connect_failed, w)
      else if not ensure_network_runtime.usable
      then (err (native_error socket_create_failed ensure_network_runtime.native_code), w)
      else (let (t, w1) = now w in
          try_endpoints (t + nanoseconds (milliseconds timeout)) endpoints no_attempts w1)

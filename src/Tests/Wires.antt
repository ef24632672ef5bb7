-- ===== src/Tests/Wires.antt =====
-- Runs of a connection on a machine, and of its parts.
use cpp_request.Base.{
  ◌+◌, ◌*◌, ◌≤◌, ◌-◌, ◌↔◌, ℕ, ◌≡◌, refl, ap, Bool, true, false, Option, none, some, List, [], ◌∷◌,
  ◌++◌, Bytes, codes, arith,
}
use cpp_request.Error.{ok, fail, unknown, pos}
use cpp_request.Request.{Request, get}
use cpp_request.RequestSerializer.{SerializedRequest}
use cpp_request.Platform.NativeSocket.{NativeSocket, no_socket, same_int}
use cpp_request.Platform.NativeSocket
use cpp_request.Platform.Ownership.{others, opened-move_assign}
use cpp_request.Net.Endpoint.{Endpoint}
use cpp_request.Net.Resolver.{resolve}
use cpp_request.Net.Bounds.{UsableAs, resolve-UsableAs, time_left_bounds}
use cpp_request.Net.TcpConnection.{
  TcpConnection, no_connection, Done, connected, connect, time_left,
}
use cpp_request.Net.TcpConnection.Writing.{write_all, Written}
use cpp_request.Net.TcpConnection.Reading.{read_some, Received, Read}
use cpp_request.Net.TcpConnection.Connecting.{HasConnected, connect-HasConnected}
use cpp_request.Net.TcpConnection.Delivery.{HasWritten, write_all-HasWritten}
use cpp_request.Net.TcpConnection.Receipt.{HasRead, read_some-HasRead}
use cpp_request.Net.TcpConnection.Returns.{write_all-returns, read_some-returns}
use cpp_request.Response.{Response}
use cpp_request.Base.{◌||◌, ◌==◌}
use cpp_request.Client.KeepAlive.{exchange_kept}
use cpp_request.Client.{make_request, wants_connection_close, request_wants_connection_close}
use cpp_request.Client.Exchange.{Executed, exchange}
use cpp_request.Client.Keeping.{new_client, encode_socket_handle, decode_socket_handle}
use cpp_request.Client.Tokens.{decode-encode}
use cpp_request.Client.Delivering.{exchange-HasSentRequest}
use cpp_request.Client.Sending.{HasSentRequest}
use cpp_request.Tests.Machine.{Machine, machine, watch, kernel, machine-IsSteady, ready_with}

abbrev wire : TcpConnection
wire = record { socket = record { handle = pos 7 } }

abbrev start : Machine
start = ready_with (codes "HTTP/1.1 204 N" ++ (13 ∷ 10 ∷ 13 ∷ 10 ∷ []))

wire-connected : connected wire ≡ true
unfolding connected NativeSocket.valid same_int
wire-connected = refl

abbrev failed_at : {A : Type 0} → Machine → Done Machine A
failed_at m = record { connection = no_connection; world = m; result = fail unknown }

abbrev written : Written machine
written = elim (write_all machine wire (codes "ping") (pos 5) start) [
  | none ↦ failed_at start
  | some d ↦ d
]

write_run : write_all machine wire (codes "ping") (pos 5) start ≡ some written
unfolding write_all connected NativeSocket.valid same_int
    cpp_request.Platform.SocketMode.set_socket_nonblocking cpp_request.Base.Loop.loop
    cpp_request.Platform.SocketIo.bounded_io_size cpp_request.Net.TcpConnection.Writing.start_write
    cpp_request.Net.TcpConnection.Writing.write_loop
    cpp_request.Net.TcpConnection.Writing.step_write cpp_request.Net.TcpConnection.Writing.sent
    cpp_request.Net.TcpConnection.Writing.finish_write cpp_request.Platform.SocketIo.send_some
write_run = refl

write_all-HasWritten_example : HasWritten machine watch kernel wire (codes "ping") start written
write_all-HasWritten_example =
    write_all-HasWritten machine watch kernel wire (codes "ping") (pos 5) start written
      wire-connected write_run

write_all-returns_example :
    (d : Written machine) × (write_all machine wire (codes "ping") (pos 5) start ≡ some d)
write_all-returns_example =
    write_all-returns machine watch kernel wire (codes "ping") (pos 5) start machine-IsSteady

abbrev gotten : Read machine
gotten = elim (read_some machine wire false 8 (pos 5) start) [ none ↦ failed_at start | some d ↦ d ]

read_run : read_some machine wire false 8 (pos 5) start ≡ some gotten
unfolding read_some connected NativeSocket.valid same_int
    cpp_request.Platform.SocketMode.set_socket_nonblocking cpp_request.Base.Loop.loop
    cpp_request.Platform.SocketIo.bounded_io_size cpp_request.Net.TcpConnection.Reading.start_read
    cpp_request.Net.TcpConnection.Reading.read_loop cpp_request.Net.TcpConnection.Reading.step_read
    cpp_request.Net.TcpConnection.Reading.received cpp_request.Net.TcpConnection.Reading.finish_read
    cpp_request.Platform.SocketIo.receive_some
read_run = refl

read_some-HasRead_example : HasRead machine watch kernel wire 8 start gotten
read_some-HasRead_example =
    read_some-HasRead machine watch kernel wire 8 (pos 5) start gotten wire-connected (omega arith)
      read_run

read_some-returns_example :
    (d : Read machine) × (read_some machine wire false 8 (pos 5) start ≡ some d)
read_some-returns_example =
    read_some-returns machine watch kernel wire false 8 (pos 5) start machine-IsSteady

abbrev address : Endpoint
address = record { address = 2 ∷ 0 ∷ []; address_size = 2; socket_type = pos 1; protocol = pos 6 }

connect-HasConnected_example :
    HasConnected machine watch kernel []
      (connect machine (address ∷ []) (pos 5) start).0
      (connect machine (address ∷ []) (pos 5) start).1
connect-HasConnected_example =
    connect-HasConnected machine watch kernel (address ∷ []) (pos 5) start

resolve-UsableAs_example : UsableAs machine (resolve machine (codes "a") 80 start).0
resolve-UsableAs_example = resolve-UsableAs machine (codes "a") 80 start

time_left_bounds_example :
    ((time_left 5000000 1 ≡ 0) ↔ (5000000 ≤ 1))
    × (time_left 5000000 1 * 1000000 ≤ 5000000 - 1 + 999999)
time_left_bounds_example = time_left_bounds 5000000 1

decode-encode_example : decode_socket_handle (encode_socket_handle (pos 7)) ≡ pos 7
decode-encode_example = decode-encode (pos 7) (omega arith)

abbrev socket_of : ℕ → NativeSocket
socket_of n = record { handle = pos n }

two_handles : same_int (pos 7) (pos 8) ≡ false
unfolding same_int
two_handles = refl

opened-move_assign_example :
    (watch.opened (NativeSocket.move_assign machine (socket_of 7) (socket_of 8) start).1
      ≡ others (socket_of 7) (watch.opened start))
    × ((NativeSocket.move_assign machine (socket_of 7) (socket_of 8) start).0
        ≡ (socket_of 8, no_socket))
opened-move_assign_example =
    opened-move_assign machine watch kernel (socket_of 7) (socket_of 8) start two_handles

abbrev serialized : SerializedRequest
serialized = record {
  url = record {
    storage = codes "http://a/";
    scheme_begin = 0;
    scheme_size = 4;
    host_begin = 7;
    host_size = 1;
    path_begin = 8;
    path_size = 1;
    query_begin = 9;
    query_size = 0;
    target_begin = 8;
    target_size = 1;
    port = 80;
    has_explicit_port = false;
    host_is_ipv6_literal = false;
  };
  head = codes "GET /";
  body = codes "x";
}

abbrev asked : Request
asked = make_request get (codes "http://a/") (codes "x")

abbrev executed : Executed Machine
executed = elim (exchange machine 8 asked serialized new_client wire start) [
  | none ↦ record { client = new_client; world = start; result = fail unknown }
  | some x ↦ x
]

exchange_run :
    (exchange machine 8 asked serialized new_client wire start ≡ some executed)
    × (executed.client.has_reusable_connection ≡ true)
unfolding exchange write_all connected NativeSocket.valid same_int
    cpp_request.Platform.SocketMode.set_socket_nonblocking cpp_request.Base.Loop.loop
    cpp_request.Platform.SocketIo.bounded_io_size cpp_request.Net.TcpConnection.Writing.start_write
    cpp_request.Net.TcpConnection.Writing.write_loop
    cpp_request.Net.TcpConnection.Writing.step_write cpp_request.Net.TcpConnection.Writing.sent
    cpp_request.Net.TcpConnection.Writing.finish_write cpp_request.Platform.SocketIo.send_some
    cpp_request.Net.TcpConnection.remaining_timeout time_left
    cpp_request.Client.Exchange.judge_write cpp_request.Client.Exchange.write_body
    cpp_request.Client.Exchange.read_response cpp_request.Client.Exchange.step_exchange
    cpp_request.ResponseParser.is_complete read_some
    cpp_request.Net.TcpConnection.Reading.start_read cpp_request.Net.TcpConnection.Reading.read_loop
    cpp_request.Net.TcpConnection.Reading.step_read cpp_request.Net.TcpConnection.Reading.received
    cpp_request.Platform.SocketIo.receive_some cpp_request.Client.Exchange.judge_read
    cpp_request.Net.TcpConnection.Reading.finish_read cpp_request.ResponseParser.feed
    cpp_request.ResponseParser.process_buffer cpp_request.ResponseParser.step
    cpp_request.ResponseParser.step_at cpp_request.ResponseParser.Body.step_head
    cpp_request.Base.find cpp_request.Limits.would_exceed
    cpp_request.ResponseParser.Frame.parsed_head cpp_request.ResponseParser.Head.parse_head
    cpp_request.ResponseParser.Head.parse_status_line cpp_request.Base.equal
    cpp_request.Scan.parse_number cpp_request.Scan.digit
    cpp_request.ResponseParser.Head.parse_reason cpp_request.ResponseParser.Head.valid_reason_phrase
    cpp_request.Ascii.is_field_byte cpp_request.ResponseParser.Head.fields_behind
    cpp_request.ResponseParser.Frame.framed_head cpp_request.ResponseParser.Framing.analyze_framing
    cpp_request.ResponseParser.Framing.analyze_fields cpp_request.ResponseParser.Frame.accept_head
    cpp_request.ResponseParser.Framing.is_interim_status
    cpp_request.ResponseParser.Frame.frame_response
    cpp_request.ResponseParser.Framing.framing_header_forbidden_on_status
    cpp_request.ResponseParser.Framing.is_header_terminated_response make_request
    cpp_request.Client.Exchange.exchanged cpp_request.Client.Exchange.finish_exchange
    cpp_request.Client.Exchange.is_reusable cpp_request.ResponseParser.connection_reusable
    request_wants_connection_close wants_connection_close cpp_request.Client.Exchange.leave
    cpp_request.Client.Keeping.keep_connection cpp_request.Client.Exchange.judge_fed
exchange_run = (refl, refl)

exchange-HasSentRequest_example :
    HasSentRequest machine watch kernel (pos 7) [] (codes "GET /" ++ codes "x") executed
exchange-HasSentRequest_example =
    exchange-HasSentRequest machine watch kernel 8 asked serialized new_client wire start executed
      wire-connected exchange_run.0

exchange_kept_example :
    (response : Response) × ((executed.result ≡ ok response)
      × (((wants_connection_close response.headers || response.status_code == 101) ≡ false)
          × (request_wants_connection_close asked ≡ false)))
exchange_kept_example =
    exchange_kept machine asked 8 serialized new_client wire start executed refl exchange_run.0
      exchange_run.1

-- ===== src/Tests/Sockets.antt =====
-- Runs of the client on a machine.
use cpp_request.Base.{
  ◌+◌, ℕ, ◌≡◌, refl, ap, Bool, true, false, Option, none, some, List, [], ◌∷◌, ◌++◌, Bytes, codes,
}
use cpp_request.Error.{fail, unknown, ok, err}
use cpp_request.Request.{Request, get}
use cpp_request.Response.{Response, empty_response}
use cpp_request.Tests.Machine.{Machine, machine, watch, kernel, ready_with}
use cpp_request.Client.{make_request}
use cpp_request.Client.Exchange.{Executed, execute_once}
use cpp_request.Client.Keeping.{Client, new_client, forget_connection}
use cpp_request.Client.Keeping
use cpp_request.Client.Requests.{
  free_get, get_with, drop_client, request, step_redirect, initial_redirection,
}
use cpp_request.Client.Leaving.{kept_aside}
use cpp_request.Client.Owner.{free_get-Restores, request-HasLeft}
use cpp_request.Client.Settings.{BodyWithin}
use cpp_request.Client.Redirecting.{request-IsSound}
use cpp_request.Base.Loop.{loop}

abbrev answer : Bytes
answer =
    codes "HTTP/1.1 200 OK"
    ++ (13 ∷ 10 ∷ codes "Content-Length: 2")
    ++ (13 ∷ 10 ∷ 13 ∷ 10 ∷ codes "hi")

abbrev start : Machine
start = ready_with answer

abbrev no_pton : Bytes → Bool
no_pton s = false

abbrev asked : Request
asked = make_request get (codes "http://a/") []

-- A request that ends with a kept connection.
abbrev first : Executed Machine
first = elim (execute_once machine no_pton 8 asked new_client start) [
  | none ↦ record { client = new_client; world = ready_with []; result = fail unknown }
  | some x ↦ x
]

abbrev greeting : Response
greeting = elim first.result [ ok response ↦ response | err e ↦ empty_response ]

runs :
    (execute_once machine no_pton 8 asked new_client start ≡ some first)
    × ((first.result ≡ ok greeting)
        × ((request machine no_pton 8 asked new_client start ≡ some first)
            × (first.client.has_reusable_connection ≡ true)))
unfolding cpp_request.Client.Requests.request cpp_request.Client.Exchange.execute_once
    cpp_request.Client.Exchange.execute_serialized cpp_request.RequestSerializer.serialize_request
    cpp_request.Url.parse cpp_request.Client.make_request
    cpp_request.Url.contains_forbidden_url_byte cpp_request.Url.allowed_byte
    cpp_request.Url.parse_scheme cpp_request.Base.find cpp_request.Ascii.ascii_iequals
    cpp_request.Url.parse_from cpp_request.Base.find_byte cpp_request.Url.find_authority_end
    cpp_request.Base.mem_byte cpp_request.Url.Host.parse_authority cpp_request.Url.Host.parse_named
    cpp_request.Url.Host.rfind_byte cpp_request.Url.valid_percent_escapes cpp_request.Url.with_slash
    cpp_request.RequestSerializer.method_token cpp_request.RequestSerializer.check_fields
    cpp_request.Client.Exchange.acquire cpp_request.Client.Exchange.reuse_existing
    cpp_request.Client.Exchange.connect_to cpp_request.Net.Resolver.resolve cpp_request.Url.host
    cpp_request.Url.make_url cpp_request.Platform.NetworkRuntime.ensure_network_runtime
    cpp_request.Net.Resolver.resolved cpp_request.Platform.NativeSocket.same_int
    cpp_request.Net.Resolver.collect_endpoints cpp_request.Net.Resolver.is_usable
    cpp_request.Net.TcpConnection.connect cpp_request.Client.Keeping.close_reusable_connection
    cpp_request.Client.Keeping.forget_connection cpp_request.Net.TcpConnection.try_endpoints
    cpp_request.Net.TcpConnection.try_endpoint cpp_request.Net.Endpoint.valid
    cpp_request.Net.Resolver.endpoint_of cpp_request.Net.Endpoint.make_endpoint
    cpp_request.Net.TcpConnection.use_socket cpp_request.Platform.NativeSocket.valid
    cpp_request.Platform.SocketConnect.create_tcp_socket cpp_request.Net.TcpConnection.judge_attempt
    cpp_request.Platform.SocketConnect.connect_with_timeout
    cpp_request.Net.TcpConnection.remaining_timeout cpp_request.Net.TcpConnection.time_left
    cpp_request.Platform.SocketMode.set_socket_nonblocking
    cpp_request.Platform.SocketConnect.start_connection
    cpp_request.Platform.SocketConnect.connected_blocking cpp_request.Client.Exchange.exchange
    cpp_request.Net.TcpConnection.Writing.write_all cpp_request.Net.TcpConnection.connected
    cpp_request.RequestSerializer.request_head cpp_request.RequestSerializer.request_line
    cpp_request.Net.TcpConnection.Writing.start_write
    cpp_request.Net.TcpConnection.Writing.write_loop cpp_request.Base.Loop.loop
    cpp_request.Net.TcpConnection.Writing.step_write
    cpp_request.RequestSerializer.append_query_params cpp_request.Url.target
    cpp_request.RequestSerializer.generated_host cpp_request.RequestSerializer.field_lines
    cpp_request.RequestSerializer.generated_length
    cpp_request.RequestSerializer.method_has_content_semantics
    cpp_request.Net.TcpConnection.Writing.sent cpp_request.Platform.SocketIo.send_some
    cpp_request.Platform.SocketIo.bounded_io_size cpp_request.Client.Exchange.judge_write
    cpp_request.Net.TcpConnection.Writing.finish_write cpp_request.Client.Exchange.write_body
    cpp_request.Client.Exchange.read_response cpp_request.Client.Exchange.step_exchange
    cpp_request.ResponseParser.is_complete cpp_request.Net.TcpConnection.Reading.read_some
    cpp_request.Net.TcpConnection.Reading.start_read cpp_request.Net.TcpConnection.Reading.read_loop
    cpp_request.Net.TcpConnection.Reading.step_read cpp_request.Net.TcpConnection.Reading.received
    cpp_request.Platform.SocketIo.receive_some cpp_request.Client.Exchange.judge_read
    cpp_request.Net.TcpConnection.Reading.finish_read cpp_request.ResponseParser.feed
    cpp_request.ResponseParser.process_buffer cpp_request.ResponseParser.step
    cpp_request.ResponseParser.step_at cpp_request.ResponseParser.Body.step_head
    cpp_request.Limits.would_exceed cpp_request.ResponseParser.Frame.parsed_head
    cpp_request.ResponseParser.Head.parse_head cpp_request.ResponseParser.Head.parse_status_line
    cpp_request.Base.equal cpp_request.Scan.parse_number cpp_request.Scan.digit
    cpp_request.ResponseParser.Head.parse_reason cpp_request.ResponseParser.Head.valid_reason_phrase
    cpp_request.Ascii.is_field_byte cpp_request.ResponseParser.Head.fields_behind
    cpp_request.ResponseParser.Head.parse_fields cpp_request.ResponseParser.Head.field_step
    cpp_request.ResponseParser.Head.next_field cpp_request.ResponseParser.Head.parse_field
    cpp_request.Ascii.valid_field_name cpp_request.Ascii.valid_field_value cpp_request.Scan.trim_ows
    cpp_request.Ascii.is_ows cpp_request.ResponseParser.Frame.framed_head
    cpp_request.ResponseParser.Framing.analyze_framing
    cpp_request.ResponseParser.Framing.analyze_fields cpp_request.Headers.add
    cpp_request.ResponseParser.Framing.analyze_field cpp_request.ResponseParser.Framing.count_length
    cpp_request.ResponseParser.Framing.note_connection cpp_request.ResponseParser.Frame.accept_head
    cpp_request.ResponseParser.Framing.is_interim_status
    cpp_request.ResponseParser.Frame.frame_response
    cpp_request.ResponseParser.Framing.framing_header_forbidden_on_status
    cpp_request.ResponseParser.Framing.is_header_terminated_response
    cpp_request.ResponseParser.Frame.frame_body
    cpp_request.ResponseParser.Body.step_content_length_body
    cpp_request.ResponseParser.Body.copy_body cpp_request.Client.Exchange.judge_fed
    cpp_request.Client.Requests.follow_all cpp_request.Client.Exchange.exchanged
    cpp_request.Client.Exchange.finish_exchange cpp_request.Client.Exchange.is_reusable
    cpp_request.ResponseParser.connection_reusable cpp_request.Client.request_wants_connection_close
    cpp_request.Client.wants_connection_close cpp_request.Client.Exchange.leave
    cpp_request.Client.Keeping.keep_connection cpp_request.Redirect.is_redirect_status
runs = (refl, (refl, (refl, refl)))

free_run :
    free_get machine no_pton 8 (codes "http://a/") start
    ≡ some (first.result, Keeping.destroy machine first.client first.world)
unfolding free_get get_with
free_run = ap (drop_client machine no_pton 8) runs.1.1.0

free_get-Restores_example : watch.opened (Keeping.destroy machine first.client first.world) ≡ []
free_get-Restores_example =
    free_get-Restores machine watch kernel no_pton 8 (codes "http://a/") start first.result
      (Keeping.destroy machine first.client first.world) free_run

request-HasLeft_example :
    kept_aside first.client (watch.opened first.world) ≡ kept_aside new_client []
request-HasLeft_example =
    request-HasLeft machine watch kernel no_pton 8 asked new_client start first runs.1.1.0

request-IsSound_example :
    (forget_connection first.client ≡ forget_connection new_client)
    × BodyWithin new_client.response_limits first.result
request-IsSound_example = request-IsSound machine no_pton 8 asked new_client start first runs.1.1.0

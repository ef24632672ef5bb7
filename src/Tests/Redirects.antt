-- ===== src/Tests/Redirects.antt =====
-- A run of the client on a machine whose answers are a redirect and what it leads to.
use cpp_request.Base.{
  ◌+◌, ◌≤◌, ℕ, ◌≡◌, refl, Bool, false, Option, none, some, List, [], ◌∷◌, ◌++◌, ◌==◌, Bytes, codes,
  length, drop, if◌then◌else◌,
}
use cpp_request.Base.Loop.{Rounds}
use cpp_request.Error.{ℤ, fail, unknown, ok, err, pos}
use cpp_request.Request.{Request, get}
use cpp_request.Response.{Response, empty_response}
use cpp_request.Platform.{System}
use cpp_request.Tests.Machine.{Machine, machine, ready_with}
use cpp_request.Client.{make_request}
use cpp_request.Client.Exchange.{Executed, execute_once}
use cpp_request.Client.Keeping.{new_client}
use cpp_request.Client.Requests.{Redirecting, request, step_redirect}
use cpp_request.Client.Following.{first_round, HasEnded, redirects_end}

-- The answers, with a byte 0 behind each.
abbrev first_answer : Bytes → Bytes
first_answer [] = []
first_answer (b ∷ s) = let rest = first_answer s in if b == 0 then [] else b ∷ rest

abbrev next_answer : Machine → (ℤ × Bytes) × Machine
next_answer m =
    let a = first_answer m.answer in
    ((pos (length a), a), record m { answer = drop (length a + 1) m.answer })

-- A `recv` gives one answer.
abbrev server : System
server = record machine { recv = λ h size m. next_answer m }

abbrev answers : Bytes
answers =
    codes "HTTP/1.1 302 Found"
    ++ (13 ∷ 10 ∷ codes "Location: /b")
    ++ (13 ∷ 10 ∷ codes "Content-Length: 0")
    ++ (13 ∷ 10 ∷ 13 ∷ 10 ∷ 0 ∷ codes "HTTP/1.1 200 OK")
    ++ (13 ∷ 10 ∷ codes "Content-Length: 2")
    ++ (13 ∷ 10 ∷ 13 ∷ 10 ∷ codes "hi")

abbrev start : Machine
start = ready_with answers

abbrev no_pton : Bytes → Bool
no_pton s = false

abbrev asked : Request
asked = make_request get (codes "http://a/") []

abbrev executed : Option (Executed Machine) → Executed Machine
executed none = record { client = new_client; world = start; result = fail unknown }
executed (some x) = x

-- The first exchange, which gives the redirect.
abbrev first : Executed Machine
first = executed (execute_once server no_pton 8 asked new_client start)

abbrev found : Response
found = elim first.result [ ok response ↦ response | err e ↦ empty_response ]

abbrev status_of : Option (Executed Machine) → ℕ
status_of x = elim (executed x).result [ ok response ↦ response.status_code | err e ↦ 0 ]

first_run :
    (execute_once server no_pton 8 asked new_client start ≡ some first)
    × ((first.result ≡ ok found) × (found.status_code ≡ 302))
unfolding cpp_request.Client.Requests.request cpp_request.Client.Exchange.execute_once
    cpp_request.Client.Exchange.execute_serialized cpp_request.RequestSerializer.serialize_request
    cpp_request.Url.parse cpp_request.Client.make_request
    cpp_request.Url.contains_forbidden_url_byte cpp_request.Url.allowed_byte
    cpp_request.Url.parse_scheme cpp_request.Base.find cpp_request.Ascii.ascii_iequals
    cpp_request.Url.parse_from cpp_request.Base.find_byte cpp_request.Url.find_authority_end
    cpp_request.Base.mem_byte cpp_request.Url.Host.parse_authority cpp_request.Url.Host.parse_named
    cpp_request.Url.Host.rfind_byte cpp_request.Url.valid_percent_escapes cpp_request.Url.with_slash
    cpp_request.RequestSerializer.method_token cpp_request.RequestSerializer.check_fields
    cpp_request.Client.Exchange.acquire cpp_request.Client.Exchange.reuse_existing
    cpp_request.Client.Exchange.connect_to cpp_request.Net.Resolver.resolve cpp_request.Url.host
    cpp_request.Url.make_url cpp_request.Platform.NetworkRuntime.ensure_network_runtime
    cpp_request.Net.Resolver.resolved cpp_request.Platform.NativeSocket.same_int
    cpp_request.Net.Resolver.collect_endpoints cpp_request.Net.Resolver.is_usable
    cpp_request.Net.TcpConnection.connect cpp_request.Client.Keeping.close_reusable_connection
    cpp_request.Client.Keeping.forget_connection cpp_request.Net.TcpConnection.try_endpoints
    cpp_request.Net.TcpConnection.try_endpoint cpp_request.Net.Endpoint.valid
    cpp_request.Net.Resolver.endpoint_of cpp_request.Net.Endpoint.make_endpoint
    cpp_request.Net.TcpConnection.use_socket cpp_request.Platform.NativeSocket.valid
    cpp_request.Platform.SocketConnect.create_tcp_socket cpp_request.Net.TcpConnection.judge_attempt
    cpp_request.Platform.SocketConnect.connect_with_timeout
    cpp_request.Net.TcpConnection.remaining_timeout cpp_request.Net.TcpConnection.time_left
    cpp_request.Platform.SocketMode.set_socket_nonblocking
    cpp_request.Platform.SocketConnect.start_connection
    cpp_request.Platform.SocketConnect.connected_blocking cpp_request.Client.Exchange.exchange
    cpp_request.Net.TcpConnection.Writing.write_all cpp_request.Net.TcpConnection.connected
    cpp_request.RequestSerializer.request_head cpp_request.RequestSerializer.request_line
    cpp_request.Net.TcpConnection.Writing.start_write
    cpp_request.Net.TcpConnection.Writing.write_loop cpp_request.Base.Loop.loop
    cpp_request.Net.TcpConnection.Writing.step_write
    cpp_request.RequestSerializer.append_query_params cpp_request.Url.target
    cpp_request.RequestSerializer.generated_host cpp_request.RequestSerializer.field_lines
    cpp_request.RequestSerializer.generated_length
    cpp_request.RequestSerializer.method_has_content_semantics
    cpp_request.Net.TcpConnection.Writing.sent cpp_request.Platform.SocketIo.send_some
    cpp_request.Platform.SocketIo.bounded_io_size cpp_request.Client.Exchange.judge_write
    cpp_request.Net.TcpConnection.Writing.finish_write cpp_request.Client.Exchange.write_body
    cpp_request.Client.Exchange.read_response cpp_request.Client.Exchange.step_exchange
    cpp_request.ResponseParser.is_complete cpp_request.Net.TcpConnection.Reading.read_some
    cpp_request.Net.TcpConnection.Reading.start_read cpp_request.Net.TcpConnection.Reading.read_loop
    cpp_request.Net.TcpConnection.Reading.step_read cpp_request.Net.TcpConnection.Reading.received
    cpp_request.Platform.SocketIo.receive_some cpp_request.Client.Exchange.judge_read
    cpp_request.Net.TcpConnection.Reading.finish_read cpp_request.ResponseParser.feed
    cpp_request.ResponseParser.process_buffer cpp_request.ResponseParser.step
    cpp_request.ResponseParser.step_at cpp_request.ResponseParser.Body.step_head
    cpp_request.Limits.would_exceed cpp_request.ResponseParser.Frame.parsed_head
    cpp_request.ResponseParser.Head.parse_head cpp_request.ResponseParser.Head.parse_status_line
    cpp_request.Base.equal cpp_request.Scan.parse_number cpp_request.Scan.digit
    cpp_request.ResponseParser.Head.parse_reason cpp_request.ResponseParser.Head.valid_reason_phrase
    cpp_request.Ascii.is_field_byte cpp_request.ResponseParser.Head.fields_behind
    cpp_request.ResponseParser.Head.parse_fields cpp_request.ResponseParser.Head.field_step
    cpp_request.ResponseParser.Head.next_field cpp_request.ResponseParser.Head.parse_field
    cpp_request.Ascii.valid_field_name cpp_request.Ascii.valid_field_value cpp_request.Scan.trim_ows
    cpp_request.Ascii.is_ows cpp_request.ResponseParser.Frame.framed_head
    cpp_request.ResponseParser.Framing.analyze_framing
    cpp_request.ResponseParser.Framing.analyze_fields cpp_request.Headers.add
    cpp_request.ResponseParser.Framing.analyze_field cpp_request.ResponseParser.Framing.count_length
    cpp_request.ResponseParser.Framing.note_connection cpp_request.ResponseParser.Frame.accept_head
    cpp_request.ResponseParser.Framing.is_interim_status
    cpp_request.ResponseParser.Frame.frame_response
    cpp_request.ResponseParser.Framing.framing_header_forbidden_on_status
    cpp_request.ResponseParser.Framing.is_header_terminated_response
    cpp_request.ResponseParser.Frame.frame_body
    cpp_request.ResponseParser.Body.step_content_length_body
    cpp_request.ResponseParser.Body.copy_body cpp_request.Client.Exchange.judge_fed
    cpp_request.Client.Requests.follow_all cpp_request.Client.Exchange.exchanged
    cpp_request.Client.Exchange.finish_exchange cpp_request.Client.Exchange.is_reusable
    cpp_request.ResponseParser.connection_reusable cpp_request.Client.request_wants_connection_close
    cpp_request.Client.wants_connection_close cpp_request.Client.Exchange.leave
    cpp_request.Client.Keeping.keep_connection cpp_request.Redirect.is_redirect_status
first_run = (refl, (refl, refl))

redirects_end_example :
    (n : ℕ) × (y : Redirecting Machine) × (Rounds
        (step_redirect server no_pton 8)
        n
        (first_round server no_pton 8 asked first found)
        y
      × ((n ≤ first.client.max_redirects)
          × HasEnded server no_pton 8 first.client.max_redirects n y
              (request server no_pton 8 asked new_client start)))
redirects_end_example =
    redirects_end server no_pton 8 asked new_client start first found first_run.0 first_run.1.0

-- The request follows the redirect and returns what it leads to.
followed : status_of (request server no_pton 8 asked new_client start) ≡ 200
unfolding cpp_request.Client.Requests.request cpp_request.Client.Exchange.execute_once
    cpp_request.Client.Exchange.execute_serialized cpp_request.RequestSerializer.serialize_request
    cpp_request.Url.parse cpp_request.Client.make_request
    cpp_request.Url.contains_forbidden_url_byte cpp_request.Url.allowed_byte
    cpp_request.Url.parse_scheme cpp_request.Base.find cpp_request.Ascii.ascii_iequals
    cpp_request.Url.parse_from cpp_request.Base.find_byte cpp_request.Url.find_authority_end
    cpp_request.Base.mem_byte cpp_request.Url.Host.parse_authority cpp_request.Url.Host.parse_named
    cpp_request.Url.Host.rfind_byte cpp_request.Url.valid_percent_escapes cpp_request.Url.with_slash
    cpp_request.RequestSerializer.method_token cpp_request.RequestSerializer.check_fields
    cpp_request.Client.Exchange.acquire cpp_request.Client.Exchange.reuse_existing
    cpp_request.Client.Exchange.connect_to cpp_request.Net.Resolver.resolve cpp_request.Url.host
    cpp_request.Url.make_url cpp_request.Platform.NetworkRuntime.ensure_network_runtime
    cpp_request.Net.Resolver.resolved cpp_request.Platform.NativeSocket.same_int
    cpp_request.Net.Resolver.collect_endpoints cpp_request.Net.Resolver.is_usable
    cpp_request.Net.TcpConnection.connect cpp_request.Client.Keeping.close_reusable_connection
    cpp_request.Client.Keeping.forget_connection cpp_request.Net.TcpConnection.try_endpoints
    cpp_request.Net.TcpConnection.try_endpoint cpp_request.Net.Endpoint.valid
    cpp_request.Net.Resolver.endpoint_of cpp_request.Net.Endpoint.make_endpoint
    cpp_request.Net.TcpConnection.use_socket cpp_request.Platform.NativeSocket.valid
    cpp_request.Platform.SocketConnect.create_tcp_socket cpp_request.Net.TcpConnection.judge_attempt
    cpp_request.Platform.SocketConnect.connect_with_timeout
    cpp_request.Net.TcpConnection.remaining_timeout cpp_request.Net.TcpConnection.time_left
    cpp_request.Platform.SocketMode.set_socket_nonblocking
    cpp_request.Platform.SocketConnect.start_connection
    cpp_request.Platform.SocketConnect.connected_blocking cpp_request.Client.Exchange.exchange
    cpp_request.Net.TcpConnection.Writing.write_all cpp_request.Net.TcpConnection.connected
    cpp_request.RequestSerializer.request_head cpp_request.RequestSerializer.request_line
    cpp_request.Net.TcpConnection.Writing.start_write
    cpp_request.Net.TcpConnection.Writing.write_loop cpp_request.Base.Loop.loop
    cpp_request.Net.TcpConnection.Writing.step_write
    cpp_request.RequestSerializer.append_query_params cpp_request.Url.target
    cpp_request.RequestSerializer.generated_host cpp_request.RequestSerializer.field_lines
    cpp_request.RequestSerializer.generated_length
    cpp_request.RequestSerializer.method_has_content_semantics
    cpp_request.Net.TcpConnection.Writing.sent cpp_request.Platform.SocketIo.send_some
    cpp_request.Platform.SocketIo.bounded_io_size cpp_request.Client.Exchange.judge_write
    cpp_request.Net.TcpConnection.Writing.finish_write cpp_request.Client.Exchange.write_body
    cpp_request.Client.Exchange.read_response cpp_request.Client.Exchange.step_exchange
    cpp_request.ResponseParser.is_complete cpp_request.Net.TcpConnection.Reading.read_some
    cpp_request.Net.TcpConnection.Reading.start_read cpp_request.Net.TcpConnection.Reading.read_loop
    cpp_request.Net.TcpConnection.Reading.step_read cpp_request.Net.TcpConnection.Reading.received
    cpp_request.Platform.SocketIo.receive_some cpp_request.Client.Exchange.judge_read
    cpp_request.Net.TcpConnection.Reading.finish_read cpp_request.ResponseParser.feed
    cpp_request.ResponseParser.process_buffer cpp_request.ResponseParser.step
    cpp_request.ResponseParser.step_at cpp_request.ResponseParser.Body.step_head
    cpp_request.Limits.would_exceed cpp_request.ResponseParser.Frame.parsed_head
    cpp_request.ResponseParser.Head.parse_head cpp_request.ResponseParser.Head.parse_status_line
    cpp_request.Base.equal cpp_request.Scan.parse_number cpp_request.Scan.digit
    cpp_request.ResponseParser.Head.parse_reason cpp_request.ResponseParser.Head.valid_reason_phrase
    cpp_request.Ascii.is_field_byte cpp_request.ResponseParser.Head.fields_behind
    cpp_request.ResponseParser.Head.parse_fields cpp_request.ResponseParser.Head.field_step
    cpp_request.ResponseParser.Head.next_field cpp_request.ResponseParser.Head.parse_field
    cpp_request.Ascii.valid_field_name cpp_request.Ascii.valid_field_value cpp_request.Scan.trim_ows
    cpp_request.Ascii.is_ows cpp_request.ResponseParser.Frame.framed_head
    cpp_request.ResponseParser.Framing.analyze_framing
    cpp_request.ResponseParser.Framing.analyze_fields cpp_request.Headers.add
    cpp_request.ResponseParser.Framing.analyze_field cpp_request.ResponseParser.Framing.count_length
    cpp_request.ResponseParser.Framing.note_connection cpp_request.ResponseParser.Frame.accept_head
    cpp_request.ResponseParser.Framing.is_interim_status
    cpp_request.ResponseParser.Frame.frame_response
    cpp_request.ResponseParser.Framing.framing_header_forbidden_on_status
    cpp_request.ResponseParser.Framing.is_header_terminated_response
    cpp_request.ResponseParser.Frame.frame_body
    cpp_request.ResponseParser.Body.step_content_length_body
    cpp_request.ResponseParser.Body.copy_body cpp_request.Client.Exchange.judge_fed
    cpp_request.Client.Requests.follow_all cpp_request.Client.Exchange.exchanged
    cpp_request.Client.Exchange.finish_exchange cpp_request.Client.Exchange.is_reusable
    cpp_request.ResponseParser.connection_reusable cpp_request.Client.request_wants_connection_close
    cpp_request.Client.wants_connection_close cpp_request.Client.Exchange.leave
    cpp_request.Client.Keeping.keep_connection cpp_request.Redirect.is_redirect_status step_redirect
    cpp_request.Client.Requests.follow cpp_request.Client.next_redirection
    cpp_request.Client.Requests.initial_redirection cpp_request.Headers.contains
    cpp_request.Headers.get cpp_request.RequestSerializer.effective_request_url
    cpp_request.Redirect.resolve_redirect_location cpp_request.Redirect.resolve_by_scheme
    cpp_request.Redirect.scheme_end cpp_request.Redirect.validate_redirect_url
    cpp_request.Redirect.validated cpp_request.Redirect.strip_fragment
    cpp_request.Redirect.schemeless_candidate cpp_request.Redirect.relative_candidate
    cpp_request.Redirect.build_origin cpp_request.Redirect.bracketed_host
    cpp_request.Redirect.port_suffix cpp_request.Redirect.Dots.remove_dot_segments
    cpp_request.Redirect.Dots.keep_trailing_slash cpp_request.Redirect.Dots.ends_with
    cpp_request.Redirect.merge_path cpp_request.Redirect.find_suffix
    cpp_request.Redirect.Dots.join_segments cpp_request.Redirect.Dots.segments_of
    cpp_request.Redirect.Dots.collect_segments cpp_request.Tokens.split_on
    cpp_request.Redirect.Dots.push_segment cpp_request.Client.redirected
    cpp_request.Client.redirect_to cpp_request.Redirect.redirect_behavior
    cpp_request.Client.redirected_headers cpp_request.Client.add_redirected
    cpp_request.Client.same_stored_origin cpp_request.Net.TcpConnection.adopt_native_handle
    cpp_request.Client.Keeping.decode_socket_handle cpp_request.Client.Keeping.encode_socket_handle
    cpp_request.Net.TcpConnection.release_native_handle cpp_request.Platform.NativeSocket.release
    cpp_request.Net.TcpConnection.destroy cpp_request.Platform.NativeSocket.destroy
    cpp_request.Platform.NativeSocket.close cpp_request.Platform.NativeSocket.reset
    cpp_request.Client.Requests.judge_redirected
followed = refl

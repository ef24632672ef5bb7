-- ===== src/Lib.antt =====
-- Verification of cpp_request, an HTTP/1.1 client library.
--
-- The program. A request (include/cpp_request/request.hpp) is written to bytes by the serializer
-- (src/http/request_serializer.cpp), which parses its URL (src/core/url.cpp) and checks its header
-- fields (src/core/headers.cpp). The bytes that come back are fed, piece by piece, to the response
-- parser (src/http/response_parser.cpp), which hands a chunked body to the chunk decoder
-- (src/http/chunked_decoder.cpp). The client (src/core/client.cpp) follows redirects: it resolves
-- the location (src/http/redirect.cpp) against the URL before, and chooses which fields go along.
--
-- Which file models what. Error: error codes and `Result`, with `>>=` and `refuse` for the early
-- returns. Ascii, Scan, Tokens and Limits: the helpers that the source files repeat
-- (`ascii_iequals`, `is_tchar`, `valid_field_value`; `from_chars`, `trim_ows`, `to_chars`;
-- `contains_token`; `would_exceed`). Headers: the header list, `add`, `set`, `get`, `contains`.
-- Chunked: `ChunkedDecoder::process`; a `Cursor` is the decoder with the input behind the local
-- variable `cursor` and the output, and each case of the `switch` is one function `step_…`; its
-- children hold the size line, the chunk extensions and the proofs. ResponseParser: the parser's
-- fields are the record of ResponseParser/State, `parse_head` is in Head, `analyze_framing` in
-- Framing, the case `Head` of `process_buffer` in Frame and Body, the other cases in Body, and
-- `feed`, `finish_eof` and `connection_reusable` in ResponseParser. Url and Url/Host: `Url::parse`,
-- with the positions of the parts in one text, as the source stores them. Redirect and
-- Redirect/Dots: `resolve_redirect_location` and `remove_dot_segments`. RequestSerializer:
-- `serialize_request`. Client: the client's decisions and the loop body of `Client::request` up to
-- its call of `execute_once`.
--
-- Below the client, Net models src/net and Platform models src/platform: NativeSocket owns a handle,
-- SocketMode, SocketIo and SocketConnect are the files of these names, Net/Resolver and Net/Endpoint
-- turn the results of `getaddrinfo` into endpoints, and Net/TcpConnection holds `connect`, with
-- `write_all` in Writing, `read_some` in Reading and what both do behind a failed call in Waiting.
-- Client/Keeping is the client with the connection that it keeps, Client/Exchange is `execute_once`,
-- and Client/Requests is `request`, the functions for each method and the free functions. A function
-- named `judge_…`, `after_…` or `finish_…` is the rest of the function it comes from, behind the
-- value that it looks at.
--
-- Numbers and texts. A byte is a number below 256 and a text a list of bytes. `std::size_t` has 64
-- bits, `unsigned int` and `int` have 32; numbers that are read from a text are refused from the
-- first value on that does not fit, as `std::from_chars` refuses them. Lengths of texts in memory
-- are not bounded. A `string_view` is the bytes it shows. `std::isalnum` is that of the C locale.
--
-- Loops are runs of a step function on fuel (Base/Loop): `loop` gives `none` when the fuel is used
-- up. The fuel is one more than a measure that each step makes smaller: for the decoder twice the
-- length of the input, and one more while data is copied; for the parser the length of its buffer;
-- for the loops over header lines and chunk extensions the length of the text;
-- for the loops of `write_all` and `read_some` the processor's cycles in the timeout and one more,
-- since every round reads the clock, which takes at least one cycle, and begins before the deadline;
-- for the redirects `max_redirects` and one more. The loop of `execute_once` that reads has no bound
-- in the program (a server may send interim responses for ever), so that its fuel is an argument,
-- and `none` stands for a run that needs more.
--
-- Parameters. `System` (Platform) is the calls of a POSIX system with the constants of its headers:
-- each call takes the world and gives its result with the world after it. `Kernel`
-- (Platform/Kernel) is what is relied on in them, over what an `Observer` sees of a world, which is
-- the time elapsed, the open sockets and the bytes handed over: only `socket` opens and only `close`
-- closes, only `send` hands over bytes and as many as it says, `recv` stores as many as it says, a
-- handle is an `int`, and time does not go back. `IsSteady` is what the termination of the loops that wait
-- relies on: ticks of `std::chrono::steady_clock` have a constant length, `tick_cycles` cycles of the
-- processor, a reading is the number of the ticks that have passed, so that successive readings may
-- be equal, and to execute a reading takes at least one cycle.
-- Tests/Machine is a system that meets the laws. `inet_pton6` stands for `inet_pton` with `AF_INET6`
-- of the socket library, on a text that the source has checked for its length.
--
-- Points in time are natural numbers of nanoseconds, timeouts are whole milliseconds and may be
-- negative; their sums are unbounded. A destructor is a call where its variable's scope ends.
--
-- Not modelled: the branches for Windows, `SO_NOSIGPIPE` of systems without `MSG_NOSIGNAL`; self
-- assignment, which returns at once; the buffers that `std::to_chars` writes to, which have room for
-- every `std::size_t` and every port; `reserve`, which changes no value that is read; `Url` values
-- without `parse`. Benchmarks, examples and tests are programs that use the library.
mod Base
pub mod Error
pub mod Ascii
pub mod Scan
pub mod Limits
pub mod Chunked
pub mod Headers
pub mod Request
pub mod Response
pub mod Tokens
pub mod ResponseParser
pub mod Url
pub mod Redirect
pub mod RequestSerializer
pub mod Platform
pub mod Net
pub mod Client
mod Tests

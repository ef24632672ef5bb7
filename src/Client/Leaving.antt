-- ===== src/Client/Leaving.antt =====
-- The open sockets of the process at the returns of `execute_once`.
use cpp_request.Base.{both, ℕ, ◌≡◌, ◌∙◌, false, List, if◌then◌else◌, Bytes}
use cpp_request.Error.{ℤ, Result, ok, err}
use cpp_request.Request.{Request}
use cpp_request.Response.{Response}
use cpp_request.Url
use cpp_request.RequestSerializer.{SerializedRequest}
use cpp_request.ResponseParser.State.{ResponseParser}
use cpp_request.Platform.{System}
use cpp_request.Platform.NativeSocket.{NativeSocket, no_socket, valid}
use cpp_request.Platform.NativeSocket
use cpp_request.Platform.Kernel.{Observer, Kernel}
use cpp_request.Platform.Ownership.{others, opened-destroy, valid_no_socket}
use cpp_request.Net.TcpConnection.{TcpConnection, no_connection, destroy, release_native_handle}
use cpp_request.Client.Keeping.{Client, kept_socket, keep_connection}
use cpp_request.Client.Tokens.{decode-encode}
use cpp_request.Client.Exchange.{Executed, leave, finish_exchange, exchanged, is_reusable}
use cpp_request.Client.Sockets.{IsBeside}

-- The open sockets but the one that the client keeps.
unfoldable pub kept_aside : Client → List ℤ → List ℤ
kept_aside s open_sockets =
    if s.has_reusable_connection then others (kept_socket s) open_sockets else open_sockets

module _ (sys : System) (o : Observer sys) (k : Kernel sys o) (before : List ℤ) where
  open sys use {World}
  open o use {opened}

  abbrev pub HasLeft : Executed World → Type 0
  HasLeft x = kept_aside x.client (opened x.world) ≡ before

  -- At a return, for a client that keeps no connection.
  pub leave-HasLeft :
      (s : Client) (c : TcpConnection) (w : World) (r : Result Response)
      → s.has_reusable_connection ≡ false
      → IsBeside sys o k before c w
      → HasLeft (leave sys s c w r)
  unfolding leave destroy kept_aside
  leave-HasLeft s c w r e (a, i) = rw e (opened-destroy sys o k c.socket w ∙ a)

  -- At a return that keeps the connection.
  leave_kept :
      (s : Client) (c : TcpConnection) (host : Bytes) (port : ℕ) (w : World) (r : Result Response)
      → IsBeside sys o k before c w
      → HasLeft (leave sys (keep_connection c.socket.handle host port s) no_connection w r)
  unfolding leave destroy kept_aside keep_connection others
  leave_kept s c host port w r (a, i) =
      rw (decode-encode c.socket.handle i, opened-destroy sys o k no_socket w, valid_no_socket) a

  finish_exchange-HasLeft :
      (r : Request) (z : SerializedRequest) (s : Client) (c : TcpConnection) (w : World)
      (p : ResponseParser)
      → s.has_reusable_connection ≡ false
      → IsBeside sys o k before c w
      → HasLeft (finish_exchange sys r z s c w p)
  unfolding finish_exchange release_native_handle NativeSocket.release
  finish_exchange-HasLeft r z s c w p e b =
      both HasLeft (is_reusable r c p)
        (leave_kept s c (Url.host z.url) z.url.port w (ok p.response) b)
        (leave-HasLeft s c w (ok p.response) e b)

  pub exchanged-HasLeft :
      (r : Request) (z : SerializedRequest) (s : Client) (c : TcpConnection) (w : World)
      (x : Result ResponseParser)
      → s.has_reusable_connection ≡ false
      → IsBeside sys o k before c w
      → HasLeft (exchanged sys r z s c w x)
  unfolding exchanged
  exchanged-HasLeft r z s c w (ok p) e b = finish_exchange-HasLeft r z s c w p e b
  exchanged-HasLeft r z s c w (err x) e b = leave-HasLeft s c w (err x) e b

-- ===== src/Client/Sockets.antt =====
-- The open sockets of the process beside a connection that `execute_once` owns: writing and reading
-- keep them.
use cpp_request.Base.{
  Yields, yields, ℕ, ◌≡◌, ap, ◌∙◌, true, false, inl, inr, Bool-cases, List, Bytes, arith,
}
use cpp_request.Error.{ℤ, Result, ok, err}
use cpp_request.Platform.{System}
use cpp_request.Platform.Kernel.{Observer, Kernel, IsInt, erase}
use cpp_request.Platform.Ownership.{others, valid_no_socket}
use cpp_request.Net.TcpConnection.{TcpConnection, no_connection, connected}
use cpp_request.Net.TcpConnection.Writing.{Written, write_all}
use cpp_request.Net.TcpConnection.Reading.{Received, Read, read_some}
use cpp_request.Net.TcpConnection.Delivery.{write_all-HasWritten, WrittenAs}
use cpp_request.Net.TcpConnection.Receipt.{read_some-HasRead, ReadAs}
use cpp_request.Client.Exchange.{read_buffer_size}

module _ (sys : System) (o : Observer sys) (k : Kernel sys o) (before : List ℤ) where
  open sys use {World}
  open o use {opened}

  -- Beside the connection, the open sockets are those of before.
  abbrev pub IsBeside : TcpConnection → World → Type 0
  IsBeside c w = (others c.socket (opened w) ≡ before) × IsInt c.socket.handle

  pub no_connection-IsBeside : (w : World) → opened w ≡ before → IsBeside no_connection w
  unfolding others
  no_connection-IsBeside w e = (rw valid_no_socket e, omega arith)

  closed-IsBeside :
      (c c' : TcpConnection) (w w' : World)
      → connected c ≡ true
      → IsBeside c w
      → c' ≡ no_connection
      → opened w' ≡ erase c.socket.handle (opened w)
      → IsBeside c' w'
  unfolding connected others
  closed-IsBeside c c' w w' v (a, i) e f = rw e (no_connection-IsBeside w' (f ∙ (rw v at a)))

  pub same-IsBeside :
      (c c' : TcpConnection) (w w' : World)
      → IsBeside c w
      → c' ≡ c
      → opened w' ≡ opened w
      → IsBeside c' w'
  same-IsBeside c c' w w' (a, i) e f = rw e (ap (others c.socket) f ∙ a, i)

  written-IsBeside :
      (c c' : TcpConnection) (text : Bytes) (w w' : World) (r : Result ℕ)
      → connected c ≡ true
      → IsBeside c w
      → WrittenAs sys o k c text w c' w' r
      → IsBeside c' w'
  written-IsBeside c c' text w w' (ok n) v b h = same-IsBeside c c' w w' b h.1.0 h.1.1.0
  written-IsBeside c c' text w w' (err e) v b h = closed-IsBeside c c' w w' v b h.0 h.1.0

  read-IsBeside :
      (c c' : TcpConnection) (capacity : ℕ) (w w' : World) (r : Result Received)
      → connected c ≡ true
      → IsBeside c w
      → ReadAs sys o k c capacity w c' w' r
      → IsBeside c' w'
  read-IsBeside c c' capacity w w' (ok n) v b h = same-IsBeside c c' w w' b h.0 h.1.0.0
  read-IsBeside c c' capacity w w' (err e) v b h = closed-IsBeside c c' w w' v b h.0 h.1.0

  -- After a write, and after a read.
  abbrev pub WriteBeside : Written sys → Type 0
  WriteBeside d = IsBeside d.connection d.world

  abbrev pub ReadBeside : Read sys → Type 0
  ReadBeside d = IsBeside d.connection d.world

  pub write_all-IsBeside :
      (c : TcpConnection) (text : Bytes) (timeout : ℤ) (w : World)
      → IsBeside c w
      → Yields WriteBeside (write_all sys c text timeout w)
  unfolding write_all
  write_all-IsBeside c text timeout w b = elim (Bool-cases (connected c)) [
    | inl v ↦ yields WriteBeside (write_all sys c text timeout w) (λ d e.
        written-IsBeside c d.connection text w d.world d.result v b
          (write_all-HasWritten sys o k c text timeout w d v e))
    | inr v ↦ rw v b
  ]

  pub read_some-IsBeside :
      (c : TcpConnection) (timeout : ℤ) (w : World)
      → IsBeside c w
      → Yields ReadBeside (read_some sys c false read_buffer_size timeout w)
  unfolding read_some
  read_some-IsBeside c timeout w b = elim (Bool-cases (connected c)) [
    | inl v ↦ yields ReadBeside (read_some sys c false read_buffer_size timeout w) (λ d e.
        read-IsBeside c d.connection read_buffer_size w d.world d.result v b
          (read_some-HasRead sys o k c read_buffer_size timeout w d v (omega arith) e))
    | inr v ↦ rw v b
  ]

-- ===== src/Tests/Machine.antt =====
-- A system that meets the laws: a peer that takes up to 64 bytes at a time and has an answer ready.
use cpp_request.Base.{
  ℕ, ◌+◌, ◌/◌, ◌≡◌, refl, some, List, [], ◌∷◌, ◌++◌, min, arith, if◌then◌else◌, Bytes, length, take,
  drop, length-take,
}
use cpp_request.Error.{ℤ, pos}
use cpp_request.Platform.{System, AddrInfo}
use cpp_request.Platform.NativeSocket.{same_int, invalid_socket}
use cpp_request.Platform.Kernel.{Observer, Kernel, HasSent, erase, IsSteady}
use cpp_request.Platform.Ownership.{same_int_refl}

pub record Machine : Type 0 where
  pub time : ℕ
  pub sockets : List ℤ
  pub written : ℤ → Bytes
  pub answer : Bytes

-- A machine at its start.
abbrev pub ready_with : Bytes → Machine
ready_with answer = record { time = 0; sockets = []; written = λ h. []; answer = answer }

-- One cycle later; a nanosecond has two, so that readings of the clock may be equal.
abbrev tick : Machine → Machine
tick m = record m { time = m.time + 1 }

abbrev hand_over : ℤ → Bytes → Machine → Machine
hand_over h text m = record m {
  written = λ h'. if same_int h' h then m.written h' ++ text else m.written h';
}

abbrev peer : AddrInfo
peer = record {
  ai_family = pos 2;
  ai_socktype = pos 1;
  ai_protocol = pos 6;
  ai_addrlen = 2;
  ai_addr = some (2 ∷ 0 ∷ []);
}

abbrev family_of : Bytes → ℤ
family_of [] = pos 0
family_of (b ∷ bytes) = pos b

abbrev pub machine : System
machine = record {
  World = Machine;
  now = λ m. (m.time / 2, tick m);
  tick_cycles = 2;
  errno = λ m. pos 11;
  socket = λ family type protocol m. (pos 7, record m { sockets = pos 7 ∷ m.sockets });
  close = λ h m. record m { sockets = erase h m.sockets };
  get_flags = λ h m. (2, m);
  set_flags = λ h flags m. (pos 0, m);
  connect = λ h address size m. (pos 0, m);
  get_socket_error = λ h m. ((pos 0, pos 0), m);
  poll = λ h writable timeout m. (pos 1, m);
  send = λ h text m. (pos (min 64 (length text)), hand_over h (take (min 64 (length text)) text) m);
  recv = λ h size m. (
    (pos (min size (length m.answer)), take size m.answer),
    record m { answer = drop size m.answer },
  );
  getaddrinfo = λ host service m. ((pos 0, peer ∷ []), m);
  ss_family = family_of;
  eagain = pos 11;
  ewouldblock = pos 11;
  eintr = pos 4;
  epipe = pos 32;
  econnreset = pos 104;
  enotconn = pos 107;
  eshutdown = pos 108;
  einprogress = pos 115;
  ealready = pos 114;
  af_unspec = pos 0;
  af_inet = pos 2;
  af_inet6 = pos 10;
  sock_stream = pos 1;
  ipproto_tcp = pos 6;
  o_nonblock = 2048;
  sockaddr_storage_size = 128;
}

abbrev pub watch : Observer machine
watch = record { elapsed = λ m. m.time; opened = λ m. m.sockets; output = λ h m. m.written h }

sends :
    (h : ℤ) (text : Bytes) (m : Machine)
    → HasSent machine watch h text m (machine.send h text m).1 (machine.send h text m).0
sends h text m = (omega arith, rw (same_int_refl h) refl)

opens :
    (before : List ℤ)
    → pos 7 ∷ before ≡ (if same_int (pos 7) invalid_socket then before else pos 7 ∷ before)
unfolding same_int
opens before = refl

pub kernel : Kernel machine watch
kernel = record {
  now-IsQuiet = λ m. (refl, ((λ h. refl), omega arith));
  get_flags-IsQuiet = λ h m. (refl, ((λ h. refl), omega arith));
  set_flags-IsQuiet = λ h flags m. (refl, ((λ h. refl), omega arith));
  connect-IsQuiet = λ h address size m. (refl, ((λ h. refl), omega arith));
  get_socket_error-IsQuiet = λ h m. (refl, ((λ h. refl), omega arith));
  poll-IsQuiet = λ h writable timeout m. (refl, ((λ h. refl), omega arith));
  recv-IsQuiet = λ h size m. (refl, ((λ h. refl), omega arith));
  recv-HasReceived = λ h size m. (omega arith, omega (arith, length-take size m.answer));
  getaddrinfo-IsQuiet = λ host service m. (refl, ((λ h. refl), omega arith));
  send-opened = λ h text m. refl;
  send-elapsed = λ h text m. omega arith;
  send-HasSent = sends;
  socket-HasOpened = λ family type protocol m. opens m.sockets;
  socket-IsInt = λ family type protocol m. omega arith;
  socket-IsCalm = λ family type protocol m. ((λ h. refl), omega arith);
  close-opened = λ h m. refl;
  close-IsCalm = λ h m. ((λ h. refl), omega arith);
}

pub machine-IsSteady : IsSteady machine watch
machine-IsSteady = record {
  tick-lasts = omega arith;
  now-ticks = λ m. refl;
  now-lasts = λ m. omega arith;
}

-- ===== src/Platform/SocketMode.antt =====
-- src/platform/socket_mode.cpp: blocking and non-blocking sockets.
use Prim.Native.Nat.{bit_and, bit_or}
use cpp_request.Base.{ℕ, ◌-◌, ◌^◌, Bool, true, false, ◌==◌, if◌then◌else◌}
use cpp_request.Error.{ℤ, pos}
use cpp_request.Platform.{System}
use cpp_request.Platform.NativeSocket.{same_int}

-- The bits of the `int` -1.
abbrev pub all_bits : ℕ
all_bits = 2 ^ 32 - 1

module _ (sys : System) where
  open sys use {World, errno, get_flags, set_flags, o_nonblock}

  -- `enabled ? (flags | O_NONBLOCK) : (flags & ~O_NONBLOCK)`
  unfoldable pub next_flags : Bool → ℕ → ℕ
  next_flags enabled flags =
      if enabled then bit_or flags o_nonblock else bit_and flags (all_bits - o_nonblock)

  -- Whether it succeeded, and the `native_code`.
  unfoldable pub set_socket_nonblocking : ℤ → Bool → World → (Bool × ℤ) × World
  set_socket_nonblocking socket enabled w =
      let (flags, w1) = get_flags socket w in
      if flags == all_bits
      then ((false, errno w1), w1)
      else (let (set, w2) = set_flags socket (next_flags enabled flags) w1 in
          if same_int set (pos 0) then ((true, pos 0), w2) else ((false, errno w2), w2))

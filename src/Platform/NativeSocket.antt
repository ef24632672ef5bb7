-- ===== src/Platform/NativeSocket.antt =====
-- src/platform/native_socket.hpp and src/platform/native_socket.cpp: the owner of a socket handle.
use cpp_request.Base.{Bool, false, not, ◌==◌, if◌then◌else◌}
use cpp_request.Error.{ℤ, pos, negsuc}
use cpp_request.Platform.{System}

-- `==` on `int`.
unfoldable pub same_int : ℤ → ℤ → Bool
same_int (pos a) (pos b) = a == b
same_int (pos a) (negsuc b) = false
same_int (negsuc a) (pos b) = false
same_int (negsuc a) (negsuc b) = a == b

-- -1
abbrev pub invalid_socket : ℤ
invalid_socket = negsuc 0

pub record NativeSocket : Type 0 where
  pub handle : ℤ

abbrev pub no_socket : NativeSocket
no_socket = record { handle = invalid_socket }

unfoldable pub valid : NativeSocket → Bool
valid s = not (same_int s.handle invalid_socket)

-- The handle, and the socket without it.
unfoldable pub release : NativeSocket → ℤ × NativeSocket
release s = (s.handle, no_socket)

module _ (sys : System) where
  open sys use {World}

  unfoldable pub reset : ℤ → NativeSocket → World → NativeSocket × World
  reset replacement s w =
      if same_int s.handle replacement
      then (s, w)
      else (record { handle = replacement }, (if valid s then sys.close s.handle w else w))

  unfoldable pub close : NativeSocket → World → NativeSocket × World
  close s w = reset invalid_socket s w

  -- `~NativeSocket`
  unfoldable pub destroy : NativeSocket → World → World
  destroy s w = (close s w).1

  -- `operator=(NativeSocket&&)` of two different sockets: the new owner and the old one.
  unfoldable pub move_assign :
      NativeSocket → NativeSocket → World → (NativeSocket × NativeSocket) × World
  move_assign s other w =
      let (taken, rest) = release other in let (s', w') = reset taken s w in ((s', rest), w')

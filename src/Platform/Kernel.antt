-- ===== src/Platform/Kernel.antt =====
-- What the program relies on in the calls of the system, as laws of a `System`: what POSIX says of
-- the clock, of the open sockets of the process and of the bytes handed to a connection. They are
-- hypotheses; no code of the repository implements them.
use cpp_request.Base.{
  ℕ, zero, ◌^◌, ◌/◌, ◌≤◌, ◌<◌, ◌≡◌, refl, ◌∙◌, Bool, List, [], ◌∷◌, ◌++◌, arith, if◌then◌else◌,
  Bytes, length, take,
}
use cpp_request.Error.{ℤ, pos, negsuc}
use cpp_request.Platform.{System}
use cpp_request.Platform.NativeSocket.{same_int, invalid_socket}

-- The range of an `int`.
abbrev pub IsInt : ℤ → Type 0
IsInt (pos n) = n < 2 ^ 31
IsInt (negsuc n) = n < 2 ^ 31

-- The list without the first occurrence of a handle.
unfoldable pub erase : ℤ → List ℤ → List ℤ
erase h [] = []
erase h (x ∷ xs) = let rest = erase h xs in if same_int x h then xs else x ∷ rest

-- What is seen of a world: the time elapsed since the steady clock's origin, in cycles of the
-- processor, the open sockets, the last one opened first, and the bytes that were handed over on a
-- handle.
pub record Observer (sys : System) : Type 1 where
  pub elapsed : sys.World → ℕ
  pub opened : sys.World → List ℤ
  pub output : ℤ → sys.World → Bytes

module _ (sys : System) (o : Observer sys) where
  open sys use {World}
  open o use {elapsed, opened, output}

  -- Nothing is handed over, and time does not go back.
  abbrev pub IsCalm : World → World → Type 0
  IsCalm w w' = ((h : ℤ) → output h w' ≡ output h w) × (elapsed w ≤ elapsed w')

  -- Moreover no socket is opened or closed.
  abbrev pub IsQuiet : World → World → Type 0
  IsQuiet w w' = (opened w' ≡ opened w) × IsCalm w w'

  -- A `send` hands over as many bytes as it says, or none.
  abbrev pub HasSent : ℤ → Bytes → World → World → ℤ → Type 0
  HasSent h text w w' (pos n) = (n ≤ length text) × (output h w' ≡ output h w ++ take n text)
  HasSent h text w w' (negsuc n) = output h w' ≡ output h w

  -- A `recv` stores as many bytes as it says, within the size of the buffer.
  abbrev pub HasReceived : ℕ → ℤ → Bytes → Type 0
  HasReceived size (pos n) buffer = (n ≤ size) × (n ≤ length buffer)
  HasReceived size (negsuc n) buffer = Unit {0}

  -- A `socket` gives a new handle, or none.
  abbrev pub HasOpened : World → World → ℤ → Type 0
  HasOpened w w' h = opened w' ≡ (if same_int h invalid_socket then opened w else h ∷ opened w)

  pub record Kernel : Type 1 where
    pub now-IsQuiet : (w : World) → IsQuiet w (sys.now w).1
    pub get_flags-IsQuiet : (h : ℤ) (w : World) → IsQuiet w (sys.get_flags h w).1
    pub set_flags-IsQuiet : (h : ℤ) (flags : ℕ) (w : World) → IsQuiet w (sys.set_flags h flags w).1
    pub connect-IsQuiet :
        (h : ℤ) (address : Bytes) (size : ℕ) (w : World)
        → IsQuiet w (sys.connect h address size w).1
    pub get_socket_error-IsQuiet : (h : ℤ) (w : World) → IsQuiet w (sys.get_socket_error h w).1
    pub poll-IsQuiet :
        (h : ℤ) (writable : Bool) (timeout : ℕ) (w : World)
        → IsQuiet w (sys.poll h writable timeout w).1
    pub recv-IsQuiet : (h : ℤ) (size : ℕ) (w : World) → IsQuiet w (sys.recv h size w).1
    pub recv-HasReceived :
        (h : ℤ) (size : ℕ) (w : World)
        → HasReceived size (sys.recv h size w).0.0 (sys.recv h size w).0.1
    pub getaddrinfo-IsQuiet :
        (host service : Bytes) (w : World) → IsQuiet w (sys.getaddrinfo host service w).1
    pub send-opened : (h : ℤ) (text : Bytes) (w : World) → opened (sys.send h text w).1 ≡ opened w
    pub send-elapsed :
        (h : ℤ) (text : Bytes) (w : World) → elapsed w ≤ elapsed (sys.send h text w).1
    pub send-HasSent :
        (h : ℤ) (text : Bytes) (w : World)
        → HasSent h text w (sys.send h text w).1 (sys.send h text w).0
    pub socket-HasOpened :
        (family type protocol : ℤ) (w : World)
        → HasOpened w (sys.socket family type protocol w).1 (sys.socket family type protocol w).0
    pub socket-IsInt :
        (family type protocol : ℤ) (w : World) → IsInt (sys.socket family type protocol w).0
    pub socket-IsCalm :
        (family type protocol : ℤ) (w : World) → IsCalm w (sys.socket family type protocol w).1
    pub close-opened : (h : ℤ) (w : World) → opened (sys.close h w) ≡ erase h (opened w)
    pub close-IsCalm : (h : ℤ) (w : World) → IsCalm w (sys.close h w)

  -- `std::chrono::steady_clock`: its ticks have a constant length, and a reading is the number of
  -- the ticks that have passed, so that readings in one tick are equal. The call itself is executed,
  -- which takes at least one cycle of the processor.
  pub record IsSteady : Type 0 where
    pub tick-lasts : zero < sys.tick_cycles
    pub now-ticks : (w : World) → (sys.now w).0 ≡ elapsed w / sys.tick_cycles
    pub now-lasts : (w : World) → elapsed w < elapsed (sys.now w).1

  pub IsQuiet-refl : (w : World) → IsQuiet w w
  IsQuiet-refl w = (refl, ((λ h. refl), omega arith))

  pub IsQuiet-trans : {w1 w2 w3 : World} → IsQuiet w1 w2 → IsQuiet w2 w3 → IsQuiet w1 w3
  IsQuiet-trans (o1, (s1, c1)) (o2, (s2, c2)) = (o2 ∙ o1, ((λ h. s2 h ∙ s1 h), omega arith))

  pub IsCalm-trans : {w1 w2 w3 : World} → IsCalm w1 w2 → IsCalm w2 w3 → IsCalm w1 w3
  IsCalm-trans (s1, c1) (s2, c2) = ((λ h. s2 h ∙ s1 h), omega arith)

-- ===== src/Platform/Ownership.antt =====
-- src/platform/native_socket.cpp: the owner of a handle and the open sockets of the process.
use mathlib.Core.Path.{subst}
use cpp_request.Base.{
  sym, ◌≡◌, refl, ap, inl, inr, true, false, List, ◌∷◌, Bool-cases, arith, if◌then◌else◌, ==_iff,
}
use cpp_request.Error.{ℤ, pos, negsuc}
use cpp_request.Platform.{System}
use cpp_request.Platform.NativeSocket.{
  same_int, invalid_socket, NativeSocket, no_socket, valid, reset, close, destroy, release,
  move_assign,
}
use cpp_request.Platform.Kernel.{Observer, Kernel, IsCalm, erase}

pub same_int_refl : (a : ℤ) → same_int a a ≡ true
unfolding same_int
same_int_refl (pos a) = (==_iff a a).1 refl
same_int_refl (negsuc a) = (==_iff a a).1 refl

pub same_int→eq : (a b : ℤ) → same_int a b ≡ true → a ≡ b
unfolding same_int
same_int→eq (pos a) (pos b) h = ap pos ((==_iff a b).0 h)
same_int→eq (pos a) (negsuc b) h = cc
same_int→eq (negsuc a) (pos b) h = cc
same_int→eq (negsuc a) (negsuc b) h = ap negsuc ((==_iff a b).0 h)

pub erase_head : (h : ℤ) (open_sockets : List ℤ) → erase h (h ∷ open_sockets) ≡ open_sockets
unfolding erase
erase_head h open_sockets = rw (same_int_refl h)

-- The open sockets but the one that is owned.
unfoldable pub others : NativeSocket → List ℤ → List ℤ
others s open_sockets = if valid s then erase s.handle open_sockets else open_sockets

pub valid_no_socket : valid no_socket ≡ false
unfolding valid same_int
valid_no_socket = refl

pub valid_of : (h : ℤ) → same_int h invalid_socket ≡ false → valid (record { handle = h }) ≡ true
unfolding valid
valid_of h e = rw e

module _ (sys : System) where
  pub close_valid :
      (s : NativeSocket) (w : sys.World)
      → valid s ≡ true
      → close sys s w ≡ (no_socket, sys.close s.handle w)
  unfolding close reset valid
  close_valid s w v = elim (Bool-cases (same_int s.handle invalid_socket)) [
    | inl e ↦ ground arith
    | inr e ↦ rw e
  ]

  pub close_invalid :
      (s : NativeSocket) (w : sys.World) → valid s ≡ false → close sys s w ≡ (no_socket, w)
  unfolding close reset valid
  close_invalid s w v = elim (Bool-cases (same_int s.handle invalid_socket)) [
    | inl e ↦ rw e (ap (λ h. (record { handle = h }, w)) (same_int→eq s.handle invalid_socket e))
    | inr e ↦ ground arith
  ]

  module _ (o : Observer sys) (k : Kernel sys o) where
    pub opened-destroy :
        (s : NativeSocket) (w : sys.World) → o.opened (destroy sys s w) ≡ others s (o.opened w)
    unfolding others destroy
    opened-destroy s w = elim (Bool-cases (valid s)) [
      | inl v ↦ rw (destroy, v, close_valid s w v) (k.close-opened s.handle w)
      | inr v ↦ rw (destroy, v, close_invalid s w v)
    ]

    -- Under the laws of the system calls, when one owner takes a different handle from another,
    -- the handle that it had is closed, if it had one, and no other; the other owner is left
    -- without a handle.
    pub opened-move_assign :
        (s other : NativeSocket) (w : sys.World)
        → same_int s.handle other.handle ≡ false
        → (o.opened (move_assign sys s other w).1 ≡ others s (o.opened w))
          × ((move_assign sys s other w).0 ≡ (other, no_socket))
    unfolding move_assign release reset others
    opened-move_assign s other w e = elim (Bool-cases (valid s)) [
      | inl v ↦ rw (e, v) (k.close-opened s.handle w, refl)
      | inr v ↦ rw (e, v) (refl, refl)
    ]

    pub IsCalm-destroy : (s : NativeSocket) (w : sys.World) → IsCalm sys o w (destroy sys s w)
    unfolding destroy
    IsCalm-destroy s w = elim (Bool-cases (valid s)) [
      | inl v ↦
          subst (λ (r : NativeSocket × sys.World). IsCalm sys o w r.1) (sym (close_valid s w v))
            (k.close-IsCalm s.handle w)
      | inr v ↦
          subst (λ (r : NativeSocket × sys.World). IsCalm sys o w r.1) (sym (close_invalid s w v))
            ((λ h. refl), omega arith)
    ]

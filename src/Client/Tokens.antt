-- ===== src/Client/Tokens.antt =====
-- The token that stands for a kept socket, and the kept socket among the open ones.
use cpp_request.Base.{ℕ, ◌-◌, ◌%◌, ◌^◌, ◌<◌, ◌≡◌, ap, true, false, both_with, arith, ltb}
use cpp_request.Error.{ℤ, pos, negsuc}
use cpp_request.Platform.Kernel.{IsInt}
use cpp_request.Client.Keeping.{encode_socket_handle, decode_socket_handle, as_int}

IsInt-as_int : (n : ℕ) → n < 2 ^ 32 → IsInt (as_int n)
IsInt-as_int n h = both_with IsInt (ltb n (2 ^ 31)) (λ b. ground arith) (λ b. ground arith)

pub IsInt-decode : (token : ℕ) → IsInt (decode_socket_handle token)
unfolding decode_socket_handle
IsInt-decode token = IsInt-as_int (token % 2 ^ 32) (omega arith)

as_int_low : (n bits : ℕ) → n < 2 ^ 31 → bits ≡ n → as_int bits ≡ pos n
as_int_low n bits h e =
    both_with (λ z. z ≡ pos n) (ltb bits (2 ^ 31)) (λ b. ap pos e) (λ b. absurd (beyond e h b))
  where
    beyond : bits ≡ n → n < 2 ^ 31 → ltb bits (2 ^ 31) ≡ false → ⊥
    beyond e h b = ground arith

as_int_high : (n bits : ℕ) → n < 2 ^ 31 → bits ≡ 2 ^ 32 - 1 - n → as_int bits ≡ negsuc n
as_int_high n bits h e =
    both_with (λ z. z ≡ negsuc n) (ltb bits (2 ^ 31)) (λ b. absurd (beyond e h b))
      (λ b. ap negsuc (omega arith))
  where
    beyond : bits ≡ 2 ^ 32 - 1 - n → n < 2 ^ 31 → ltb bits (2 ^ 31) ≡ true → ⊥
    beyond e h b = ground arith

-- A handle that is an `int` survives the way through the token, though the token is unsigned and
-- twice as wide.
pub decode-encode : (h : ℤ) → IsInt h → decode_socket_handle (encode_socket_handle h) ≡ h
unfolding decode_socket_handle encode_socket_handle
decode-encode (pos n) h = as_int_low n (n % 2 ^ 32) h (omega arith)
decode-encode (negsuc n) h = as_int_high n ((2 ^ 64 - 1 - n) % 2 ^ 32) h (omega arith)

-- ===== src/Url/Host.antt =====
-- src/core/url.cpp: the authority, with a host or an IPv6 literal, and a port.
use cpp_request.Base.{
  ℕ, suc, ◌+◌, ◌-◌, ◌^◌, Bool, true, false, not, ◌&&◌, ◌||◌, Option, none, some, [], ◌∷◌, ltb, leb,
  ◌==◌, if◌then◌else◌, Bytes, length, is_empty, take, drop, find_byte, mem_byte,
}
use cpp_request.Error.{Result, ok, fail, refuse, ◌>>=◌, ◌>>◌, invalid_url, invalid_port}
use cpp_request.Scan.{parse_number}

-- What the authority says, with the place of the host in it.
pub record Authority : Type 0 where
  pub host_offset : ℕ
  pub host_size : ℕ
  pub port : ℕ
  pub has_explicit_port : Bool
  pub is_ipv6_literal : Bool

unfoldable pub port_or_fail : Option ℕ → Result ℕ
port_or_fail none = fail invalid_port
port_or_fail (some value) = do refuse (value == 0 || ltb 65535 value) invalid_port; ok value

-- The number is read as an `unsigned int` of 32 bits.
unfoldable pub parse_port : Bytes → Result ℕ
unfolding port_or_fail
parse_port text = do
  refuse (is_empty text) invalid_port
  port_or_fail (parse_number 10 (2 ^ 32) text)

-- `rfind` of a byte.
unfoldable pub rfind_byte : ℕ → Bytes → Option ℕ
rfind_byte b [] = none
rfind_byte b (x ∷ s) = elim (rfind_byte b s) [
  | some i ↦ some (suc i)
  | none ↦ if x == b then some 0 else none
]

abbrev pub same_index : Option ℕ → ℕ → Bool
same_index none i = false
same_index (some j) i = j == i

-- What stands behind the `]` of an IPv6 literal of the given size.
unfoldable pub literal_port : ℕ → Bytes → Result Authority
literal_port size [] = ok (record {
  host_offset = 1;
  host_size = size;
  port = 80;
  has_explicit_port = false;
  is_ipv6_literal = true;
})
literal_port size (c ∷ text) = do
  refuse (not (c == b':')) invalid_url
  port ← parse_port text
  ok (record {
    host_offset = 1;
    host_size = size;
    port = port;
    has_explicit_port = true;
    is_ipv6_literal = true;
  })

-- A host that is no literal, by the place of the last colon.
unfoldable pub parse_named : Bytes → Option ℕ → Result Authority
parse_named authority none = ok (record {
  host_offset = 0;
  host_size = length authority;
  port = 80;
  has_explicit_port = false;
  is_ipv6_literal = false;
})
parse_named authority (some colon) = do
  refuse (not (same_index (find_byte b':' authority) colon)) invalid_url
  refuse (is_empty (take colon authority)) invalid_url
  port ← parse_port (drop (colon + 1) authority)
  ok (record {
    host_offset = 0;
    host_size = length (take colon authority);
    port = port;
    has_explicit_port = true;
    is_ipv6_literal = false;
  })

module _ (inet_pton6 : Bytes → Bool) where
  unfoldable pub valid_ipv6_literal : Bytes → Bool
  valid_ipv6_literal text =
      not (is_empty text || leb 64 (length text) || mem_byte b'%' text) && inet_pton6 text

  -- An authority that begins with `[`, by the place of the `]`.
  unfoldable pub parse_literal : Bytes → Option ℕ → Result Authority
  parse_literal authority none = fail invalid_url
  parse_literal authority (some closing) = do
    refuse (closing == 1) invalid_url
    let literal = take (closing - 1) (drop 1 authority)
    refuse (not (valid_ipv6_literal literal)) invalid_url
    literal_port (closing - 1) (drop (closing + 1) authority)

  unfoldable pub parse_authority : Bytes → Result Authority
  parse_authority [] = parse_named [] (rfind_byte b':' [])
  parse_authority (c ∷ s) =
      if c == b'['
      then parse_literal (c ∷ s) (find_byte b']' (c ∷ s))
      else parse_named (c ∷ s) (rfind_byte b':' (c ∷ s))

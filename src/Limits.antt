-- ===== src/Limits.antt =====
-- include/cpp_request/response_limits.hpp, and `would_exceed`, which chunked_decoder.cpp and
-- response_parser.cpp both define.
use cpp_request.Base.{ℕ, ◌+◌, ◌-◌, ◌*◌, ◌<◌, ◌≡◌, ◌↔◌, Bool, true, ◌||◌, arith, ltb}

pub record ResponseLimits : Type 0 where
  pub max_head_bytes : ℕ
  pub max_body_bytes : ℕ
  pub max_chunk_line_bytes : ℕ
  pub max_trailer_bytes : ℕ

-- The defaults.
abbrev pub default_limits : ResponseLimits
default_limits = record {
  max_head_bytes = 64 * 1024;
  max_body_bytes = 64 * 1024 * 1024;
  max_chunk_line_bytes = 8 * 1024;
  max_trailer_bytes = 64 * 1024;
}

-- Whether an addition exceeds a limit, with a subtraction in place of the sum.
unfoldable pub would_exceed : ℕ → ℕ → ℕ → Bool
would_exceed current addition limit = ltb limit current || ltb (limit - current) addition

-- It is the test `current + addition > limit` over unbounded numbers.
pub would_exceed_iff :
    (current addition limit : ℕ)
    → (would_exceed current addition limit ≡ true) ↔ (limit < current + addition)
unfolding would_exceed
would_exceed_iff current addition limit = ground arith

-- ===== src/Platform/NetworkRuntime.antt =====
-- src/platform/network_runtime.hpp and src/platform/network_runtime.cpp: a POSIX system needs no
-- start of its network library.
use cpp_request.Base.{Bool, true}
use cpp_request.Error.{ℤ, pos}

pub record NetworkRuntimeStatus : Type 0 where
  pub usable : Bool
  pub native_code : ℤ

unfoldable pub ensure_network_runtime : NetworkRuntimeStatus
ensure_network_runtime = record { usable = true; native_code = pos 0 }

-- ===== src/Prelude/Int.antt =====
-- Signed integers, and the 64-bit patterns that Go's conversions between int64 and uint64 keep.
use go_systems_lab.Prelude.Tests.{ltb, if◌then◌else◌}
use Prim.Native.Nat.{ℕ, ◌-◌, ◌%◌, ◌^◌, ◌<◌}
use mathlib.Core.Path.{◌≡◌}
use native.Mathlib.Omega.{arith}

-- `negsuc n` is -(n + 1).
pub data ℤ : Type 0 where
  pos : ℕ → ℤ
  negsuc : ℕ → ℤ

-- The values of int64.
abbrev pub IsInt64 : ℤ → Type 0
IsInt64 (pos n) = n < 2 ^ 63
IsInt64 (negsuc n) = n < 2 ^ 63

-- `uint64(z)` of an int64.
unfoldable pub to_u64 : ℤ → ℕ
to_u64 (pos n) = n % 2 ^ 64
to_u64 (negsuc n) = 2 ^ 64 - 1 - n % 2 ^ 64

-- `int64(u)` of a uint64.
unfoldable pub of_u64 : ℕ → ℤ
of_u64 u = if ltb u (2 ^ 63) then pos u else negsuc (2 ^ 64 - 1 - u)

pub to_u64-lt : (z : ℤ) → to_u64 z < 2 ^ 64
unfolding to_u64
to_u64-lt (pos n) = omega arith
to_u64-lt (negsuc n) = omega arith

pub of_u64-to_u64 : (z : ℤ) → IsInt64 z → of_u64 (to_u64 z) ≡ z
unfolding to_u64 of_u64
of_u64-to_u64 (pos n) h = ground arith
of_u64-to_u64 (negsuc n) h = ground arith

-- `int32(u)` of a uint32.
unfoldable pub of_u32 : ℕ → ℤ
of_u32 u = if ltb u (2 ^ 31) then pos u else negsuc (2 ^ 32 - 1 - u)

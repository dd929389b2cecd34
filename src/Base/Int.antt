-- ===== src/Base/Int.antt =====
-- Signed integers, for the settings whose sign has a meaning, and the wrap-around of int64.
use Prim.Native.Nat.{ℕ, ◌<◌, ◌-◌, ◌%◌, ◌^◌}
use mathlib.Core.Path.{◌≡◌}
use native.Mathlib.Omega.{arith}
use yunzes_node.Base.Tests.{ltb, if◌then◌else◌}

-- `negsuc n` is -(n + 1).
pub data ℤ : Type 0 where
  pos : ℕ → ℤ
  negsuc : ℕ → ℤ

-- Of a natural number, what an int64 keeps.
abbrev pub int64 : ℕ → ℤ
int64 n = let low = n % 2 ^ 64 in if ltb low (2 ^ 63) then pos low else negsuc (2 ^ 64 - 1 - low)

pub int64_small : (n : ℕ) → n < 9223372036854775808 → int64 n ≡ pos n
int64_small n h = ground arith

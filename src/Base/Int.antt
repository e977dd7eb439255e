-- ===== src/Base/Int.antt =====
-- Integers, for the numbers that requests carry.
use Prim.Native.Nat.{ℕ}
use mathlib.Core.Bool.{Bool, false}
use link_nest.Base.Tests.{◌==◌}

-- `negsuc n` is -(n + 1).
pub data ℤ : Type 0 where
  pos : ℕ → ℤ
  negsuc : ℕ → ℤ

-- The integer is that natural number.
abbrev pub is_nat : ℤ → ℕ → Bool
is_nat (pos n) k = k == n
is_nat (negsuc _) k = false

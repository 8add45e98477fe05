-- ===== src/Prelude/Int.antt =====
-- The integers that the program subtracts to, over the native numbers.
use Prim.Native.Nat.{ℕ, zero, suc, ◌-◌, ◌/◌}
use agentic_controller.Prelude.Tests.{leb, if◌then◌else◌}

-- `negsuc n` is -(n + 1).
pub data ℤ : Type 0 where
  pos : ℕ → ℤ
  negsuc : ℕ → ℤ

abbrev pub neg : ℕ → ℤ
neg zero = pos 0
neg (suc n) = negsuc n

-- (a - b) / d as Go divides, towards 0
abbrev pub sub_div : ℕ → ℕ → ℕ → ℤ
sub_div a b d = if leb b a then pos ((a - b) / d) else neg ((b - a) / d)

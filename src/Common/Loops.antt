-- ===== src/Common/Loops.antt =====
-- Decimal powers, which bound the rounds of a division loop.
use Prim.Native.Nat.{ℕ, zero, suc, ◌/◌, ◌^◌, ◌<◌}
use native.Mathlib.Nat.{pow-suc}
use native.Mathlib.Omega.{arith}

-- A number below ten to the `k + 1` loses a digit by a division by ten.
pub div-lt-pow : (k n : ℕ) → n < 10 ^ suc k → n / 10 < 10 ^ k
div-lt-pow k n h = omega (arith, pow-suc 10 k)

-- Only zero is below ten to the zero.
pub exponent_pos : (k n : ℕ) → n < 10 ^ k → 0 < n → 0 < k
exponent_pos zero n h p = absurd (omega arith)
exponent_pos (suc k) n h p = omega arith

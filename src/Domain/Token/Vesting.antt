-- ===== src/Domain/Token/Vesting.antt =====
-- src/domain.rs: how much of an allocation can be claimed at a block. Amounts are `u128`, blocks `u64`.
use allfeat_explorer.Common.{
  ℕ, ◌-◌, ◌*◌, ◌/◌, ◌≤◌, ◌<◌, arith, if◌then◌else◌, leb, ◌==◌, ◌||◌, min, ◌^◌,
}
use native.Mathlib.Nat.{le_trans, div-le_of_le-mul, le-div_iff_mul-le, div-mul-le_self}

abbrev pub u128_max : ℕ
u128_max = 2 ^ 128 - 1

-- `saturating_sub` is `-` on the natural numbers.
unfoldable pub saturating_mul : ℕ → ℕ → ℕ
saturating_mul a b = min (a * b) u128_max

unfoldable pub claimable_amount : ℕ → ℕ → ℕ → ℕ → ℕ → ℕ
unfolding saturating_mul
claimable_amount head_block start_block vested_total released vesting_duration =
    let elapsed = head_block - start_block in
    if leb head_block start_block
    then 0
    else if vesting_duration == 0 || leb vesting_duration elapsed
    then vested_total - released
    else saturating_mul vested_total elapsed / vesting_duration - released

min-le : (v e : ℕ) → min (v * e) u128_max ≤ v * e
min-le v e = omega arith

times-le : (v e d : ℕ) → e < d → v * e ≤ d * v
times-le v e d h = grind arith

div_mono : (a b d : ℕ) → 0 < d → a ≤ b → a / d ≤ b / d
div_mono a b d p h = (le-div_iff_mul-le p).1 (le_trans (div-mul-le_self a d) h)

mul_mono : (v a b : ℕ) → a ≤ b → v * a ≤ v * b
mul_mono v a b h = grind arith

linear_mono : (v a b d : ℕ) → 0 < d → a ≤ b → min (v * a) u128_max / d ≤ min (v * b) u128_max / d
linear_mono v a b d p h = div_mono _ _ d p (omega (arith, mul_mono v a b h))

linear-le : (v e d : ℕ) → e < d → min (v * e) u128_max / d ≤ v
linear-le v e d h = div-le_of_le-mul d (le_trans (min-le v e) (times-le v e d h))

-- What can be claimed never exceeds what is vested in all and not yet released.
pub claimable_amount-le :
    (head start vested released duration : ℕ)
    → claimable_amount head start vested released duration ≤ vested - released
unfolding claimable_amount
claimable_amount-le head start vested released duration =
    ground (arith, linear-le vested (head - start) duration)

-- Without a release in between, the amount never falls as the chain grows.
pub claimable_amount_mono :
    (head later start vested released duration : ℕ)
    → head ≤ later
    → claimable_amount head start vested released duration
      ≤ claimable_amount later start vested released duration
unfolding claimable_amount
claimable_amount_mono head later start vested released duration h = ground (
  arith,
  linear-le vested (head - start) duration,
  linear_mono vested (head - start) (later - start) duration,
)

-- ===== src/Common/Integers.antt =====
-- Signed integers over native naturals, and the casts of Rust's `as` between widths.
use Prim.Native.Nat.{ℕ, zero, suc, ◌-◌, ◌%◌, ◌<◌, ◌^◌}
use mathlib.Core.Path.{◌≡◌, refl}
use mathlib.Core.Bool.{Bool, true, false, ◌&&◌, ◌||◌}
use native.Mathlib.Omega.{arith}
use allfeat_explorer.Common.Tests.{◌==◌, ltb, leb, if◌then◌else◌}

pub data ℤ : Type 0 where
  pos negsuc : ℕ → ℤ

-- `n as i64` for a `u64`, and `n as i32` for a `u32`, in two's complement.
unfoldable pub as_i64 : ℕ → ℤ
as_i64 n = if ltb n (2 ^ 63) then pos n else negsuc (2 ^ 64 - 1 - n)

unfoldable pub as_i32 : ℕ → ℤ
as_i32 n = if ltb n (2 ^ 31) then pos n else negsuc (2 ^ 32 - 1 - n)

-- `n as i128` for a `u128`, and `-x` on `i128`, where the least value stays as it is.
unfoldable pub as_i128 : ℕ → ℤ
as_i128 n = if ltb n (2 ^ 127) then pos n else negsuc (2 ^ 128 - 1 - n)

unfoldable pub neg_i128 : ℤ → ℤ
neg_i128 (pos zero) = pos zero
neg_i128 (pos (suc n)) = negsuc n
neg_i128 (negsuc n) = if ltb (suc n) (2 ^ 127) then pos (suc n) else negsuc n

unfoldable pub leb_int : ℤ → ℤ → Bool
leb_int (pos a) (pos b) = leb a b
leb_int (pos a) (negsuc b) = false
leb_int (negsuc a) (pos b) = true
leb_int (negsuc a) (negsuc b) = leb b a

unfoldable pub lt_int : ℤ → ℤ → Bool
lt_int (pos a) (pos b) = ltb a b
lt_int (pos a) (negsuc b) = false
lt_int (negsuc a) (pos b) = true
lt_int (negsuc a) (negsuc b) = ltb b a

unfoldable pub eq_int : ℤ → ℤ → Bool
eq_int (pos a) (pos b) = a == b
eq_int (pos a) (negsuc b) = false
eq_int (negsuc a) (pos b) = false
eq_int (negsuc a) (negsuc b) = a == b

-- `x.max(0) as u64`
unfoldable pub at_least_zero : ℤ → ℕ
at_least_zero (pos n) = n
at_least_zero (negsuc n) = 0

pub as_i64-pos : (n : ℕ) → n < 2 ^ 63 → as_i64 n ≡ pos n
unfolding as_i64
as_i64-pos n h = ground arith

pub as_i32-pos : (n : ℕ) → n < 2 ^ 31 → as_i32 n ≡ pos n
unfolding as_i32
as_i32-pos n h = ground arith

pub as_i128-pos : (n : ℕ) → n < 2 ^ 127 → as_i128 n ≡ pos n
unfolding as_i128
as_i128-pos n h = ground arith

negate_twice : (n : ℕ) → n < 2 ^ 127 → neg_i128 (neg_i128 (pos n)) ≡ pos n
unfolding neg_i128
negate_twice zero h = refl
negate_twice (suc n) h = ground arith

pub neg_i128-involutive : (n : ℕ) → n < 2 ^ 127 → neg_i128 (neg_i128 (as_i128 n)) ≡ as_i128 n
neg_i128-involutive n h = rw (as_i128-pos n h) (negate_twice n h)

-- `n as u32` for an `i64`.
unfoldable pub as_u32 : ℤ → ℕ
as_u32 (pos n) = n % 2 ^ 32
as_u32 (negsuc n) = 2 ^ 32 - 1 - n % 2 ^ 32

-- SQL's `(a, b) < (c, d)` on rows of two columns.
unfoldable pub lt_row : ℤ → ℤ → ℤ → ℤ → Bool
lt_row a b c d = lt_int a c || (eq_int a c && lt_int b d)

-- A column that equals a number is read as that number.
pub eq_int-key : (z : ℤ) (n : ℕ) → eq_int z (pos n) ≡ true → at_least_zero z ≡ n
unfolding eq_int at_least_zero
eq_int-key (pos m) n h = ground arith
eq_int-key (negsuc m) n h = cc

pub eq_int_self : (z : ℤ) → z ≡ pos (at_least_zero z) → eq_int z (pos (at_least_zero z)) ≡ true
unfolding eq_int at_least_zero
eq_int_self (pos m) h = ground arith
eq_int_self (negsuc m) h = cc

-- ===== src/Common/Int.antt =====
-- Signed integers: a Go `int64` or `time.Duration`, of which only the order and 0 are looked at,
-- and the conversion of a `uint64`.
use Prim.Native.Nat.{ℕ, ◌-◌, ◌^◌}
use mathlib.Core.Bool.{Bool, true, false}
use mathlib.Core.Path.{◌≡◌}
use native.Mathlib.Omega.{arith}
use btrsync.Common.Tests.{ltb, ◌==◌, if◌then◌else◌}

-- `negsuc n` is -(n + 1).
pub data ℤ : Type 0 where
  pos negsuc : ℕ → ℤ

-- `a < b`
unfoldable pub lt_int : ℤ → ℤ → Bool
lt_int (pos a) (pos b) = ltb a b
lt_int (pos a) (negsuc b) = false
lt_int (negsuc a) (pos b) = true
lt_int (negsuc a) (negsuc b) = ltb b a

-- `a == 0`
unfoldable pub is_zero_int : ℤ → Bool
is_zero_int (pos a) = a == 0
is_zero_int (negsuc a) = false

-- `int64(n)` of a `uint64`
unfoldable pub int64 : ℕ → ℤ
int64 n = if ltb n (2 ^ 63) then pos n else negsuc (2 ^ 64 - 1 - n)

-- What is above a number is above one that is not greater.
pub lt_int-below : (a b c : ℤ) → lt_int b a ≡ false → lt_int b c ≡ true → lt_int a c ≡ true
unfolding lt_int
lt_int-below a b c le l = ground arith

pub lt_int_irrefl : (a : ℤ) → lt_int a a ≡ false
unfolding lt_int
lt_int_irrefl a = ground arith

-- ===== src/Common/Bits.antt =====
-- `bit_xor` at variables: its lowest digit, its group laws, and how it meets shifts by whole bits.
use Prim.Native.Nat.{digits, differ, bit_xor, bit_xor-bitwise}
use native.Mathlib.Nat.{le_refl, pow-suc}
use btrsync.Common.{ℕ, zero, suc, ◌+◌, ◌*◌, ◌/◌, ◌%◌, ◌^◌, ◌≤◌, ◌<◌, ◌≡◌, refl, ap, arith}

-- The recursion on digits that the native operation stands for, with its fuel dropped.
differ-digits_fuel :
    (n m a b : ℕ) → a ≤ n → a ≤ m → digits (λ y. y) differ n a b ≡ digits (λ y. y) differ m a b
differ-digits_fuel zero zero a b p q = refl
differ-digits_fuel zero (suc m) zero b p q = refl
differ-digits_fuel zero (suc m) (suc a) b p q = absurd (omega arith)
differ-digits_fuel (suc n) zero zero b p q = refl
differ-digits_fuel (suc n) zero (suc a) b p q = absurd (omega arith)
differ-digits_fuel (suc n) (suc m) zero b p q = refl
differ-digits_fuel (suc n) (suc m) (suc a) b p q =
    rw (differ-digits_fuel n m (suc a / 2) (b / 2) (omega arith) (omega arith))

pub zero-bit_xor : (b : ℕ) → bit_xor 0 b ≡ b
zero-bit_xor b = bit_xor-bitwise 0 b

differ_parity : (x y : ℕ) → x < 2 → y < 2 → differ x y ≡ (x + y) % 2
differ_parity zero zero h k = refl
differ_parity zero (suc zero) h k = refl
differ_parity zero (suc (suc y)) h k = absurd (omega arith)
differ_parity (suc zero) zero h k = refl
differ_parity (suc zero) (suc zero) h k = refl
differ_parity (suc zero) (suc (suc y)) h k = absurd (omega arith)
differ_parity (suc (suc x)) y h k = absurd (omega arith)

bitwise-suc :
    (a b : ℕ) → bit_xor (suc a) b ≡ bit_xor (suc a / 2) (b / 2) * 2 + differ (suc a % 2) (b % 2)
bitwise-suc a b =
    simp bit_xor-bitwise (
      omega (arith, differ-digits_fuel a (suc a / 2) (suc a / 2) (b / 2) (omega arith) (le_refl _)))

-- The lowest digit, and the rest.
pub bit_xor_step : (a b : ℕ) → bit_xor a b ≡ bit_xor (a / 2) (b / 2) * 2 + (a + b) % 2
bit_xor_step zero b = omega (arith, zero-bit_xor b, zero-bit_xor (b / 2))
bit_xor_step (suc a) b =
    omega (arith, bitwise-suc a b, differ_parity (suc a % 2) (b % 2) (omega arith) (omega arith))

pub bit_xor_half : (a b : ℕ) → bit_xor a b / 2 ≡ bit_xor (a / 2) (b / 2)
bit_xor_half a b = omega (arith, bit_xor_step a b)

pub bit_xor_parity : (a b : ℕ) → bit_xor a b % 2 ≡ (a + b) % 2
bit_xor_parity a b = omega (arith, bit_xor_step a b)

bit_xor_comm_fuel : (n a b : ℕ) → a + b ≤ n → bit_xor a b ≡ bit_xor b a
bit_xor_comm_fuel n zero zero h = refl
bit_xor_comm_fuel zero (suc a) b h = absurd (omega arith)
bit_xor_comm_fuel zero zero (suc b) h = absurd (omega arith)
bit_xor_comm_fuel (suc n) a b h =
    omega
      (arith, bit_xor_step a b, bit_xor_step b a, bit_xor_comm_fuel n (a / 2) (b / 2) (omega arith))

pub bit_xor_comm : (a b : ℕ) → bit_xor a b ≡ bit_xor b a
bit_xor_comm a b = bit_xor_comm_fuel (a + b) a b (le_refl _)

bit_xor_assoc_fuel :
    (n a b c : ℕ) → a + b + c ≤ n → bit_xor (bit_xor a b) c ≡ bit_xor a (bit_xor b c)
bit_xor_assoc_fuel n zero b c h = simp zero-bit_xor
bit_xor_assoc_fuel zero (suc a) b c h = absurd (omega arith)
bit_xor_assoc_fuel (suc n) (suc a) b c h =
    rw (bit_xor_step (bit_xor (suc a) b) c, bit_xor_step (suc a) (bit_xor b c))
      (rw (bit_xor_half (suc a) b, bit_xor_half b c)
        (omega (
          arith,
          bit_xor_parity (suc a) b,
          bit_xor_parity b c,
          bit_xor_assoc_fuel n (suc a / 2) (b / 2) (c / 2) (omega arith),
        )))

pub bit_xor_assoc : (a b c : ℕ) → bit_xor (bit_xor a b) c ≡ bit_xor a (bit_xor b c)
bit_xor_assoc a b c = bit_xor_assoc_fuel (a + b + c) a b c (le_refl _)

bit_xor_self_fuel : (n a : ℕ) → a ≤ n → bit_xor a a ≡ 0
bit_xor_self_fuel n zero h = refl
bit_xor_self_fuel zero (suc a) h = absurd (omega arith)
bit_xor_self_fuel (suc n) (suc a) h =
    omega (arith, bit_xor_step (suc a) (suc a), bit_xor_self_fuel n (suc a / 2) (omega arith))

pub bit_xor_self : (a : ℕ) → bit_xor a a ≡ 0
bit_xor_self a = bit_xor_self_fuel a a (le_refl a)

-- Widths: `k` bits stay `k` bits.
pub bit_xor-lt : (k a b : ℕ) → a < 2 ^ k → b < 2 ^ k → bit_xor a b < 2 ^ k
bit_xor-lt zero zero zero h l = omega arith
bit_xor-lt zero (suc a) b h l = absurd (omega arith)
bit_xor-lt zero zero (suc b) h l = absurd (omega arith)
bit_xor-lt (suc k) a b h l = omega (
  arith,
  pow-suc 2 k,
  bit_xor_step a b,
  bit_xor-lt k (a / 2) (b / 2) (omega (arith, pow-suc 2 k)) (omega (arith, pow-suc 2 k)),
)

-- Digits that do not overlap add up.
pub bit_xor_disjoint : (k r q : ℕ) → r < 2 ^ k → bit_xor r (q * 2 ^ k) ≡ r + q * 2 ^ k
bit_xor_disjoint zero zero q h = omega (arith, zero-bit_xor (q * 2 ^ 0))
bit_xor_disjoint zero (suc r) q h = absurd (omega arith)
bit_xor_disjoint (suc k) r q h =
    let double : q * 2 ^ suc k ≡ q * 2 ^ k * 2 =
      omega (arith, ap (λ (t : ℕ). q * t) (pow-suc 2 k)) in
    let half : q * 2 ^ k * 2 / 2 ≡ q * 2 ^ k = omega arith in
    rw (double, bit_xor_step, half)
      (omega (arith, bit_xor_disjoint k (r / 2) q (omega (arith, pow-suc 2 k))))

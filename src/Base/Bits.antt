-- ===== src/Base/Bits.antt =====
-- Bit operations at variables: `|` of fields that do not meet is their sum.
use Prim.Native.Nat.{
  ℕ, zero, suc, ◌+◌, ◌*◌, ◌/◌, ◌%◌, ◌^◌, ◌≤◌, ◌<◌, max, bit_or, bit_or-bitwise, digits,
}
use mathlib.Core.Path.{◌≡◌, refl, ap}
use native.Mathlib.Nat.{pow-suc, le_refl}
use native.Mathlib.Omega.{arith}

-- The fuel of the digit recursion does not matter once it covers the number.
or_fuel : (n m a b : ℕ) → a ≤ n → a ≤ m → digits (λ y. y) max n a b ≡ digits (λ y. y) max m a b
or_fuel zero zero a b p q = refl
or_fuel zero (suc m) zero b p q = refl
or_fuel zero (suc m) (suc a) b p q = absurd (omega arith)
or_fuel (suc n) zero zero b p q = refl
or_fuel (suc n) zero (suc a) b p q = absurd (omega arith)
or_fuel (suc n) (suc m) zero b p q = refl
or_fuel (suc n) (suc m) (suc a) b p q =
    rw (or_fuel n m (suc a / 2) (b / 2) (omega arith) (omega arith))

pub bit_or-digit : (a b : ℕ) → bit_or a b ≡ bit_or (a / 2) (b / 2) * 2 + max (a % 2) (b % 2)
bit_or-digit zero b = simp bit_or-bitwise (omega arith)
bit_or-digit (suc a) b =
    simp bit_or-bitwise
      (omega (arith, or_fuel a (suc a / 2) (suc a / 2) (b / 2) (omega arith) (le_refl _)))

pub bit_or-zero_below : (n a : ℕ) → a ≤ n → bit_or a 0 ≡ a
bit_or-zero_below n zero h = refl
bit_or-zero_below zero (suc a) h = absurd (omega arith)
bit_or-zero_below (suc n) (suc a) h =
    omega (arith, bit_or-digit (suc a) 0, bit_or-zero_below n (suc a / 2) (omega arith))

zero-bit_or : (b : ℕ) → bit_or 0 b ≡ b
zero-bit_or b = bit_or-bitwise 0 b

-- `lo | (hi << k)`, where `lo` has at most `k` bits.
pub bit_or_low_high : (k lo hi : ℕ) → lo < 2 ^ k → bit_or lo (hi * 2 ^ k) ≡ lo + hi * 2 ^ k
bit_or_low_high zero lo hi h =
    let e : lo ≡ 0 = omega arith in rw e (omega (arith, zero-bit_or (hi * 1)))
bit_or_low_high (suc k) lo hi h = ground (
  arith,
  bit_or-digit lo (hi * 2 ^ suc k),
  double,
  ap (λ (t : ℕ). t / 2) double,
  ap (λ (t : ℕ). t % 2) double,
  bit_or_low_high k (lo / 2) hi,
  pow-suc 2 k,
)
  where
    double : hi * 2 ^ suc k ≡ hi * 2 ^ k * 2
    double = omega (arith, ap (λ (t : ℕ). hi * t) (pow-suc 2 k))

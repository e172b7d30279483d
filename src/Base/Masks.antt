-- ===== src/Base/Masks.antt =====
-- Bit operations on a word and a field of it: the operation acts on the parts apart.
use Prim.Native.Nat.{
  ℕ, zero, suc, ◌+◌, ◌-◌, ◌*◌, ◌/◌, ◌%◌, ◌^◌, ◌≤◌, ◌<◌, min, bit_or, bit_and, bit_and-bitwise,
  digits,
}
use mathlib.Core.Path.{◌≡◌, refl, ap, ◌∙◌}
use native.Mathlib.Nat.{pow-suc, le_refl}
use native.Mathlib.Omega.{arith}
use rffe_uc_fw.Base.Bits.{bit_or-digit, bit_or-zero_below}

-- The fuel of the digit recursion does not matter once it covers the number.
and_fuel :
    (n m a b : ℕ) → a ≤ n → a ≤ m → digits (λ y. zero) min n a b ≡ digits (λ y. zero) min m a b
and_fuel zero zero a b p q = refl
and_fuel zero (suc m) zero b p q = refl
and_fuel zero (suc m) (suc a) b p q = absurd (omega arith)
and_fuel (suc n) zero zero b p q = refl
and_fuel (suc n) zero (suc a) b p q = absurd (omega arith)
and_fuel (suc n) (suc m) zero b p q = refl
and_fuel (suc n) (suc m) (suc a) b p q =
    rw (and_fuel n m (suc a / 2) (b / 2) (omega arith) (omega arith))

bit_and-digit : (a b : ℕ) → bit_and a b ≡ bit_and (a / 2) (b / 2) * 2 + min (a % 2) (b % 2)
bit_and-digit zero b = simp bit_and-bitwise (omega arith)
bit_and-digit (suc a) b =
    simp bit_and-bitwise
      (omega (arith, and_fuel a (suc a / 2) (suc a / 2) (b / 2) (omega arith) (le_refl _)))

pow-positive : (k : ℕ) → 1 ≤ 2 ^ k
pow-positive zero = omega arith
pow-positive (suc k) = omega (arith, pow-suc 2 k, pow-positive k)

pow-double : (c k : ℕ) → c * 2 ^ suc k ≡ c * 2 ^ k * 2
pow-double c k = omega (arith, ap (λ (t : ℕ). c * t) (pow-suc 2 k))

-- Two words in two parts each, of which the lower has `k` bits, the second's lower part all ones.
pub bit_and-parts :
    (k h l m : ℕ)
    → l < 2 ^ k
    → bit_and (h * 2 ^ k + l) (m * 2 ^ k + (2 ^ k - 1)) ≡ bit_and h m * 2 ^ k + l
bit_and-parts zero h l m p =
    let a : h * 1 + l ≡ h = omega arith in
    let b : m * 1 + (1 - 1) ≡ m = omega arith in rw (a, b) (omega arith)
bit_and-parts (suc k) h l m p =
    let two : h * 2 ^ suc k ≡ h * 2 ^ k * 2 = pow-double h k in
    let two' : m * 2 ^ suc k ≡ m * 2 ^ k * 2 = pow-double m k in
    let some : 1 ≤ 2 ^ k = pow-positive k in
    let a : (h * 2 ^ suc k + l) / 2 ≡ h * 2 ^ k + l / 2 = omega (arith, two) in
    let a' : (h * 2 ^ suc k + l) % 2 ≡ l % 2 = omega (arith, two) in
    let b : (m * 2 ^ suc k + (2 ^ suc k - 1)) / 2 ≡ m * 2 ^ k + (2 ^ k - 1) =
      omega (arith, two', pow-suc 2 k) in
    let b' : (m * 2 ^ suc k + (2 ^ suc k - 1)) % 2 ≡ 1 = omega (arith, two', pow-suc 2 k) in
    bit_and-digit (h * 2 ^ suc k + l) (m * 2 ^ suc k + (2 ^ suc k - 1))
    ∙ rw (a, a', b, b', bit_and-parts k h (l / 2) m (omega (arith, pow-suc 2 k)))
        (ground (arith, pow-double (bit_and h m) k))

-- The same for `|` with a word whose lower part is 0.
pub bit_or-parts :
    (k h l m : ℕ) → l < 2 ^ k → bit_or (h * 2 ^ k + l) (m * 2 ^ k) ≡ bit_or h m * 2 ^ k + l
bit_or-parts zero h l m p =
    let a : h * 1 + l ≡ h = omega arith in
    let b : m * 1 ≡ m = omega arith in rw (a, b) (omega arith)
bit_or-parts (suc k) h l m p =
    let two : h * 2 ^ suc k ≡ h * 2 ^ k * 2 = pow-double h k in
    let two' : m * 2 ^ suc k ≡ m * 2 ^ k * 2 = pow-double m k in
    let a : (h * 2 ^ suc k + l) / 2 ≡ h * 2 ^ k + l / 2 = omega (arith, two) in
    let a' : (h * 2 ^ suc k + l) % 2 ≡ l % 2 = omega (arith, two) in
    let b : (m * 2 ^ suc k) / 2 ≡ m * 2 ^ k = omega (arith, two') in
    let b' : (m * 2 ^ suc k) % 2 ≡ 0 = omega (arith, two') in
    bit_or-digit (h * 2 ^ suc k + l) (m * 2 ^ suc k)
    ∙ rw (a, a', b, b', bit_or-parts k h (l / 2) m (omega (arith, pow-suc 2 k)))
        (ground (arith, pow-double (bit_or h m) k))

-- A word under a mask of ones.
bit_and-ones : (k l : ℕ) → l < 2 ^ k → bit_and l (2 ^ k - 1) ≡ l
bit_and-ones k l p =
    let a : 0 * 2 ^ k + l ≡ l = omega arith in
    let b : 0 * 2 ^ k + (2 ^ k - 1) ≡ 2 ^ k - 1 = omega arith in
    let e = bit_and-parts k 0 l 0 p in let e' = rw (a, b) at e in e' ∙ omega arith

-- The field is cleared: the two bits at `k` of a word of `n + 2 + k` bits.
cleared_lem : (n hi f : ℕ) → hi < 2 ^ n → f < 4 → bit_and (hi * 4 + f) ((2 ^ n - 1) * 4) ≡ hi * 4
cleared_lem n hi f p q =
    let a : (hi * 4 + f) / 2 ≡ hi * 2 + f / 2 = omega arith in
    let a' : (hi * 2 + f / 2) / 2 ≡ hi = omega arith in
    let b : (2 ^ n - 1) * 4 / 2 ≡ (2 ^ n - 1) * 2 = omega arith in
    let b' : (2 ^ n - 1) * 2 / 2 ≡ 2 ^ n - 1 = omega arith in
    let d = rw (a, b) at (bit_and-digit (hi * 4 + f) ((2 ^ n - 1) * 4)) in
    let d' =
      rw (a', b', bit_and-ones n hi p) at (bit_and-digit (hi * 2 + f / 2) ((2 ^ n - 1) * 2)) in
    ground (arith, d, d')

inserted_lem : (hi v : ℕ) → v < 4 → bit_or (hi * 4) v ≡ hi * 4 + v
inserted_lem hi v q =
    let a : hi * 4 / 2 ≡ hi * 2 = omega arith in
    let a' : hi * 2 / 2 ≡ hi = omega arith in
    let z : v / 2 / 2 ≡ 0 = omega arith in
    let d = rw a at (bit_or-digit (hi * 4) v) in
    let d' = rw (a', z, bit_or-zero_below hi hi (le_refl _)) at (bit_or-digit (hi * 2) (v / 2)) in
    ground (arith, d, d')

-- `x & ~(3 << k) | v << k`, where the word has `n` bits above the field and `k` bits below it.
pub set_field_lem :
    (n k hi f l v : ℕ)
    → hi < 2 ^ n
    → f < 4
    → l < 2 ^ k
    → v < 4
    → bit_or
        (bit_and ((hi * 4 + f) * 2 ^ k + l) ((2 ^ n - 1) * 4 * 2 ^ k + (2 ^ k - 1)))
        (v * 2 ^ k)
      ≡ (hi * 4 + v) * 2 ^ k + l
set_field_lem n k hi f l v p q r u =
    rw (bit_and-parts k (hi * 4 + f) l ((2 ^ n - 1) * 4) r, cleared_lem n hi f p q)
      (bit_or-parts k (hi * 4) l v r ∙ ap (λ (t : ℕ). t * 2 ^ k + l) (inserted_lem hi v u))

bit_and-zero_below : (n x : ℕ) → x ≤ n → bit_and x 0 ≡ 0
bit_and-zero_below n zero h = refl
bit_and-zero_below zero (suc x) h = absurd (omega arith)
bit_and-zero_below (suc n) (suc x) h =
    omega (arith, bit_and-digit (suc x) 0, bit_and-zero_below n (suc x / 2) (omega arith))

-- The lowest bits of a word.
pub bit_and-low : (h l : ℕ) → l < 256 → bit_and (h * 256 + l) 0xFF ≡ l
bit_and-low h l p =
    let e = bit_and-parts 8 h l 0 p in
    let none = bit_and-zero_below h h (le_refl h) in omega (arith, e, none)

-- The low byte.
pub bit_and-byte : (x : ℕ) → bit_and x 0xFF ≡ x % 256
bit_and-byte x =
    ap (λ n. bit_and n 0xFF) (omega arith) ∙ bit_and-low (x / 256) (x % 256) (omega arith)

-- A bit that was set is found set.
pub set_bit_lem : (k x : ℕ) → bit_and (bit_or x (2 ^ k)) (2 ^ k) ≡ 2 ^ k
set_bit_lem zero x =
    let or_digit = bit_or-digit x 1 in
    let and_digit = bit_and-digit (bit_or x 1) 1 in
    let none : bit_and (bit_or x 1 / 2) (1 / 2) ≡ 0 =
      bit_and-zero_below (bit_or x 1 / 2) (bit_or x 1 / 2) (le_refl _) in
    ground (arith, or_digit, and_digit, none)
set_bit_lem (suc k) x =
    let two : 2 ^ suc k ≡ 2 ^ k * 2 = omega (arith, pow-suc 2 k) in
    let low : 2 ^ suc k % 2 ≡ 0 = omega (arith, two) in
    let half : 2 ^ suc k / 2 ≡ 2 ^ k = omega (arith, two) in
    let or_digit = rw (half, low) at (bit_or-digit x (2 ^ suc k)) in
    let or_half : bit_or x (2 ^ suc k) / 2 ≡ bit_or (x / 2) (2 ^ k) = ground (arith, or_digit) in
    let and_digit =
      rw (or_half, half, low, set_bit_lem k (x / 2)) at
        (bit_and-digit (bit_or x (2 ^ suc k)) (2 ^ suc k)) in
    ground (arith, and_digit, two)

-- ===== src/Base/Int.antt =====
-- The `int` of the C code as an integer over the native numbers.
use Prim.Native.Nat.{ℕ, suc, ◌+◌, ◌-◌, ◌≤◌, ◌%◌, ◌^◌}
use mathlib.Core.Bool.{Bool, true, false}
use rffe_uc_fw.Base.Tests.{leb, if◌then◌else◌}

-- `negsuc n` is -(n + 1).
pub data ℤ : Type 0 where
  pos : ℕ → ℤ
  negsuc : ℕ → ℤ

abbrev pub pos_part : ℤ → ℕ
pos_part (pos n) = n
pos_part (negsuc n) = 0

abbrev pub neg_part : ℤ → ℕ
neg_part (pos n) = 0
neg_part (negsuc n) = suc n

-- a - b, as an integer.
abbrev pub sub_ℕ : ℕ → ℕ → ℤ
sub_ℕ a b = if leb b a then pos (a - b) else negsuc (b - a - 1)

infixl 65 ◌+ℤ◌
infix 50 ◌≤ℤ◌
unfoldable pub ◌+ℤ◌ : ℤ → ℤ → ℤ
a +ℤ b = sub_ℕ (pos_part a + pos_part b) (neg_part a + neg_part b)

abbrev pub ◌≤ℤ◌ : ℤ → ℤ → Type 0
a ≤ℤ b = pos_part a + neg_part b ≤ pos_part b + neg_part a

abbrev pub is_neg : ℤ → Bool
is_neg (pos n) = false
is_neg (negsuc n) = true

-- The int that is left of an integer in 32 bits, by two's complement.
abbrev pub int32 : ℤ → ℤ
int32 (pos n) = let m = n % 2 ^ 32 in if leb (2 ^ 31) m then negsuc (2 ^ 32 - 1 - m) else pos m
int32 (negsuc n) = let m = n % 2 ^ 32 in if leb (2 ^ 31) m then pos (2 ^ 32 - 1 - m) else negsuc m

-- The sum of two ints, which wraps around, as it does on the target.
infixl 65 ◌+int◌
unfoldable pub ◌+int◌ : ℤ → ℤ → ℤ
unfolding ◌+ℤ◌
a +int b = int32 (a +ℤ b)

-- From INT_MIN to INT_MAX.
abbrev pub IsInt : ℤ → Type 0
IsInt a = (negsuc (2 ^ 31 - 1) ≤ℤ a) × (a ≤ℤ pos (2 ^ 31 - 1))

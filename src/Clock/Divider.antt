-- ===== src/Clock/Divider.antt =====
-- lpc17_clock.c: the field of a peripheral in the registers PCLKSEL0 and PCLKSEL1.
use rffe_uc_fw.Base.{
  ℕ, ◌+◌, ◌-◌, ◌*◌, ◌/◌, ◌%◌, ◌^◌, ◌<◌, ◌≡◌, refl, ap, ◌∙◌, u32, ◌<<◌, arith, bit_and, bit_or,
}
use rffe_uc_fw.Base.Masks.{set_field_lem}
use rffe_uc_fw.Clock.{
  Pclk, PclkDiv, Sel, sel0, sel1, ClockSel, clk_div, register_of, pos_of, set_field, set_pclk_at,
  lpc17_set_pclk,
}

-- What the theorem on fields asks of a word and a position.
parts_at :
    (p : Pclk) (x : ℕ)
    → x < 2 ^ 32
    → let k = pos_of p in
      (x ≡ (x / 2 ^ (k + 2) * 4 + x / 2 ^ k % 4) * 2 ^ k + x % 2 ^ k)
      × (x / 2 ^ (k + 2) < 2 ^ (30 - k))
      × (x % 2 ^ k < 2 ^ k)
      × (2 ^ 32 - 1 - (3 << k) ≡ (2 ^ (30 - k) - 1) * 4 * 2 ^ k + (2 ^ k - 1))
parts_at p x h = ground arith

-- A word put together of parts is taken apart.
read_at :
    (p : Pclk) (y hi v l : ℕ)
    → let k = pos_of p in
      y ≡ (hi * 4 + v) * 2 ^ k + l
      → l < 2 ^ k
      → v < 4
      → (y / 2 ^ k % 4 ≡ v) × (y / 2 ^ (k + 2) ≡ hi) × (y % 2 ^ k ≡ l)
read_at p y hi v l e r u = ground arith

clk_div-below : (d : PclkDiv) → clk_div d < 4
unfolding clk_div
clk_div-below d = ground arith

shifted_at : (p : Pclk) (v : ℕ) → v < 4 → u32 (v << pos_of p) ≡ v * 2 ^ pos_of p
shifted_at p v u = ground arith

set_field-parts :
    (p : Pclk) (v x : ℕ)
    → v < 4
    → x < 2 ^ 32
    → let k = pos_of p in set_field k v x ≡ (x / 2 ^ (k + 2) * 4 + v) * 2 ^ k + x % 2 ^ k
unfolding set_field
set_field-parts p v x u h =
    let (split, high, low, mask) = parts_at p x h in
    let k = pos_of p in
    let hi = x / 2 ^ (k + 2) in
    let f = x / 2 ^ k % 4 in
    let l = x % 2 ^ k in
    let ones = (2 ^ (30 - k) - 1) * 4 * 2 ^ k + (2 ^ k - 1) in
    let shifted : u32 (v << k) ≡ v * 2 ^ k = shifted_at p v u in
    ap (λ t. bit_or (bit_and t (2 ^ 32 - 1 - (3 << k))) (u32 (v << k))) split
    ∙ ap (λ t. bit_or (bit_and ((hi * 4 + f) * 2 ^ k + l) t) (u32 (v << k))) mask
    ∙ ap (λ t. bit_or (bit_and ((hi * 4 + f) * 2 ^ k + l) ones) t) shifted
    ∙ set_field_lem (30 - k) k hi f l v high (omega arith) low u

-- The bits at the place, above it and below it, in a 32-bit register after a value of two bits is
-- put there.
pub field_lem :
    (p : Pclk) (v x : ℕ)
    → v < 4
    → x < 2 ^ 32
    → let k = pos_of p in
      let y = set_field k v x in
      (y / 2 ^ k % 4 ≡ v) × (y / 2 ^ (k + 2) ≡ x / 2 ^ (k + 2)) × (y % 2 ^ k ≡ x % 2 ^ k)
field_lem p v x u h =
    read_at p _ (x / 2 ^ (pos_of p + 2)) v (x % 2 ^ pos_of p) (set_field-parts p v x u h)
      (parts_at p x h).2 u

abbrev pub word_of : Sel → ClockSel → ℕ
word_of sel0 s = s.pclksel0
word_of sel1 s = s.pclksel1

abbrev pub other_of : Sel → Sel
other_of sel0 = sel1
other_of sel1 = sel0

word_of-set_pclk_at :
    (r : Sel) (k v : ℕ) (s : ClockSel)
    → (word_of r (set_pclk_at r k v s) ≡ set_field k v (word_of r s))
      × (word_of (other_of r) (set_pclk_at r k v s) ≡ word_of (other_of r) s)
unfolding set_pclk_at
word_of-set_pclk_at sel0 k v s = (refl, refl)
word_of-set_pclk_at sel1 k v s = (refl, refl)

-- In a 32-bit register, `lpc17_set_pclk` stores the code of the divider in the two bits of the
-- peripheral, and leaves the bits above and below them and the other register as they were.
lpc17_set_pclk_lem :
    (p : Pclk) (d : PclkDiv) (s : ClockSel)
    → word_of (register_of p) s < 2 ^ 32
    → let r = register_of p in
      let k = pos_of p in
      let s' = lpc17_set_pclk p d s in
      (word_of r s' / 2 ^ k % 4 ≡ clk_div d)
      × (word_of r s' / 2 ^ (k + 2) ≡ word_of r s / 2 ^ (k + 2))
      × (word_of r s' % 2 ^ k ≡ word_of r s % 2 ^ k)
      × (word_of (other_of r) s' ≡ word_of (other_of r) s)
unfolding lpc17_set_pclk
lpc17_set_pclk_lem p d s h =
    let r = register_of p in
    let x = word_of r s in
    let (own, rest) = word_of-set_pclk_at r (pos_of p) (clk_div d) s in
    let (value, above, below) = field_lem p (clk_div d) x (clk_div-below d) h in
    rw own (value, above, below, rest)

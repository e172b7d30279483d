-- ===== src/Clock/Guards.antt =====
-- lpc17_clock.c: the arguments that lpc17_set_pll0 accepts.
use rffe_uc_fw.Base.{
  ℕ, ◌≡◌, ◌≤◌, ◌⊎◌, inl, inr, refl, ◌||◌, ltb, pos, negsuc, [], arith, Bool-cases,
}
use rffe_uc_fw.Clock.{PllSrc, lpc17_set_pll0}

-- The ranges of the divider and the multiplier of the PLL and of the divider of the CPU clock.
abbrev pub AreInRange : (pll_div pll_mul cpu_div : ℕ) → Type 0
AreInRange d m c = ((1 ≤ d) × (d ≤ 32)) × ((6 ≤ m) × (m ≤ 24170)) × ((1 ≤ c) × (c ≤ 256))

-- `lpc17_set_pll0` returns 0 if its arguments are in range, and else -1 without a write to any
-- register.
lpc17_set_pll0-AreInRange :
    (d m c : ℕ) (src : PllSrc) (con : ℕ)
    → (AreInRange d m c × ((lpc17_set_pll0 d m c src con).0 ≡ pos 0))
      ⊎ ((AreInRange d m c → ⊥) × (lpc17_set_pll0 d m c src con ≡ (negsuc 0, [])))
unfolding lpc17_set_pll0
lpc17_set_pll0-AreInRange d m c src con = elim (Bool-cases (ltb d 1 || ltb 32 d)) [
  | inl bad ↦ rw bad (inr ((λ ok. ground (arith, bad, ok)), refl))
  | inr d_ok ↦ elim (Bool-cases (ltb m 6 || ltb 24170 m)) [
    | inl bad ↦ rw (d_ok, bad) (inr ((λ ok. ground (arith, bad, ok)), refl))
    | inr m_ok ↦ elim (Bool-cases (ltb c 1 || ltb 256 c)) [
      | inl bad ↦ rw (d_ok, m_ok, bad) (inr ((λ ok. ground (arith, bad, ok)), refl))
      | inr c_ok ↦ rw (d_ok, m_ok, c_ok) (inl (ground (arith, d_ok, m_ok, c_ok), refl))
    ]
  ]
]

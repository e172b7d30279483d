-- ===== src/Uart/Baud.antt =====
-- lpc17_uart.c: the divisor that the set-up stores.
use rffe_uc_fw.Base.{
  ℕ, ℤ, ◌≡◌, ◌≤◌, ◌<◌, ◌+◌, ◌*◌, ◌/◌, ◌%◌, ◌^◌, ◌⊎◌, ◌||◌, inl, inr, refl, pos, negsuc, bit_and,
  bit_or, ltb, ◌>>◌, u32, Bool-cases, arith,
}
use native.Mathlib.Nat.{mod-eq_of_lt, div-add-mod', mod-lt}
use rffe_uc_fw.Base.Masks.{bit_and-low, set_bit_lem}
use rffe_uc_fw.Uart.{UartRegs, uart_div, dlab, store_dlm, store_dll, lpc17_uart0_init}

-- The greatest divisor that does not make the rate lower than asked for.
abbrev pub IsDivisor : (baud cpu_clk d : ℕ) → Type 0
IsDivisor baud cpu_clk d = (d * (16 * baud) ≤ cpu_clk) × (cpu_clk < d * (16 * baud) + 16 * baud)

abbrev pub Fits : (baud cpu_clk : ℕ) → Type 0
Fits baud cpu_clk = (1 ≤ uart_div baud cpu_clk) × (uart_div baud cpu_clk ≤ 0xFFFF)

bytes_of_div : (d : ℕ) → d ≤ 0xFFFF → bit_and (d >> 8) 0xFF * 256 + bit_and d 0xFF ≡ d
bytes_of_div d h =
    let high = bit_and-low 0 (d / 256) (omega arith) in
    let low = bit_and-low (d / 256) (d % 256) (omega arith) in
    let high_same : 0 * 256 + d / 256 ≡ d / 256 = omega arith in
    let low_same : d / 256 * 256 + d % 256 ≡ d = omega arith in
    let high' = rw high_same at high in
    let low' = rw low_same at low in rw (high', low') (omega arith)

uart_div-IsDivisor :
    (baud cpu_clk : ℕ)
    → 0 < baud
    → 16 * baud < 2 ^ 32
    → IsDivisor baud cpu_clk (uart_div baud cpu_clk)
uart_div-IsDivisor baud cpu_clk p h =
    let wide : u32 (16 * baud) ≡ 16 * baud = mod-eq_of_lt h in
    let split = div-add-mod' cpu_clk (16 * baud) in
    let rest : cpu_clk % (16 * baud) < 16 * baud = mod-lt _ (omega arith) in
    rw wide (omega (arith, split), omega (arith, split, rest))

-- How the set-up can go: with the divisor stored, or not.
abbrev pub Outcome : (baud cpu_clk : ℕ) → UartRegs → ℤ × UartRegs → Type 0
Outcome baud cpu_clk r (ret, r') =
    ((ret ≡ pos 0)
      × IsDivisor baud cpu_clk (r'.dlm * 256 + r'.dll)
      × ((1 ≤ r'.dlm * 256 + r'.dll) × (r'.dlm * 256 + r'.dll ≤ 0xFFFF))
      × (r'.lcr ≡ 3)
      × (r'.ter ≡ 0x80))
    ⊎ ((ret ≡ negsuc 0)
        × (Fits baud cpu_clk → ⊥)
        × (r'.dlm ≡ r.dlm)
        × (r'.dll ≡ r.dll)
        × (r'.lcr ≡ r.lcr)
        × (r'.ter ≡ r.ter))

-- The set-up of UART0, where 16 times the rate is a uint32_t other than 0. If the divisor, the
-- greatest that does not make the rate lower than asked for, is between 1 and 0xFFFF, the result is
-- 0, the two bytes of the divisor are stored, the frames have eight bits without parity, the access
-- to the divisor is off again, and the transmitter is on. Otherwise the result is -1 and these
-- registers are as they were.
pub init_lem :
    (baud cpu_clk : ℕ) (r : UartRegs)
    → 0 < baud
    → 16 * baud < 2 ^ 32
    → Outcome baud cpu_clk r (lpc17_uart0_init baud cpu_clk r)
unfolding lpc17_uart0_init store_dlm store_dll
init_lem baud cpu_clk r p h =
    let d = uart_div baud cpu_clk in
    let open_divisor : bit_and (bit_or r.lcr dlab) dlab ≡ 0x80 = set_bit_lem 7 r.lcr in
    elim (Bool-cases (ltb d 1 || ltb 0xFFFF d)) [
      | inl bad ↦ rw bad (inr (refl, (λ ok. ground (arith, bad, ok)), refl, refl, refl, refl))
      | inr fine ↦
          let fits : Fits baud cpu_clk = (ground (arith, fine), ground (arith, fine)) in
          let e = bytes_of_div d fits.1 in
          rw (fine, open_divisor, open_divisor, e)
            (inl (refl, uart_div-IsDivisor baud cpu_clk p h, fits, refl, refl))
    ]

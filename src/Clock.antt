-- ===== src/Clock.antt =====
-- bootloader/src/lpc17_clock.c and lpc17_clock.h: the set-up of the PLL, and the divider of the
-- clock of a peripheral. The registers are a record; the positions of their fields are those that
-- LPC176x5x.h gives for the LPC1769.
pub mod Divider
pub mod Guards
mod Tests
use rffe_uc_fw.Base.{
  ℕ, ◌+◌, ◌-◌, ◌*◌, ◌^◌, List, [], ◌∷◌, ◌++◌, ℤ, pos, negsuc, bit_and, bit_or, u32, ltb, ◌<<◌, ◌||◌,
  if◌then◌else◌,
}

-- enum lpc17_pll0_src
pub data PllSrc : Type 0 where
  pll0_irc_src pll0_osc_src pll0_rtc_src : PllSrc

-- enum lpc17_pclk: the fields of PCLKSEL0 first, then those of PCLKSEL1.
pub data Pclk : Type 0 where
  pclk_wdt pclk_timer0 pclk_timer1 pclk_uart0 pclk_uart1 pclk_pwm1 pclk_i2c0 : Pclk
  pclk_spi pclk_ssp1 pclk_dac pclk_adc pclk_can1 pclk_can2 pclk_acf : Pclk
  pclk_qei pclk_gpioint pclk_pcb pclk_i2c1 pclk_ssp0 pclk_timer2 pclk_timer3 : Pclk
  pclk_uart2 pclk_uart3 pclk_i2c2 pclk_i2s pclk_rit pclk_syscon pclk_mc : Pclk

-- enum lpc17_pclk_div
pub data PclkDiv : Type 0 where
  pclk_div1 pclk_div2 pclk_div4 pclk_can_div6 pclk_div8 : PclkDiv

pub data Sel : Type 0 where
  sel0 sel1 : Sel

pub record ClockSel : Type 0 where
  pub pclksel0 : ℕ
  pub pclksel1 : ℕ

-- The first switch of lpc17_set_pclk.
pub clk_div : PclkDiv → ℕ
clk_div pclk_div1 = 1
clk_div pclk_div2 = 2
clk_div pclk_div4 = 0
clk_div pclk_can_div6 = 3
clk_div pclk_div8 = 3

-- The register of a peripheral's field, and the place of the field in it.
abbrev pub register_of : Pclk → Sel
register_of pclk_wdt = sel0
register_of pclk_timer0 = sel0
register_of pclk_timer1 = sel0
register_of pclk_uart0 = sel0
register_of pclk_uart1 = sel0
register_of pclk_pwm1 = sel0
register_of pclk_i2c0 = sel0
register_of pclk_spi = sel0
register_of pclk_ssp1 = sel0
register_of pclk_dac = sel0
register_of pclk_adc = sel0
register_of pclk_can1 = sel0
register_of pclk_can2 = sel0
register_of pclk_acf = sel0
register_of pclk_qei = sel1
register_of pclk_gpioint = sel1
register_of pclk_pcb = sel1
register_of pclk_i2c1 = sel1
register_of pclk_ssp0 = sel1
register_of pclk_timer2 = sel1
register_of pclk_timer3 = sel1
register_of pclk_uart2 = sel1
register_of pclk_uart3 = sel1
register_of pclk_i2c2 = sel1
register_of pclk_i2s = sel1
register_of pclk_rit = sel1
register_of pclk_syscon = sel1
register_of pclk_mc = sel1

abbrev pub pos_of : Pclk → ℕ
pos_of pclk_wdt = 0
pos_of pclk_timer0 = 2
pos_of pclk_timer1 = 4
pos_of pclk_uart0 = 6
pos_of pclk_uart1 = 8
pos_of pclk_pwm1 = 12
pos_of pclk_i2c0 = 14
pos_of pclk_spi = 16
pos_of pclk_ssp1 = 20
pos_of pclk_dac = 22
pos_of pclk_adc = 24
pos_of pclk_can1 = 26
pos_of pclk_can2 = 28
pos_of pclk_acf = 30
pos_of pclk_qei = 0
pos_of pclk_gpioint = 2
pos_of pclk_pcb = 4
pos_of pclk_i2c1 = 6
pos_of pclk_ssp0 = 10
pos_of pclk_timer2 = 12
pos_of pclk_timer3 = 14
pos_of pclk_uart2 = 16
pos_of pclk_uart3 = 18
pos_of pclk_i2c2 = 20
pos_of pclk_i2s = 22
pos_of pclk_rit = 26
pos_of pclk_syscon = 28
pos_of pclk_mc = 30

-- `tmp &= ~MASK; tmp |= clk_div << POS` with the two bits of the mask at the position.
pub set_field : (at value tmp : ℕ) → ℕ
set_field at value tmp = bit_or (bit_and tmp (2 ^ 32 - 1 - (3 << at))) (u32 (value << at))

-- Each case of the second switch.
pub set_pclk_at : Sel → (at value : ℕ) → ClockSel → ClockSel
unfolding set_field
set_pclk_at sel0 at value s = record s { pclksel0 = set_field at value s.pclksel0 }
set_pclk_at sel1 at value s = record s { pclksel1 = set_field at value s.pclksel1 }

pub lpc17_set_pclk : Pclk → PclkDiv → ClockSel → ClockSel
unfolding set_pclk_at clk_div
lpc17_set_pclk pclk div s = set_pclk_at (register_of pclk) (pos_of pclk) (clk_div div) s

-- A write to a register of the PLL, in the order of the writes.
pub data Write : Type 0 where
  pll0con pll0feed clksrcsel pll0cfg cclkcfg : ℕ → Write
  -- The loop that reads PLL0STAT until the lock bit is set.
  wait_lock : Write

abbrev pub lpc17_pll0_feed : List Write
lpc17_pll0_feed = pll0feed 0xAA ∷ pll0feed 0x55 ∷ []

abbrev pub src_code : PllSrc → ℕ
src_code pll0_irc_src = 0
src_code pll0_osc_src = 1
src_code pll0_rtc_src = 2

-- The arguments are uint16_t, `con` is PLL0CON before: its bit 0 enables the PLL, bit 1 connects it.
pub lpc17_set_pll0 : (pll_div pll_mul cpu_div : ℕ) → PllSrc → (con : ℕ) → ℤ × List Write
lpc17_set_pll0 pll_div pll_mul cpu_div src con =
    if ltb pll_div 1 || ltb 32 pll_div
    then (negsuc 0, [])
    else if ltb pll_mul 6 || ltb 24170 pll_mul
    then (negsuc 0, [])
    else if ltb cpu_div 1 || ltb 256 cpu_div
    then (negsuc 0, [])
    else (let con1 = bit_and con (2 ^ 32 - 1 - 2) in
        let con2 = bit_and con1 (2 ^ 32 - 1 - 1) in
        let con3 = bit_or con2 1 in
        let con4 = bit_or con3 2 in
        (
          pos 0,
          pll0con con1
              ∷ (lpc17_pll0_feed
                  ++ (pll0con con2
                      ∷ (lpc17_pll0_feed
                          ++ (clksrcsel (src_code src)
                              ∷ pll0cfg (bit_or ((pll_div - 1) << 16) (pll_mul - 1))
                              ∷ pll0con con3
                              ∷ (lpc17_pll0_feed
                                  ++ (cclkcfg (cpu_div - 1)
                                      ∷ wait_lock
                                      ∷ pll0con con4
                                      ∷ lpc17_pll0_feed)))))),
        ))

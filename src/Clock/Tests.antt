-- ===== src/Clock/Tests.antt =====
-- The theorems about lpc17_clock.c at registers whose bits are set.
use rffe_uc_fw.Base.{◌-◌, ◌^◌, ◌≡◌, refl, [], ◌∷◌}
use rffe_uc_fw.Clock.{
  ClockSel, pclk_uart0, pclk_div1, clk_div, lpc17_set_pclk, set_field, set_pclk_at, lpc17_set_pll0,
  pll0_irc_src, pll0con, pll0feed, clksrcsel, pll0cfg, cclkcfg, wait_lock,
}

abbrev full : ClockSel
full = record { pclksel0 = 2 ^ 32 - 1; pclksel1 = 5 }

uart0_div1 : (lpc17_set_pclk pclk_uart0 pclk_div1 full).pclksel0 ≡ 0xFFFFFF7F
unfolding lpc17_set_pclk set_pclk_at set_field clk_div
uart0_div1 = refl

-- The set-up of the bootloader: 36 times the internal oscillator, and half of that for the CPU.
boot_setup :
    (lpc17_set_pll0 1 18 2 pll0_irc_src 0).1
    ≡ pll0con 0
      ∷ pll0feed 0xAA
      ∷ pll0feed 0x55
      ∷ pll0con 0
      ∷ pll0feed 0xAA
      ∷ pll0feed 0x55
      ∷ clksrcsel 0
      ∷ pll0cfg 17
      ∷ pll0con 1
      ∷ pll0feed 0xAA
      ∷ pll0feed 0x55
      ∷ cclkcfg 1
      ∷ wait_lock
      ∷ pll0con 3
      ∷ pll0feed 0xAA
      ∷ pll0feed 0x55
      ∷ []
unfolding lpc17_set_pll0
boot_setup = refl

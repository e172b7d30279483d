-- ===== src/Pincfg/Tests.antt =====
-- The theorem about lpc17_pincfg.c at the transmitter pin of the bootloader, with registers of ones.
use rffe_uc_fw.Base.{◌≡◌, refl, ◌-◌, ◌^◌, arith}
use rffe_uc_fw.Pincfg.{
  PinConnect, pin_mode_none, pin_func_alt1, lp17_pincfg, register_number, configure,
}
use rffe_uc_fw.Pincfg.Pins.{IsField, lp17_pincfg_lem}

abbrev ones : PinConnect
ones = record { pinsel = λ q. 2 ^ 32 - 1; pinmode = λ q. 2 ^ 32 - 1 }

lp17_pincfg_lem_example :
    let s' = lp17_pincfg 0 2 pin_mode_none pin_func_alt1 ones in
    IsField 4 1 (2 ^ 32 - 1) (s'.pinsel 0)
    × IsField 4 2 (2 ^ 32 - 1) (s'.pinmode 0)
    × (s'.pinsel 1 ≡ 2 ^ 32 - 1)
    × (s'.pinmode 1 ≡ 2 ^ 32 - 1)
lp17_pincfg_lem_example =
    lp17_pincfg_lem 0 2 pin_mode_none pin_func_alt1 ones 1 (omega arith) (omega arith) (omega arith)
      (omega arith) (omega arith) (λ q. omega arith) (λ q. omega arith) (omega arith)

-- The lower pins of port 3 have no registers.
no_registers : lp17_pincfg 3 7 pin_mode_none pin_func_alt1 ones ≡ ones
unfolding lp17_pincfg register_number configure
no_registers = refl

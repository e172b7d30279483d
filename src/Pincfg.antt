-- ===== src/Pincfg.antt =====
-- bootloader/src/lpc17_pincfg.c and lpc17_pincfg.h: the function and the mode of a pin. A register is
-- its number, as in PINSEL4.
pub mod Pins
mod Tests
use rffe_uc_fw.Base.{ℕ, ◌+◌, ◌*◌, ◌%◌, Option, none, some, Bool, leb, ◌==◌, if◌then◌else◌}
use rffe_uc_fw.Clock.{set_field}

pub data PincfgMode : Type 0 where
  pin_mode_pullup pin_mode_repeater pin_mode_none pin_mode_pulldown : PincfgMode

pub data PincfgFunc : Type 0 where
  pin_func_gpio pin_func_alt1 pin_func_alt2 pin_func_alt3 : PincfgFunc

abbrev pub mode_code : PincfgMode → ℕ
mode_code pin_mode_pullup = 0
mode_code pin_mode_repeater = 1
mode_code pin_mode_none = 2
mode_code pin_mode_pulldown = 3

abbrev pub func_code : PincfgFunc → ℕ
func_code pin_func_gpio = 0
func_code pin_func_alt1 = 1
func_code pin_func_alt2 = 2
func_code pin_func_alt3 = 3

-- LPC_PINCONNECT
pub record PinConnect : Type 0 where
  pub pinsel : ℕ → ℕ
  pub pinmode : ℕ → ℕ

-- The number of the two registers, where the pin has them.
pub register_number : (port pin : ℕ) → Option ℕ
register_number port pin =
    if port == 0
    then (if leb pin 15 then some 0 else some 1)
    else if port == 1
    then (if leb pin 15 then some 2 else some 3)
    else if port == 2
    then (if leb pin 15 then some 4 else none)
    else if port == 3
    then (if leb 16 pin then some 7 else none)
    else if port == 4
    then (if leb 16 pin then some 9 else none)
    else none

abbrev pub bit_pos : (pin : ℕ) → ℕ
bit_pos pin = pin * 2 % 32

abbrev pub store : (r value : ℕ) → (ℕ → ℕ) → ℕ → ℕ
store r value regs q = if q == r then value else regs q

-- The last `if`, with the number.
pub configure : Option ℕ → (at mode func : ℕ) → PinConnect → PinConnect
configure none at mode func s = s
configure (some r) at mode func s = record {
  pinsel = store r (set_field at func (s.pinsel r)) s.pinsel;
  pinmode = store r (set_field at mode (s.pinmode r)) s.pinmode;
}

pub lp17_pincfg : (port pin : ℕ) → PincfgMode → PincfgFunc → PinConnect → PinConnect
unfolding register_number configure
lp17_pincfg port pin mode func s =
    configure (register_number port pin) (bit_pos pin) (mode_code mode) (func_code func) s

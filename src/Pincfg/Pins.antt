-- ===== src/Pincfg/Pins.antt =====
-- lpc17_pincfg.c: the bits that a configuration writes.
use rffe_uc_fw.Base.{
  ℕ, ◌≡◌, ◌≢◌, ◌<◌, ◌+◌, ◌*◌, ◌/◌, ◌%◌, ◌^◌, refl, ◌∙◌, some, true, false, ◌==◌, if◌then◌else◌,
  arith,
}
use rffe_uc_fw.Clock.{
  Pclk, pclk_wdt, pclk_timer0, pclk_timer1, pclk_uart0, pclk_uart1, pclk_ssp0, pclk_pwm1, pclk_i2c0,
  pclk_spi, pclk_uart3, pclk_ssp1, pclk_dac, pclk_adc, pclk_can1, pclk_can2, pclk_acf, pos_of,
  set_field,
}
use rffe_uc_fw.Clock.Divider.{field_lem}
use rffe_uc_fw.Pincfg.{
  PincfgMode, PincfgFunc, mode_code, func_code, PinConnect, register_number, bit_pos, configure,
  lp17_pincfg,
}

-- The register `y` is `x` with `v` in the two bits at `k`.
abbrev pub IsField : (k v x y : ℕ) → Type 0
IsField k v x y =
    (y / 2 ^ k % 4 ≡ v) × (y / 2 ^ (k + 2) ≡ x / 2 ^ (k + 2)) × (y % 2 ^ k ≡ x % 2 ^ k)

-- A field of the clock registers at the same place.
abbrev field_at : ℕ → Pclk
field_at i =
    if i == 0
    then pclk_wdt
    else if i == 1
    then pclk_timer0
    else if i == 2
    then pclk_timer1
    else if i == 3
    then pclk_uart0
    else if i == 4
    then pclk_uart1
    else if i == 5
    then pclk_ssp0
    else if i == 6
    then pclk_pwm1
    else if i == 7
    then pclk_i2c0
    else if i == 8
    then pclk_spi
    else if i == 9
    then pclk_uart3
    else if i == 10
    then pclk_ssp1
    else if i == 11
    then pclk_dac
    else if i == 12
    then pclk_adc
    else if i == 13
    then pclk_can1
    else if i == 14
    then pclk_can2
    else pclk_acf

pos_of-field_at : (i : ℕ) → i < 16 → pos_of (field_at i) ≡ 2 * i
pos_of-field_at i h = ground (arith, h)

bit_pos-IsField :
    (pin v x : ℕ) → v < 4 → x < 2 ^ 32 → IsField (bit_pos pin) v x (set_field (bit_pos pin) v x)
bit_pos-IsField pin v x u h =
    let e : pos_of (field_at (pin % 16)) ≡ bit_pos pin =
      pos_of-field_at (pin % 16) (omega arith) ∙ omega arith in
    rw (← e) (field_lem (field_at (pin % 16)) v x u h)

-- The registers of the ports 0 to 4: the number is twice the port, and one more for the upper half
-- of its pins. PINSEL5, PINSEL6 and PINSEL8 do not exist.
register_number-some :
    (port pin : ℕ)
    → port < 5
    → pin < 32
    → 2 * port + pin / 16 ≢ 5
    → 2 * port + pin / 16 ≢ 6
    → 2 * port + pin / 16 ≢ 8
    → register_number port pin ≡ some (2 * port + pin / 16)
unfolding register_number
register_number-some port pin p q five six eight = ground arith

func_code-below : (f : PincfgFunc) → func_code f < 4
func_code-below f = ground arith

mode_code-below : (m : PincfgMode) → mode_code m < 4
mode_code-below m = ground arith

-- A pin of the ports 0 to 4 that has registers, whose number is twice the port and one more for the
-- upper half of the pins, gets the codes of its function and of its mode in its two bits of the two
-- registers. The bits above and below them, and all other registers, are as they were.
pub lp17_pincfg_lem :
    (port pin : ℕ) (mode : PincfgMode) (func : PincfgFunc) (s : PinConnect) (other : ℕ)
    → port < 5
    → pin < 32
    → 2 * port + pin / 16 ≢ 5
    → 2 * port + pin / 16 ≢ 6
    → 2 * port + pin / 16 ≢ 8
    → ((q : ℕ) → s.pinsel q < 2 ^ 32)
    → ((q : ℕ) → s.pinmode q < 2 ^ 32)
    → other ≢ 2 * port + pin / 16
    → let r = 2 * port + pin / 16 in
      let k = 2 * (pin % 16) in
      let s' = lp17_pincfg port pin mode func s in
      IsField k (func_code func) (s.pinsel r) (s'.pinsel r)
      × IsField k (mode_code mode) (s.pinmode r) (s'.pinmode r)
      × (s'.pinsel other ≡ s.pinsel other)
      × (s'.pinmode other ≡ s.pinmode other)
unfolding lp17_pincfg configure
lp17_pincfg_lem port pin mode func s other p q five six eight sel_word mode_word ne =
    let r = 2 * port + pin / 16 in
    let number = register_number-some port pin p q five six eight in
    let place : bit_pos pin ≡ 2 * (pin % 16) = omega arith in
    let f = bit_pos-IsField pin (func_code func) (s.pinsel r) (func_code-below func) (sel_word r) in
    let m =
      bit_pos-IsField pin (mode_code mode) (s.pinmode r) (mode_code-below mode) (mode_word r) in
    let f' = rw place at f in
    let m' = rw place at m in
    let here : (r == r) ≡ true = ground arith in
    let elsewhere : (other == r) ≡ false = ground (arith, ne) in
    rw (number, place, here, elsewhere) (f', m', refl, refl)

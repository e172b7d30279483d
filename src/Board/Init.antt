-- ===== src/Board/Init.antt =====
-- rffe-board/src/lpc17_40_appinit.c: the pins that select a device on a bus, and
-- board_app_initialize. What the drivers of NuttX answer is a parameter, and what they are asked to
-- register is written down, as are the levels of the three select lines of SSP1 at each transfer.
-- The result of each registration is a parameter too: the path leads to the driver exactly where it is
-- not negative. The code logs two of them and looks at no other.
pub mod Devices
pub mod Dac
use rffe_uc_fw.Base.{
  ℕ, zero, suc, ◌&&◌, Bool, true, false, not, String, List, [], ◌∷◌, ◌++◌, Option, none, some, ◌==◌,
  if◌then◌else◌, ℤ, pos, negsuc, is_neg,
}
use rffe_uc_fw.Base.Text.{same_text, codes}
use rffe_uc_fw.Board.{Pins, gpio, gpiowrite, board_autoled_initialize}

abbrev pub wp_feram : ℕ
wp_feram = gpio 0 21

abbrev pub cs_adt7320_ac : ℕ
cs_adt7320_ac = gpio 2 1

abbrev pub cs_adt7320_bd : ℕ
cs_adt7320_bd = gpio 0 16

abbrev pub cs_dac7554 : ℕ
cs_dac7554 = gpio 0 24

abbrev pub le_dat31r5sp : ℕ
le_dat31r5sp = gpio 0 15

abbrev pub clk_dat31r5sp : ℕ
clk_dat31r5sp = gpio 0 17

abbrev pub data_a : ℕ
data_a = gpio 0 18

abbrev pub data_b : ℕ
data_b = gpio 2 0

abbrev pub data_c : ℕ
data_c = gpio 0 1

abbrev pub data_d : ℕ
data_d = gpio 0 11

-- SPIDEV_TEMPERATURE and SPIDEV_USER.
pub data Devid : Type 0 where
  temperature : ℕ → Devid
  user : ℕ → Devid

abbrev pub lpc17_40_ssp1select : Devid → Bool → Pins → Pins
lpc17_40_ssp1select (temperature n) selected pins =
    if n == 0
    then gpiowrite cs_adt7320_ac (not selected) pins
    else if n == 1
    then gpiowrite cs_adt7320_bd (not selected) pins
    else pins
lpc17_40_ssp1select (user n) selected pins =
    if n == 0 then gpiowrite cs_dac7554 (not selected) pins else pins

-- The latch of the attenuators, which is high while they are selected.
abbrev pub spi_select : Devid → Bool → Pins → Pins
spi_select (temperature n) selected pins = pins
spi_select (user n) selected pins = if n == 1 then gpiowrite le_dat31r5sp selected pins else pins

-- spi_bitbang_set_mosi and spi_bitbang_clear_mosi: the data line of each attenuator.
abbrev pub spi_bitbang_mosi : Bool → Pins → Pins
spi_bitbang_mosi v pins =
    gpiowrite data_d v (gpiowrite data_c v (gpiowrite data_b v (gpiowrite data_a v pins)))

pub data Driver : Type 0 where
  i2c : ℕ → Driver
  ee24xx : ℕ → Driver
  lm71 : Devid → Driver
  adt7320 : Devid → Driver
  dac7554 : Devid → Driver
  dat31r5sp : Devid → Driver
  userled : Driver

-- The LOG_ERR messages: a bus that was not found, the FERAM, and the LEDs.
pub data Report : Type 0 where
  no_bus : ℕ → Report
  no_feram : Report
  no_leds : Report

-- Whether each bus of I2C was found, the blocks that come over SSP1, and the result of the
-- registration of each path.
pub record Bench : Type 0 where
  pub i2c0 : Bool
  pub i2c1 : Bool
  pub block : ℕ → ℕ × ℕ
  pub result : String → ℤ

-- The registrations in their order with what the path leads to, the levels of the select lines at
-- each transfer, and the messages.
pub record Init : Type 0 where
  pub pins : Pins
  pub registered : List (String × Option Driver)
  pub transfers : List (Bool × (Bool × Bool))
  pub reports : List Report

-- What a path leads to after its registration with that result.
abbrev pub driver_if : ℤ → Driver → Option Driver
driver_if ret d = if is_neg ret then none else some d

abbrev configured : Pins → Pins
configured pins = gpiowrite data_d false (
    gpiowrite data_c false (
      gpiowrite data_b false (
        gpiowrite data_a false (
          gpiowrite clk_dat31r5sp false (
            gpiowrite le_dat31r5sp true (
              gpiowrite cs_dac7554 true (
                gpiowrite cs_adt7320_bd true
                  (gpiowrite cs_adt7320_ac true (gpiowrite wp_feram false pins)))))))))

abbrev register : (String → ℤ) → String → Driver → Init → Init
register result path d s = record s {
  registered = s.registered ++ ((path, driver_if (result path) d) ∷ []);
}

abbrev report : Report → Init → Init
report r s = record s { reports = s.reports ++ (r ∷ []) }

abbrev transfer : Init → Init
transfer s = record s {
  transfers =
      s.transfers ++ ((s.pins cs_adt7320_ac, (s.pins cs_adt7320_bd, s.pins cs_dac7554)) ∷ []);
}

abbrev select : Devid → Bool → Init → Init
select d selected s = record s { pins = lpc17_40_ssp1select d selected s.pins }

-- The buses of I2C, with the FERAM on the second.
abbrev start_i2c : (String → ℤ) → Bool → Bool → Init → Init
start_i2c result first second s =
    let s1 = if first then register result "/dev/i2c0" (i2c 0) s else report (no_bus 0) s in
    let s2 = register result "/dev/feram0" (ee24xx 0x50) s1 in
    if second
    then (if is_neg (result "/dev/feram0") then report no_feram s2 else s2)
    else report (no_bus 1) s1

-- SPI_RECVBLOCK, SPI_SEND twice and SPI_RECVBLOCK with the first sensor selected.
abbrev probe : Init → Init
probe s =
    select (temperature 0) false
      (transfer (transfer (transfer (transfer (select (temperature 0) true s)))))

-- `buf[0] == 0x80 && buf[1] == 0x0F`, with the second block in `buf`.
abbrev pub is_lm71 : Bench → Bool
is_lm71 b = let (b0, b1) = b.block 1 in (b0 == 0x80) && (b1 == 0x0F)

abbrev sensors : (String → ℤ) → Bool → Init → Init
sensors result lm s =
    if lm
    then register result "/dev/temp_bd" (lm71 (temperature 1))
        (register result "/dev/temp_ac" (lm71 (temperature 0)) s)
    else register result "/dev/temp_bd" (adt7320 (temperature 1))
        (register result "/dev/temp_ac" (adt7320 (temperature 0)) s)

-- `userled_lower_initialize` and its message.
abbrev start_leds : (String → ℤ) → Init → Init
start_leds result s =
    let s1 = register result "/dev/statusleds" userled s in
    if is_neg (result "/dev/statusleds") then report no_leds s1 else s1

abbrev pub bring_up : (String → ℤ) → Bool → Bool → Bool → Pins → Init
bring_up result first second lm pins =
    let s : Init = record {
      pins = configured pins;
      registered = [];
      transfers = [];
      reports = [];
    } in
    let s1 = sensors result lm (probe (start_i2c result first second s)) in
    let s2 = register result "/dev/dac0" (dac7554 (user 0)) s1 in
    start_leds result (register result "/dev/att0" (dat31r5sp (user 1)) s2)

pub board_app_initialize : Bench → Pins → ℤ × Init
board_app_initialize b pins = (pos 0, bring_up b.result b.i2c0 b.i2c1 (is_lm71 b) pins)

-- The driver that a path leads to.
abbrev pub opened : String → List (String × Option Driver) → Option Driver
opened path [] = none
opened path ((name, d) ∷ rest) = if same_text (codes path) (codes name) then d else opened path rest

-- lpc17_40_boot.c: the register MOD of the watchdog, with the pins, and whether the processor is reset.
pub record Machine : Type 0 where
  pub wdt_mod : ℕ
  pub levels : Pins
  pub was_reset : Bool

abbrev pub lpc17_40_boardinitialize : Machine → Machine
lpc17_40_boardinitialize m = record m { wdt_mod = 0; levels = board_autoled_initialize m.levels }

-- WDT_MOD_WDTOF, the bit 2.
abbrev pub wdtof : ℕ
wdtof = 4

abbrev pub board_reset : Machine → Machine × ℤ
board_reset m = (record m { wdt_mod = wdtof; was_reset = true }, pos 0)

-- lpc17_40_dac.c: the static `initialized`, and the results of the registrations, the last first.
pub record DacInit : Type 0 where
  pub initialized : Bool
  pub results : List ℤ

-- -ENODEV
abbrev pub enodev : ℤ
enodev = negsuc 18

-- With whether lpc17_40_dacinitialize finds the converter, and what dac_register would return.
pub dac_devinit : Bool → ℤ → DacInit → ℤ × DacInit
dac_devinit found ret s =
    if s.initialized
    then (pos 0, s)
    else if not found
    then (enodev, s)
    else if is_neg ret
    then (ret, record s { results = ret ∷ s.results })
    else (pos 0, record { initialized = true; results = ret ∷ s.results })

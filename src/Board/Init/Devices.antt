-- ===== src/Board/Init/Devices.antt =====
-- lpc17_40_appinit.c: the devices and the select lines after board_app_initialize.
use rffe_uc_fw.Base.{
  String, List, [], ◌∷◌, ℤ, is_neg, not, ◌&&◌, ◌≡◌, Bool, true, false, none, if◌then◌else◌,
  replicate,
}
use rffe_uc_fw.Board.Init.{
  cs_adt7320_ac, cs_adt7320_bd, cs_dac7554, temperature, user, ee24xx, lm71, adt7320, dac7554,
  dat31r5sp, userled, Init, driver_if, Report, opened,
}

abbrev is_none : List Report → Bool
is_none [] = true
is_none (r ∷ rs) = false

-- The paths that the firmware opens: each leads to its driver exactly where the registration
-- succeeded, the FERAM where its bus was found too. There is no message exactly where both buses were
-- found and the registrations of the FERAM and of the LEDs succeeded.
pub record HasDevices (result : String → ℤ) (first second lm : Bool) (s : Init) : Type 0 where
  feram :
      opened "/dev/feram0" s.registered
      ≡ (if second then driver_if (result "/dev/feram0") (ee24xx 0x50) else none)
  temp_ac :
      opened "/dev/temp_ac" s.registered
      ≡ driver_if
          (result "/dev/temp_ac")
          (if lm then lm71 (temperature 0) else adt7320 (temperature 0))
  temp_bd :
      opened "/dev/temp_bd" s.registered
      ≡ driver_if
          (result "/dev/temp_bd")
          (if lm then lm71 (temperature 1) else adt7320 (temperature 1))
  dac : opened "/dev/dac0" s.registered ≡ driver_if (result "/dev/dac0") (dac7554 (user 0))
  att : opened "/dev/att0" s.registered ≡ driver_if (result "/dev/att0") (dat31r5sp (user 1))
  statusleds : opened "/dev/statusleds" s.registered ≡ driver_if (result "/dev/statusleds") userled
  silent : is_none s.reports ≡ (
      first
      && (second
          && (not (is_neg (result "/dev/feram0")) && not (is_neg (result "/dev/statusleds")))))

-- Each transfer was one with the first sensor alone, and nothing is selected at the end.
pub record IsFree (s : Init) : Type 0 where
  alone : s.transfers ≡ replicate 4 (false, (true, true))
  ac : s.pins cs_adt7320_ac ≡ true
  bd : s.pins cs_adt7320_bd ≡ true
  dac : s.pins cs_dac7554 ≡ true

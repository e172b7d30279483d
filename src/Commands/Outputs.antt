-- ===== src/Commands/Outputs.antt =====
-- scpi_rffe_cmd.c: the commands that set the two voltages of the DAC by hand.
use rffe_uc_fw.Base.{ℕ, ◌≡◌, inl, inr, refl, true, false, List, ℤ, is_neg, Bool-cases}
use rffe_uc_fw.Device.Os.{read_write, Os}
use rffe_uc_fw.Config.Pid.{Channel, ac, bd, other}
use rffe_uc_fw.Commands.Interface.{
  ScpiResult, res_ok, res_err, hardware_missing, illegal_parameter_value, Scpi, Board, State,
}
use rffe_uc_fw.Commands.Bodies.{dac_file, zero_float, set_dac_output, reply_float}
use rffe_uc_fw.Commands.{
  rffe_set_dac_output_ac, rffe_get_dac_output_ac, rffe_set_dac_output_bd, rffe_get_dac_output_bd,
}

module _ {C N W : Type 0} (scpi : Scpi C N) (os : Os W) (board : Board W) where
  abbrev pub set_output_command : Channel → State C W → ScpiResult × State C W
  set_output_command ac = rffe_set_dac_output_ac scpi os board
  set_output_command bd = rffe_set_dac_output_bd scpi os board

  abbrev pub query_output_command : Channel → State C W → ScpiResult × State C W
  query_output_command ac = rffe_get_dac_output_ac scpi os board
  query_output_command bd = rffe_get_dac_output_bd scpi os board

  abbrev output_of : Channel → State C W → List ℕ
  output_of ac s = s.dac_ac
  output_of bd s = s.dac_bd

  abbrev put : Channel → List ℕ → State C W → State C W
  put ac x s = record s { dac_ac = x }
  put bd x s = record s { dac_bd = x }

  -- The descriptor of the DAC, and the world after it was opened.
  abbrev opened : State C W → ℤ × W
  opened s = os.open_file dac_file read_write s.world

  -- How a command that sets a voltage can go, as its first result and the state after it.
  pub data Outcome (ch : Channel) (s : State C W) : ScpiResult → State C W → Type 0 where
    not_opened :
        is_neg (opened s).0 ≡ true
        → Outcome ch s res_err (record s {
          world = (opened s).1;
          context = scpi.error_push hardware_missing (scpi.result_float zero_float s.context);
        })
    no_number :
        is_neg (opened s).0 ≡ false
        → (scpi.param_number s.context).0 ≡ false
        → Outcome ch s res_err (record s {
          world = os.close (opened s).0 (opened s).1;
          context = (scpi.param_number s.context).2;
        })
    too_high :
        is_neg (opened s).0 ≡ false
        → (scpi.param_number s.context).0 ≡ true
        → scpi.is_above (scpi.param_number s.context).1 scpi.max_volts ≡ true
        → Outcome ch s res_err (record s {
          world = os.close (opened s).0 (opened s).1;
          context = scpi.error_push illegal_parameter_value (scpi.param_number s.context).2;
        })
    done :
        is_neg (opened s).0 ≡ false
        → (scpi.param_number s.context).0 ≡ true
        → scpi.is_above (scpi.param_number s.context).1 scpi.max_volts ≡ false
        → Outcome ch s res_ok (
            put ch (scpi.to_float (scpi.param_number s.context).1) (record s {
              world = os.close (opened s).0 (opened s).1;
              context = (scpi.param_number s.context).2;
            }))

  body-Outcome :
      (ch : Channel) (s : State C W)
      → let (result, s') = set_dac_output scpi os (put ch) s in Outcome ch s result s'
  unfolding set_dac_output
  body-Outcome ch s = elim (Bool-cases (is_neg (opened s).0)) [
    | inl shut ↦ rw shut (not_opened shut)
    | inr fd ↦ elim (Bool-cases (scpi.param_number s.context).0) [
      | inr none ↦ rw (fd, none) (no_number fd none)
      | inl given ↦
          elim (Bool-cases (scpi.is_above (scpi.param_number s.context).1 scpi.max_volts)) [
            | inl high ↦ rw (fd, given, high) (too_high fd given high)
            | inr fine ↦ rw (fd, given, fine) (done fd given fine)
          ]
    ]
  ]

  -- A command that sets a voltage goes one of four ways: the DAC cannot be opened; there is no
  -- number; the number is above 3.3; or the number becomes the voltage of its channel. In the
  -- first three the result is an error and both voltages are as before.
  pub set_output-Outcome :
      (ch : Channel) (s : State C W)
      → let (result, s') = set_output_command ch s in Outcome ch s result s'
  unfolding rffe_set_dac_output_ac rffe_set_dac_output_bd
  set_output-Outcome ac s = body-Outcome ac s
  set_output-Outcome bd s = body-Outcome bd s

  -- A voltage that was set is what its query answers with, and the other voltage is as before.
  query_output-set_output :
      (ch : Channel) (s : State C W) (v : N) (c1 : C)
      → is_neg (opened s).0 ≡ false
      → scpi.param_number s.context ≡ (true, v, c1)
      → scpi.is_above v scpi.max_volts ≡ false
      → let (set_result, s1) = set_output_command ch s in
        let (result, s2) = query_output_command ch s1 in
        (set_result ≡ res_ok)
        × (result ≡ res_ok)
        × (s2.context ≡ scpi.result_float (scpi.to_float v) c1)
        × (output_of (other ch) s2 ≡ output_of (other ch) s)
  unfolding rffe_set_dac_output_ac rffe_set_dac_output_bd rffe_get_dac_output_ac
      rffe_get_dac_output_bd set_dac_output reply_float
  query_output-set_output ac s v c1 fd given fine = rw (fd, given, fine) (refl, refl, refl, refl)
  query_output-set_output bd s v c1 fd given fine = rw (fd, given, fine) (refl, refl, refl, refl)

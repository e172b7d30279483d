-- ===== src/TempControl/Tests.antt =====
-- The theorems about pid.c and temp_control.c with floats that are compared and computed as the
-- numbers that their bytes are, and a memory behind every file.
use rffe_uc_fw.Base.{
  ◌≡◌, ◌≤◌, ◌*◌, ◌/◌, ltb, arith, refl, List, ℕ, [], ◌∷◌, false, replicate, bytes_of_word,
}
use rffe_uc_fw.Device.Sim.{Memory, sim}
use rffe_uc_fw.Config.{manual}
use rffe_uc_fw.PidCtrl.{float_zero}
use rffe_uc_fw.TempControl.Frames.{IsFrame, IsRounding, temp_control_server_keeps}
use rffe_uc_fw.TempControl.{Control, temp_control_server}
use rffe_uc_fw.TempControl.Limits.{AreWithin, temp_control_server-AreWithin}
use rffe_uc_fw.TempControl.Sim.{numbers, blank, conversions, stack, value, logging, scaled}

abbrev at_rest : {W : Type 0} → W → Control W
at_rest w = record {
  pid_ac = blank;
  pid_bd = blank;
  temp = float_zero;
  tctrl = manual;
  dac_ac = bytes_of_word 7;
  dac_bd = float_zero;
  world = w;
}

abbrev blank_memory : Memory
blank_memory = record { bytes = replicate 256 0; at = 0; write_access = false }

abbrev start : Control Memory
start = at_rest blank_memory

temp_control_server-AreWithin_example :
    AreWithin numbers (temp_control_server sim numbers conversions (stack ∷ stack ∷ []) start)
temp_control_server-AreWithin_example =
    temp_control_server-AreWithin sim numbers conversions
      (record { max_self = refl; min_self = refl; in_order = refl }) (stack ∷ stack ∷ []) start
      ((refl, refl), (refl, refl))

abbrev AllFrames : List (List ℕ) → Type 0
AllFrames [] = Unit {0}
AllFrames (bs ∷ rest) = IsFrame numbers scaled bs × AllFrames rest

at_most : (v v' : ℕ) → ltb v' v ≡ false → v ≤ v'
at_most v v' h = ground arith

codes_mono : (v : ℕ) → v ≤ 0x40533333 → v * 4094 / 0x40533333 ≤ 4094
codes_mono v h = ground arith

abbrev rounding : IsRounding numbers scaled
rounding = record {
  AtMost = λ x y. value x ≤ value y;
  of_float_mono = λ x y a b h. at_most (value x) (value y) h;
  div_mono = λ x y h. h;
  mul_mono = λ x y h. h;
  to_u16_mono = λ x low high. codes_mono (value x) high;
  largest = refl;
}

temp_control_server_keeps_example :
    AllFrames
      (temp_control_server logging numbers scaled
        (stack ∷ stack ∷ [])
        (at_rest (record { memory = blank_memory; writes = [] }))).world.writes
temp_control_server_keeps_example =
    temp_control_server_keeps logging numbers scaled
      (record { max_self = refl; min_self = refl; in_order = refl }) rounding
      (λ w. AllFrames w.writes)
      (record {
        closed = record {
          opens = λ path m w p. p;
          seeks = λ fd n w p. p;
          reads = λ fd n w p. p;
          closes = λ fd w p. p;
        };
        writes = λ fd bs w f p. (f, p);
      })
      (stack ∷ stack ∷ []) (at_rest (record { memory = blank_memory; writes = [] }))
      ((refl, refl), (refl, refl)) tt

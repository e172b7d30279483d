-- ===== src/TempControl/Sim.antt =====
-- Floats that are compared and computed as the numbers that their bytes are, for the examples.
use rffe_uc_fw.Base.{
  List, ℕ, ◌+◌, ◌-◌, ◌*◌, ◌/◌, pos, ltb, get_or, bytes_of_word, word_of_bytes, length, ◌∷◌,
}
use rffe_uc_fw.Device.Os.{Os}
use rffe_uc_fw.Device.Sim.{Memory, sim}
use rffe_uc_fw.PidCtrl.{Floats, PidCtrl, float_zero}
use rffe_uc_fw.TempControl.{Conversions, Stack}

abbrev pub value : List ℕ → ℕ
value bs = word_of_bytes (get_or bs 0 0) (get_or bs 1 0) (get_or bs 2 0) (get_or bs 3 0)

abbrev pub numbers : Floats
numbers = record {
  add = λ x y. bytes_of_word (value x + value y);
  sub = λ x y. bytes_of_word (value x - value y);
  mul = λ x y. bytes_of_word (value x * value y);
  div = λ x y. bytes_of_word (value x / value y);
  is_below = λ x y. ltb (value x) (value y);
}

abbrev pub blank : PidCtrl
blank = record {
  kp = bytes_of_word 1;
  ki = bytes_of_word 1;
  kd = bytes_of_word 1;
  setpoint = bytes_of_word 90;
  last_in = float_zero;
  inte_acc = float_zero;
  out_max = float_zero;
  out_min = float_zero;
  sample_time = bytes_of_word 1;
}

abbrev pub conversions : Conversions
conversions = record {
  b16tof = λ bs. bs;
  of_float = λ bs. bs;
  div = λ x y. x;
  mul = λ x y. x;
  to_u16 = value;
}

abbrev pub stack : Stack
stack = record { ret = λ i. pos i; byte = 0 }

-- Files over a memory, and what was written to any of them, the last first.
pub record Log : Type 0 where
  pub memory : Memory
  pub writes : List (List ℕ)

abbrev pub logging : Os Log
logging = record {
  open_file =
      λ path m w. let (fd, s) = sim.open_file path m w.memory in (fd, record w { memory = s });
  lseek = λ fd n w. record w { memory = sim.lseek fd n w.memory };
  read_file =
      λ fd n w. let (r, got, s) = sim.read_file fd n w.memory in (r, got, record w { memory = s });
  write_file = λ fd bs w. (pos (length bs), record w { writes = bs ∷ w.writes });
  close = λ fd w. w;
}

-- Codes in proportion to the numbers.
abbrev pub scaled : Conversions
scaled = record conversions { to_u16 = λ bs. value bs * 4094 / 0x40533333 }

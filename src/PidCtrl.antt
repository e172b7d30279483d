-- ===== src/PidCtrl.antt =====
-- rffe-app/pid.c and pid.h: the PID controller. The arithmetic of floats is a parameter: a float is
-- its four bytes, and nothing is assumed of the operations but what a theorem names.
pub mod Bounds
use rffe_uc_fw.Base.{ℕ, Bool, List, [], ◌∷◌, if◌then◌else◌}

pub record Floats : Type 0 where
  pub add : List ℕ → List ℕ → List ℕ
  pub sub : List ℕ → List ℕ → List ℕ
  pub mul : List ℕ → List ℕ → List ℕ
  pub div : List ℕ → List ℕ → List ℕ
  -- The first is below the second: `<`, and `>` with the sides exchanged.
  pub is_below : List ℕ → List ℕ → Bool

-- pid_ctrl_t
pub record PidCtrl : Type 0 where
  pub kp : List ℕ
  pub ki : List ℕ
  pub kd : List ℕ
  pub setpoint : List ℕ
  pub last_in : List ℕ
  pub inte_acc : List ℕ
  pub out_max : List ℕ
  pub out_min : List ℕ
  pub sample_time : List ℕ

-- The float 0.
abbrev pub float_zero : List ℕ
float_zero = 0 ∷ 0 ∷ 0 ∷ 0 ∷ []

abbrev pub pid_init : (kp ki kd setpoint out_max out_min sample_time : List ℕ) → PidCtrl → PidCtrl
pid_init kp ki kd setpoint out_max out_min sample_time pid = record pid {
  kp = kp;
  ki = ki;
  kd = kd;
  last_in = float_zero;
  inte_acc = float_zero;
  out_max = out_max;
  out_min = out_min;
  sample_time = sample_time;
}

module _ (fl : Floats) where
  -- The two tests on the limits.
  unfoldable pub limited : (out_min out_max : List ℕ) → List ℕ → List ℕ
  limited out_min out_max x =
      if fl.is_below out_max x then out_max else if fl.is_below x out_min then out_min else x

  unfoldable pub pid_compute : PidCtrl → (input : List ℕ) → List ℕ × PidCtrl
  unfolding limited
  pid_compute pid input =
      let error = fl.sub pid.setpoint input in
      let ki_eq = fl.mul pid.ki pid.sample_time in
      let kd_eq = fl.div pid.kd pid.sample_time in
      let inte_acc = limited pid.out_min pid.out_max (fl.add pid.inte_acc (fl.mul ki_eq error)) in
      let din = fl.sub input pid.last_in in
      let output = fl.sub (fl.add (fl.mul pid.kp error) inte_acc) (fl.mul kd_eq din) in
      (limited pid.out_min pid.out_max output, record pid { inte_acc = inte_acc; last_in = input })

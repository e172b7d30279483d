-- ===== src/TempControl.antt =====
-- rffe-app/temp_control.c: the loop that controls the two temperatures by the two voltages of the
-- DAC. A pass through the loop is a function on the state; the pause between two is left out.
pub mod Limits
pub mod Reads
pub mod Frames
pub mod Sim
mod Tests
use rffe_uc_fw.Base.{
  ℕ, String, List, [], ◌∷◌, ℤ, ◌+◌, ◌*◌, ◌%◌, ◌/◌, ◌^◌, ◌||◌, is_neg, overlay, u8, bit_and, ◌>>◌,
  if◌then◌else◌,
}
use rffe_uc_fw.Device.Os.{read_only, read_write, Os}
use rffe_uc_fw.Config.{
  PidConstants, TempCtrlMode, automatic, manual, config_get_temp_control_mode, config_get_pid_ac,
  config_get_pid_bd, config_get_setpoint_ac, config_get_setpoint_bd,
}
use rffe_uc_fw.PidCtrl.{Floats, PidCtrl, float_zero, pid_compute}

abbrev pub cfg_file : String
cfg_file = "/dev/feram0"

abbrev pub dac_file : String
dac_file = "/dev/dac0"

-- The floats 3.3 and 0.1.
abbrev pub max_volts : List ℕ
max_volts = 0x33 ∷ 0x33 ∷ 0x53 ∷ 0x40 ∷ []

abbrev pub tenth : List ℕ
tenth = 0xCD ∷ 0xCC ∷ 0xCC ∷ 0x3D ∷ []

-- The doubles 3.3 and 4095.0.
abbrev pub three_three : List ℕ
three_three = 0x66 ∷ 0x66 ∷ 0x66 ∷ 0x66 ∷ 0x66 ∷ 0x66 ∷ 0x0A ∷ 0x40 ∷ []

abbrev pub full_scale : List ℕ
full_scale = 0x00 ∷ 0x00 ∷ 0x00 ∷ 0x00 ∷ 0x00 ∷ 0xFE ∷ 0xAF ∷ 0x40 ∷ []

-- b16tof of fixedmath.h, and what C does with doubles: the conversion of a float, `/`, `*`, and the
-- conversion to a uint16_t.
pub record Conversions : Type 0 where
  pub b16tof : List ℕ → List ℕ
  pub of_float : List ℕ → List ℕ
  pub div : List ℕ → List ℕ → List ℕ
  pub mul : List ℕ → List ℕ → List ℕ
  pub to_u16 : List ℕ → ℕ

-- `(voltage / 3.3) * 4095.0`
abbrev pub dac_code : Conversions → List ℕ → ℕ
dac_code conv voltage =
    conv.to_u16 (conv.mul (conv.div (conv.of_float voltage) three_three) full_scale)

-- The descriptors of the two sensors and of the DAC.
pub record Fds : Type 0 where
  pub temp_ac_fd : ℤ
  pub temp_bd_fd : ℤ
  pub dac_fd : ℤ

-- The locals of the server that outlive a pass, the two voltages, and the world outside.
pub record Control (W : Type 0) : Type 0 where
  pub pid_ac : PidCtrl
  pub pid_bd : PidCtrl
  pub temp : List ℕ
  pub tctrl : TempCtrlMode
  pub dac_ac : List ℕ
  pub dac_bd : List ℕ
  pub world : W

-- What the accessors find in their locals in one pass: `ret` of the first to the fifth, and a byte.
pub record Stack : Type 0 where
  pub ret : ℕ → ℤ
  pub byte : ℕ

abbrev constants_of : PidCtrl → PidConstants
constants_of pid = record { kc = pid.kp; ti = pid.ki; td = pid.kd }

abbrev with_constants : PidConstants → PidCtrl → PidCtrl
with_constants c pid = record pid { kp = c.kc; ki = c.ti; kd = c.td }

-- The assignments before the loop.
unfoldable pub initialised : PidCtrl → PidCtrl
initialised pid = record pid {
  inte_acc = float_zero;
  last_in = float_zero;
  out_max = max_volts;
  out_min = float_zero;
  sample_time = tenth;
}

module _ {W : Type 0} (os : Os W) (fl : Floats) (conv : Conversions) where
  unfoldable pub write_dac_voltage : (fd : ℤ) (channel : ℕ) (voltage : List ℕ) → W → ℤ × W
  write_dac_voltage fd channel voltage w =
      let dac_val = dac_code conv voltage % 2 ^ 16 in
      os.write_file fd (u8 channel ∷ bit_and dac_val 0xFF ∷ bit_and (dac_val >> 8) 0xFF ∷ []) w

  -- The body of the `if` on the mode.
  pub automatic_pass : Fds → Stack → Control W → Control W
  automatic_pass fds st s =
      let (_, c_bd, w2) =
        config_get_pid_bd os cfg_file (st.ret 1) (constants_of s.pid_bd) s.world in
      let (_, c_ac, w3) = config_get_pid_ac os cfg_file (st.ret 2) (constants_of s.pid_ac) w2 in
      let (_, sp_ac, w4) = config_get_setpoint_ac os cfg_file (st.ret 3) s.pid_ac.setpoint w3 in
      let (_, sp_bd, w5) = config_get_setpoint_bd os cfg_file (st.ret 4) s.pid_bd.setpoint w4 in
      let (_, got_ac, w6) = os.read_file fds.temp_ac_fd 4 w5 in
      let temp1 = overlay got_ac s.temp in
      let temp_ac = conv.b16tof temp1 in
      let (_, got_bd, w7) = os.read_file fds.temp_bd_fd 4 w6 in
      let temp2 = overlay got_bd temp1 in
      let temp_bd = conv.b16tof temp2 in
      let pid_ac1 = with_constants c_ac s.pid_ac in
      let pid_bd1 = with_constants c_bd s.pid_bd in
      let (out_ac, pid_ac2) = pid_compute fl (record pid_ac1 { setpoint = sp_ac }) temp_ac in
      let (out_bd, pid_bd2) = pid_compute fl (record pid_bd1 { setpoint = sp_bd }) temp_bd in
      record s {
        pid_ac = pid_ac2;
        pid_bd = pid_bd2;
        temp = temp2;
        dac_ac = out_ac;
        dac_bd = out_bd;
        world = w7;
      }

  unfoldable pub by_mode : Fds → Stack → Control W → Control W
  unfolding automatic_pass
  by_mode fds st s = elim s.tctrl [ automatic ↦ automatic_pass fds st s | manual ↦ s ]

  unfoldable pub write_outputs : Fds → Control W → Control W
  unfolding write_dac_voltage
  write_outputs fds s =
      let (_, w1) = write_dac_voltage fds.dac_fd 3 s.dac_ac s.world in
      let (_, w2) = write_dac_voltage fds.dac_fd 2 s.dac_bd w1 in record s { world = w2 }

  -- A pass through the loop.
  unfoldable pub control_pass : Fds → Stack → Control W → Control W
  unfolding by_mode write_outputs
  control_pass fds st s =
      let (_, mode, w1) =
        config_get_temp_control_mode os cfg_file (st.ret 0) st.byte s.tctrl s.world in
      write_outputs fds (by_mode fds st (record s { tctrl = mode; world = w1 }))

  unfoldable pub control_loop : Fds → List Stack → Control W → Control W
  unfolding control_pass
  control_loop fds [] s = s
  control_loop fds (st ∷ rest) s = control_loop fds rest (control_pass fds st s)

  -- The server for as many passes as there are stacks; `s` holds whatever its locals do at first.
  pub temp_control_server : List Stack → Control W → Control W
  unfolding control_loop initialised
  temp_control_server stacks s =
      let (temp_ac_fd, w1) = os.open_file "/dev/temp_ac" read_only s.world in
      let (temp_bd_fd, w2) = os.open_file "/dev/temp_bd" read_only w1 in
      let (dac_fd, w3) = os.open_file dac_file read_write w2 in
      let s1 = record s { world = w3 } in
      if is_neg temp_ac_fd || is_neg temp_bd_fd
      then s1
      else if is_neg dac_fd
      then s1
      else control_loop
          (record { temp_ac_fd = temp_ac_fd; temp_bd_fd = temp_bd_fd; dac_fd = dac_fd }) stacks
          (record s1 { pid_ac = initialised s.pid_ac; pid_bd = initialised s.pid_bd })

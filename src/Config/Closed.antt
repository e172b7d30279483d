-- ===== src/Config/Closed.antt =====
-- config_file.c: the calls that the getters make, as closure properties of the world.
use rffe_uc_fw.Base.{ℕ, inl, inr, String, ℤ, is_neg, Bool-cases, List}
use rffe_uc_fw.Device.Os.{Access, read_only, Os}
use rffe_uc_fw.Config.{
  PidConstants, TempCtrlMode, read_adding, get_pid, config_get_pid_ac, config_get_pid_bd,
  config_get_setpoint_ac, config_get_setpoint_bd, config_get_temp_control_mode,
}

-- A property of the world that no call but a write changes.
pub record IsClosed {W : Type 0} (os : Os W) (P : W → Type 0) : Type 0 where
  pub opens : (path : String) (m : Access) (w : W) → P w → P (os.open_file path m w).1
  pub seeks : (fd : ℤ) (n : ℕ) (w : W) → P w → P (os.lseek fd n w)
  pub reads : (fd : ℤ) (n : ℕ) (w : W) → P w → P (os.read_file fd n w).2
  pub closes : (fd : ℤ) (w : W) → P w → P (os.close fd w)

module _ {W : Type 0} (os : Os W) (path : String) (P : W → Type 0) (c : IsClosed os P) where
  -- A read at an offset.
  read_from : (fd : ℤ) (off n : ℕ) (w : W) → P w → P (os.read_file fd n (os.lseek fd off w)).2
  read_from fd off n w p = c.reads fd n _ (c.seeks fd off w p)

  read_adding_keeps :
      (off : ℕ) (ret : ℤ) (out : List ℕ) (w : W) → P w → P (read_adding os path off ret out w).2
  unfolding read_adding
  read_adding_keeps off ret out w p =
      let (fd, w1) = os.open_file path read_only w in
      let p1 = c.opens path read_only w p in
      elim (Bool-cases (is_neg fd)) [
        | inl e ↦ rw e p1
        | inr e ↦ rw e (c.closes fd _ (read_from fd off 4 w1 p1))
      ]

  get_pid_keeps :
      (kc ti td : ℕ) (ret : ℤ) (pid : PidConstants) (w : W)
      → P w
      → P (get_pid os path kc ti td ret pid w).2
  unfolding get_pid
  get_pid_keeps kc ti td ret pid w p =
      let (fd, w1) = os.open_file path read_only w in
      let p1 = c.opens path read_only w p in
      let p2 = read_from fd kc 4 w1 p1 in
      let p3 = read_from fd ti 4 _ p2 in
      elim (Bool-cases (is_neg fd)) [
        | inl e ↦ rw e p1
        | inr e ↦ rw e (c.closes fd _ (read_from fd td 4 _ p3))
      ]

  pub get_pid_ac_keeps :
      (ret : ℤ) (pid : PidConstants) (w : W) → P w → P (config_get_pid_ac os path ret pid w).2
  unfolding config_get_pid_ac
  get_pid_ac_keeps ret pid w p = get_pid_keeps _ _ _ ret pid w p

  pub get_pid_bd_keeps :
      (ret : ℤ) (pid : PidConstants) (w : W) → P w → P (config_get_pid_bd os path ret pid w).2
  unfolding config_get_pid_bd
  get_pid_bd_keeps ret pid w p = get_pid_keeps _ _ _ ret pid w p

  pub get_setpoint_ac_keeps :
      (ret : ℤ) (out : List ℕ) (w : W) → P w → P (config_get_setpoint_ac os path ret out w).2
  unfolding config_get_setpoint_ac
  get_setpoint_ac_keeps ret out w p = read_adding_keeps _ ret out w p

  pub get_setpoint_bd_keeps :
      (ret : ℤ) (out : List ℕ) (w : W) → P w → P (config_get_setpoint_bd os path ret out w).2
  unfolding config_get_setpoint_bd
  get_setpoint_bd_keeps ret out w p = read_adding_keeps _ ret out w p

  pub get_temp_mode_keeps :
      (ret : ℤ) (junk : ℕ) (mode : TempCtrlMode) (w : W)
      → P w
      → P (config_get_temp_control_mode os path ret junk mode w).2
  unfolding config_get_temp_control_mode
  get_temp_mode_keeps ret junk mode w p =
      let (fd, w1) = os.open_file path read_only w in
      let p1 = c.opens path read_only w p in
      elim (Bool-cases (is_neg fd)) [
        | inl e ↦ rw e p1
        | inr e ↦ rw e (c.closes fd _ (read_from fd _ 1 w1 p1))
      ]

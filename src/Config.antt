-- ===== src/Config.antt =====
-- rffe-app/config_file.c and config_file.h: the getters and setters of the configuration in the
-- FERAM.
-- A getter takes what the caller's variable holds before the call. `ret` of the functions that add
-- to it without a first value, and a local buffer, are arguments too: whatever the stack held.
pub mod Layout
pub mod Transfers
pub mod Fields
pub mod Closed
pub mod Modes
pub mod Pid
pub mod Errors
pub mod Spec
pub mod View
pub mod Refine
mod Tests
use rffe_uc_fw.Base.{
  ℕ, String, List, [], ◌∷◌, ℤ, ◌+int◌, is_neg, get_or, overlay, ◌==◌, if◌then◌else◌,
}
use rffe_uc_fw.Device.Os.{read_only, read_write, Os}
use Layout.{
  mac_addr_offset, config_version_offset, ip_addr_offset, mask_addr_offset, gateway_addr_offset,
  attenuation_offset, eth_addr_offset, temp_ctrl_mode_offset, pid_ac_kc_offset, pid_ac_ti_offset,
  pid_ac_td_offset, pid_bd_kc_offset, pid_bd_ti_offset, pid_bd_td_offset, pid_ac_set_point_offset,
  pid_bd_set_point_offset, clear_positive, read_at, write_at,
}

pub data EthAddrMode : Type 0 where
  dhcp static none : EthAddrMode

pub data TempCtrlMode : Type 0 where
  manual automatic : TempCtrlMode

-- The bytes of three floats.
pub record PidConstants : Type 0 where
  pub kc : List ℕ
  pub ti : List ℕ
  pub td : List ℕ

-- The two `switch` statements between a byte and a mode.
unfoldable pub eth_mode_of_byte : ℕ → EthAddrMode
eth_mode_of_byte buf = if buf == 0 then static else if buf == 1 then dhcp else none

pub byte_of_eth_mode : EthAddrMode → ℕ
byte_of_eth_mode static = 0
byte_of_eth_mode dhcp = 1
byte_of_eth_mode none = 2

unfoldable pub temp_mode_of_byte : ℕ → TempCtrlMode
temp_mode_of_byte buf = if buf == 0 then automatic else manual

pub byte_of_temp_mode : TempCtrlMode → ℕ
byte_of_temp_mode manual = 1
byte_of_temp_mode automatic = 0

module _ {W : Type 0} (os : Os W) (path : String) where
  pub config_get_version : List ℕ → W → ℤ × List ℕ × W
  config_get_version version w = read_at os path config_version_offset 1 version w

  pub config_set_version : ℕ → W → ℤ × W
  config_set_version version w = write_at os path eth_addr_offset (version ∷ []) w

  pub config_get_eth_addressing : (junk : ℕ) → EthAddrMode → W → ℤ × EthAddrMode × W
  config_get_eth_addressing junk addr_mode w =
      let (fd, w1) = os.open_file path read_only w in
      let (ret, got, w2) = os.read_file fd 1 (os.lseek fd eth_addr_offset w1) in
      if is_neg fd then (fd, addr_mode, w1) else (
        clear_positive ret,
        eth_mode_of_byte (get_or (overlay got (junk ∷ [])) 0 junk),
        os.close fd w2,
      )

  pub config_set_eth_addressing : EthAddrMode → W → ℤ × W
  config_set_eth_addressing addr_mode w =
      write_at os path eth_addr_offset (byte_of_eth_mode addr_mode ∷ []) w

  pub config_get_mac_addr : List ℕ → W → ℤ × List ℕ × W
  config_get_mac_addr mac w = read_at os path mac_addr_offset 6 mac w

  pub config_set_mac_addr : List ℕ → W → ℤ × W
  config_set_mac_addr mac w = write_at os path mac_addr_offset mac w

  pub config_get_ipv4_addr : List ℕ → W → ℤ × List ℕ × W
  config_get_ipv4_addr ip w = read_at os path ip_addr_offset 4 ip w

  pub config_set_ipv4_addr : List ℕ → W → ℤ × W
  config_set_ipv4_addr ip w = write_at os path ip_addr_offset ip w

  pub config_get_mask_addr : List ℕ → W → ℤ × List ℕ × W
  config_get_mask_addr mask w = read_at os path mask_addr_offset 4 mask w

  pub config_set_mask_addr : List ℕ → W → ℤ × W
  config_set_mask_addr mask w = write_at os path mask_addr_offset mask w

  pub config_get_gateway_addr : List ℕ → W → ℤ × List ℕ × W
  config_get_gateway_addr gateway w = read_at os path gateway_addr_offset 4 gateway w

  pub config_set_gateway_addr : List ℕ → W → ℤ × W
  config_set_gateway_addr gateway w = write_at os path gateway_addr_offset gateway w

  pub config_get_attenuation : List ℕ → W → ℤ × List ℕ × W
  config_get_attenuation att w = read_at os path attenuation_offset 4 att w

  pub config_set_attenuation : List ℕ → W → ℤ × W
  config_set_attenuation att w = write_at os path attenuation_offset att w

  -- The body that `config_get_pid_ac` and `config_get_pid_bd` share, at their offsets.
  pub get_pid : (kc_off ti_off td_off : ℕ) → ℤ → PidConstants → W → ℤ × PidConstants × W
  get_pid kc_off ti_off td_off ret c w =
      let (fd, w1) = os.open_file path read_only w in
      let (r1, kc, w2) = os.read_file fd 4 (os.lseek fd kc_off w1) in
      let (r2, ti, w3) = os.read_file fd 4 (os.lseek fd ti_off w2) in
      let (r3, td, w4) = os.read_file fd 4 (os.lseek fd td_off w3) in
      if is_neg fd then (fd, c, w1) else (
        clear_positive (ret +int r1 +int r2 +int r3),
        record { kc = overlay kc c.kc; ti = overlay ti c.ti; td = overlay td c.td },
        os.close fd w4,
      )

  pub set_pid : (kc_off ti_off td_off : ℕ) → ℤ → PidConstants → W → ℤ × W
  set_pid kc_off ti_off td_off ret c w =
      let (fd, w1) = os.open_file path read_write w in
      let (r1, w2) = os.write_file fd c.kc (os.lseek fd kc_off w1) in
      let (r2, w3) = os.write_file fd c.ti (os.lseek fd ti_off w2) in
      let (r3, w4) = os.write_file fd c.td (os.lseek fd td_off w3) in
      if is_neg fd then (fd, w1) else (clear_positive (ret +int r1 +int r2 +int r3), os.close fd w4)

  pub config_get_pid_ac : ℤ → PidConstants → W → ℤ × PidConstants × W
  config_get_pid_ac = get_pid pid_ac_kc_offset pid_ac_ti_offset pid_ac_td_offset

  pub config_set_pid_ac : ℤ → PidConstants → W → ℤ × W
  config_set_pid_ac = set_pid pid_ac_kc_offset pid_ac_ti_offset pid_ac_td_offset

  pub config_get_pid_bd : ℤ → PidConstants → W → ℤ × PidConstants × W
  config_get_pid_bd = get_pid pid_bd_kc_offset pid_bd_ti_offset pid_bd_td_offset

  pub config_set_pid_bd : ℤ → PidConstants → W → ℤ × W
  config_set_pid_bd = set_pid pid_bd_kc_offset pid_bd_ti_offset pid_bd_td_offset

  -- The body of the set point getters: as `read_at`, but the result is added to `ret`.
  pub read_adding : ℕ → ℤ → List ℕ → W → ℤ × List ℕ × W
  read_adding off ret out w =
      let (fd, w1) = os.open_file path read_only w in
      let (r, got, w2) = os.read_file fd 4 (os.lseek fd off w1) in
      if is_neg fd
      then (fd, out, w1)
      else (clear_positive (ret +int r), overlay got out, os.close fd w2)

  pub write_adding : ℕ → ℤ → List ℕ → W → ℤ × W
  write_adding off ret value w =
      let (fd, w1) = os.open_file path read_write w in
      let (r, w2) = os.write_file fd value (os.lseek fd off w1) in
      if is_neg fd then (fd, w1) else (clear_positive (ret +int r), os.close fd w2)

  pub config_get_setpoint_ac : ℤ → List ℕ → W → ℤ × List ℕ × W
  config_get_setpoint_ac ret setpoint w = read_adding pid_ac_set_point_offset ret setpoint w

  pub config_set_setpoint_ac : ℤ → List ℕ → W → ℤ × W
  config_set_setpoint_ac ret setpoint w = write_adding pid_ac_set_point_offset ret setpoint w

  pub config_get_setpoint_bd : ℤ → List ℕ → W → ℤ × List ℕ × W
  config_get_setpoint_bd ret setpoint w = read_adding pid_bd_set_point_offset ret setpoint w

  pub config_set_setpoint_bd : ℤ → List ℕ → W → ℤ × W
  config_set_setpoint_bd ret setpoint w = write_adding pid_bd_set_point_offset ret setpoint w

  unfoldable pub config_get_temp_control_mode :
      ℤ → (junk : ℕ) → TempCtrlMode → W → ℤ × TempCtrlMode × W
  config_get_temp_control_mode ret junk mode w =
      let (fd, w1) = os.open_file path read_only w in
      let (r, got, w2) = os.read_file fd 1 (os.lseek fd temp_ctrl_mode_offset w1) in
      if is_neg fd then (fd, mode, w1) else (
        clear_positive (ret +int r),
        temp_mode_of_byte (get_or (overlay got (junk ∷ [])) 0 junk),
        os.close fd w2,
      )

  pub config_set_temp_control_mode : ℤ → TempCtrlMode → W → ℤ × W
  config_set_temp_control_mode ret mode w =
      write_adding temp_ctrl_mode_offset ret (byte_of_temp_mode mode ∷ []) w

-- ===== src/Commands.antt =====
-- rffe-app/scpi_rffe_cmd.c: the handlers of the SCPI commands. A handler takes the state before it
-- and what its locals hold that are read before a first value is stored in them: `ret` for the
-- accessors that add to one, `junk` for its own variables.
pub mod Interface
pub mod Bodies
pub mod Settings
pub mod Numbers
pub mod Replies
pub mod Flags
pub mod Addresses
pub mod Outputs
pub mod All
pub mod Limits
pub mod Refused
pub mod Reach
pub mod Kept
pub mod Sim
mod Tests
use rffe_uc_fw.Base.{ℕ, String, Bool, true, false, List, ℤ, if◌then◌else◌}
use rffe_uc_fw.Device.Os.{read_only, Os}
use rffe_uc_fw.Config.{
  PidConstants, EthAddrMode, TempCtrlMode, static, dhcp, none, manual, automatic,
  config_set_attenuation, config_get_attenuation, config_set_setpoint_ac, config_get_setpoint_ac,
  config_set_setpoint_bd, config_get_setpoint_bd, config_set_pid_ac, config_get_pid_ac,
  config_set_pid_bd, config_get_pid_bd, config_set_temp_control_mode, config_get_temp_control_mode,
  config_set_ipv4_addr, config_get_ipv4_addr, config_set_gateway_addr, config_get_gateway_addr,
  config_set_mask_addr, config_get_mask_addr, config_set_eth_addressing, config_get_eth_addressing,
}
use Interface.{ScpiResult, res_ok, res_err, missing_parameter, Scpi, Board, GitVersion, State}
use Bodies.{
  measure_temp, set_number, set_pid_constant, reply_float, reply_flag, set_flag, set_dac_output,
  set_address, reply_address,
}

abbrev pub cfg_file : String
cfg_file = "/dev/feram0"

-- Whether a mode is answered with 1.
abbrev pub is_automatic : TempCtrlMode → Bool
is_automatic manual = false
is_automatic automatic = true

abbrev pub is_not_static : EthAddrMode → Bool
is_not_static static = false
is_not_static dhcp = true
is_not_static none = true

abbrev pub with_kc : List ℕ → PidConstants → PidConstants
with_kc x c = record c { kc = x }

abbrev pub with_ti : List ℕ → PidConstants → PidConstants
with_ti x c = record c { ti = x }

abbrev pub with_td : List ℕ → PidConstants → PidConstants
with_td x c = record c { td = x }

module _ {C N W : Type 0} (scpi : Scpi C N) (os : Os W) (board : Board W) where
  pub rffe_measure_temp_ac : State C W → ScpiResult × State C W
  rffe_measure_temp_ac = measure_temp scpi os "/dev/temp_ac"

  pub rffe_measure_temp_bd : State C W → ScpiResult × State C W
  rffe_measure_temp_bd = measure_temp scpi os "/dev/temp_bd"

  unfoldable pub rffe_set_attenuation : State C W → ScpiResult × State C W
  rffe_set_attenuation s =
      let (given, par, c1) = scpi.param_number s.context in
      let att = scpi.ftob16 par in
      let (fd, w1) = os.open_file "/dev/att0" read_only s.world in
      let w2 = os.close fd (board.set_att fd att w1) in
      if given
      then (
        res_ok,
        record s { world = (config_set_attenuation os cfg_file att w2).1; context = c1 },
      )
      else (res_err, record s { context = scpi.error_push missing_parameter c1 })

  pub rffe_get_attenuation : (junk : List ℕ) → State C W → ScpiResult × State C W
  rffe_get_attenuation junk s =
      let (_, att, w1) = config_get_attenuation os cfg_file junk s.world in
      reply_float scpi os (scpi.b16tof att) w1 s

  pub rffe_self_test : State C W → ScpiResult × State C W
  rffe_self_test s = (res_ok, record s { context = scpi.result_int32 0 s.context })

  pub rffe_set_temp_ac : (ret : ℤ) → State C W → ScpiResult × State C W
  rffe_set_temp_ac ret = set_number scpi os (λ x w. (config_set_setpoint_ac os cfg_file ret x w).1)

  pub rffe_get_temp_ac : (ret : ℤ) (junk : List ℕ) → State C W → ScpiResult × State C W
  rffe_get_temp_ac ret junk s =
      let (_, temp, w1) = config_get_setpoint_ac os cfg_file ret junk s.world in
      reply_float scpi os temp w1 s

  pub rffe_set_temp_bd : (ret : ℤ) → State C W → ScpiResult × State C W
  rffe_set_temp_bd ret = set_number scpi os (λ x w. (config_set_setpoint_bd os cfg_file ret x w).1)

  pub rffe_get_temp_bd : (ret : ℤ) (junk : List ℕ) → State C W → ScpiResult × State C W
  rffe_get_temp_bd ret junk s =
      let (_, temp, w1) = config_get_setpoint_bd os cfg_file ret junk s.world in
      reply_float scpi os temp w1 s

  pub rffe_set_pid_kc_ac : (ret ret' : ℤ) (junk : PidConstants) → State C W → ScpiResult × State C W
  rffe_set_pid_kc_ac ret ret' junk =
      set_pid_constant scpi os (config_get_pid_ac os cfg_file ret junk)
        (config_set_pid_ac os cfg_file ret') with_kc

  pub rffe_get_pid_kc_ac : (ret : ℤ) (junk : PidConstants) → State C W → ScpiResult × State C W
  rffe_get_pid_kc_ac ret junk s =
      let (_, c, w1) = config_get_pid_ac os cfg_file ret junk s.world in
      reply_float scpi os c.kc w1 s

  pub rffe_set_pid_ti_ac : (ret ret' : ℤ) (junk : PidConstants) → State C W → ScpiResult × State C W
  rffe_set_pid_ti_ac ret ret' junk =
      set_pid_constant scpi os (config_get_pid_ac os cfg_file ret junk)
        (config_set_pid_ac os cfg_file ret') with_ti

  pub rffe_get_pid_ti_ac : (ret : ℤ) (junk : PidConstants) → State C W → ScpiResult × State C W
  rffe_get_pid_ti_ac ret junk s =
      let (_, c, w1) = config_get_pid_ac os cfg_file ret junk s.world in
      reply_float scpi os c.ti w1 s

  pub rffe_set_pid_td_ac : (ret ret' : ℤ) (junk : PidConstants) → State C W → ScpiResult × State C W
  rffe_set_pid_td_ac ret ret' junk =
      set_pid_constant scpi os (config_get_pid_ac os cfg_file ret junk)
        (config_set_pid_ac os cfg_file ret') with_td

  pub rffe_get_pid_td_ac : (ret : ℤ) (junk : PidConstants) → State C W → ScpiResult × State C W
  rffe_get_pid_td_ac ret junk s =
      let (_, c, w1) = config_get_pid_ac os cfg_file ret junk s.world in
      reply_float scpi os c.td w1 s

  pub rffe_set_pid_kc_bd : (ret ret' : ℤ) (junk : PidConstants) → State C W → ScpiResult × State C W
  rffe_set_pid_kc_bd ret ret' junk =
      set_pid_constant scpi os (config_get_pid_bd os cfg_file ret junk)
        (config_set_pid_bd os cfg_file ret') with_kc

  pub rffe_get_pid_kc_bd : (ret : ℤ) (junk : PidConstants) → State C W → ScpiResult × State C W
  rffe_get_pid_kc_bd ret junk s =
      let (_, c, w1) = config_get_pid_bd os cfg_file ret junk s.world in
      reply_float scpi os c.kc w1 s

  pub rffe_set_pid_ti_bd : (ret ret' : ℤ) (junk : PidConstants) → State C W → ScpiResult × State C W
  rffe_set_pid_ti_bd ret ret' junk =
      set_pid_constant scpi os (config_get_pid_bd os cfg_file ret junk)
        (config_set_pid_bd os cfg_file ret') with_ti

  pub rffe_get_pid_ti_bd : (ret : ℤ) (junk : PidConstants) → State C W → ScpiResult × State C W
  rffe_get_pid_ti_bd ret junk s =
      let (_, c, w1) = config_get_pid_bd os cfg_file ret junk s.world in
      reply_float scpi os c.ti w1 s

  pub rffe_set_pid_td_bd : (ret ret' : ℤ) (junk : PidConstants) → State C W → ScpiResult × State C W
  rffe_set_pid_td_bd ret ret' junk =
      set_pid_constant scpi os (config_get_pid_bd os cfg_file ret junk)
        (config_set_pid_bd os cfg_file ret') with_td

  pub rffe_get_pid_td_bd : (ret : ℤ) (junk : PidConstants) → State C W → ScpiResult × State C W
  rffe_get_pid_td_bd ret junk s =
      let (_, c, w1) = config_get_pid_bd os cfg_file ret junk s.world in
      reply_float scpi os c.td w1 s

  pub rffe_set_temp_control : (ret : ℤ) → State C W → ScpiResult × State C W
  rffe_set_temp_control ret = set_flag scpi os (λ value w.
      (config_set_temp_control_mode os cfg_file ret (if value then automatic else manual) w).1)

  pub rffe_get_temp_control :
      (ret : ℤ) (local : ℕ) (junk : TempCtrlMode) → State C W → ScpiResult × State C W
  rffe_get_temp_control ret local junk s =
      let (_, mode, w1) = config_get_temp_control_mode os cfg_file ret local junk s.world in
      reply_flag scpi os (is_automatic mode) w1 s

  unfoldable pub rffe_set_dac_output_ac : State C W → ScpiResult × State C W
  rffe_set_dac_output_ac = set_dac_output scpi os (λ x s. record s { dac_ac = x })

  pub rffe_get_dac_output_ac : State C W → ScpiResult × State C W
  rffe_get_dac_output_ac s = reply_float scpi os s.dac_ac s.world s

  unfoldable pub rffe_set_dac_output_bd : State C W → ScpiResult × State C W
  rffe_set_dac_output_bd = set_dac_output scpi os (λ x s. record s { dac_bd = x })

  pub rffe_get_dac_output_bd : State C W → ScpiResult × State C W
  rffe_get_dac_output_bd s = reply_float scpi os s.dac_bd s.world s

  unfoldable pub rffe_set_ip_addr : (junk : List ℕ) → State C W → ScpiResult × State C W
  rffe_set_ip_addr = set_address scpi os (λ x w. (config_set_ipv4_addr os cfg_file x w).1)

  pub rffe_get_ip_addr : (junk : List ℕ) → State C W → ScpiResult × State C W
  rffe_get_ip_addr junk s =
      let (_, addr, w1) = config_get_ipv4_addr os cfg_file junk s.world in
      reply_address scpi os addr w1 s

  unfoldable pub rffe_set_gateway_addr : (junk : List ℕ) → State C W → ScpiResult × State C W
  rffe_set_gateway_addr = set_address scpi os (λ x w. (config_set_gateway_addr os cfg_file x w).1)

  pub rffe_get_gateway_addr : (junk : List ℕ) → State C W → ScpiResult × State C W
  rffe_get_gateway_addr junk s =
      let (_, addr, w1) = config_get_gateway_addr os cfg_file junk s.world in
      reply_address scpi os addr w1 s

  unfoldable pub rffe_set_netmask : (junk : List ℕ) → State C W → ScpiResult × State C W
  rffe_set_netmask = set_address scpi os (λ x w. (config_set_mask_addr os cfg_file x w).1)

  pub rffe_get_netmask : (junk : List ℕ) → State C W → ScpiResult × State C W
  rffe_get_netmask junk s =
      let (_, addr, w1) = config_get_mask_addr os cfg_file junk s.world in
      reply_address scpi os addr w1 s

  unfoldable pub rffe_set_dhcp_mode : State C W → ScpiResult × State C W
  rffe_set_dhcp_mode =
      set_flag scpi os
        (λ value w. (config_set_eth_addressing os cfg_file (if value then dhcp else static) w).1)

  pub rffe_get_dhcp_mode : (local : ℕ) (junk : EthAddrMode) → State C W → ScpiResult × State C W
  rffe_get_dhcp_mode local junk s =
      let (_, mode, w1) = config_get_eth_addressing os cfg_file local junk s.world in
      reply_flag scpi os (is_not_static mode) w1 s

  pub rffe_get_version : GitVersion → State C W → ScpiResult × State C W
  rffe_get_version v s =
      let c1 = scpi.result_characters v.apps_git_hash s.context in
      let c2 = scpi.result_characters v.nuttx_git_hash c1 in
      let c3 = scpi.result_characters v.rffe_git_hash c2 in
      (res_ok, record s { context = scpi.result_characters v.rffe_git_tag c3 })

  pub rffe_reset : State C W → ScpiResult × State C W
  rffe_reset s = (res_ok, record s { world = board.board_reset s.world })

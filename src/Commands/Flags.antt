-- ===== src/Commands/Flags.antt =====
-- scpi_rffe_cmd.c: the two flags, whether the addresses come from DHCP and whether the temperature
-- control is automatic.
use rffe_uc_fw.Base.{◌≤◌, ◌≡◌, refl, ap, Bool, true, false, length, if◌then◌else◌}
use rffe_uc_fw.Device.Os.{Os, IsDevice}
use rffe_uc_fw.Config.{manual, automatic, dhcp, static}
use rffe_uc_fw.Config.Transfers.{IsPresent}
use rffe_uc_fw.Config.Fields.{record_size}
use rffe_uc_fw.Config.Modes.{get_eth-set_eth, get_temp_mode-set_temp_mode}
use rffe_uc_fw.Commands.Interface.{ScpiResult, res_ok, Scpi, Board, State}
use rffe_uc_fw.Commands.Bodies.{set_flag, reply_flag}
use rffe_uc_fw.Commands.Settings.{Locals}
use rffe_uc_fw.Commands.{
  cfg_file, is_automatic, is_not_static, rffe_set_temp_control, rffe_get_temp_control,
  rffe_set_dhcp_mode, rffe_get_dhcp_mode,
}

pub data Flag : Type 0 where
  dhcp_mode temp_control : Flag

module _ {C N W : Type 0} (scpi : Scpi C N) (os : Os W) (board : Board W) where
  abbrev pub set_flag_command : Flag → Locals → State C W → ScpiResult × State C W
  set_flag_command dhcp_mode l = rffe_set_dhcp_mode scpi os board
  set_flag_command temp_control l = rffe_set_temp_control scpi os board l.ret

  abbrev pub query_flag_command : Flag → Locals → State C W → ScpiResult × State C W
  query_flag_command dhcp_mode l = rffe_get_dhcp_mode scpi os board l.local l.eth_mode
  query_flag_command temp_control l = rffe_get_temp_control scpi os board l.ret l.local l.temp_mode

  -- A flag that was set is what its query answers with: 1 for yes, 0 for no. Both report success.
  query_flag-set_flag :
      (dev : IsDevice os cfg_file)
      → IsPresent os cfg_file
      → (f : Flag) (l l' : Locals) (s : State C W) (value : Bool) (c1 : C)
      → scpi.param_bool s.context ≡ (true, value, c1)
      → record_size ≤ length (dev.contents s.world)
      → let (set_result, s1) = set_flag_command f l s in
        let (result, s2) = query_flag_command f l' s1 in
        (set_result ≡ res_ok)
        × (result ≡ res_ok)
        × (s2.context ≡ scpi.result_int32 (if value then 1 else 0) c1)
  unfolding rffe_set_dhcp_mode rffe_get_dhcp_mode rffe_set_temp_control rffe_get_temp_control
      set_flag reply_flag
  query_flag-set_flag dev present dhcp_mode l l' s true c1 given h =
      let e = get_eth-set_eth os cfg_file dev present dhcp l'.eth_mode l'.local s.world h in
      rw given (refl, refl, ap (λ m. scpi.result_int32 (if is_not_static m then 1 else 0) c1) e)
  query_flag-set_flag dev present dhcp_mode l l' s false c1 given h =
      let e = get_eth-set_eth os cfg_file dev present static l'.eth_mode l'.local s.world h in
      rw given (refl, refl, ap (λ m. scpi.result_int32 (if is_not_static m then 1 else 0) c1) e)
  query_flag-set_flag dev present temp_control l l' s true c1 given h =
      let e =
        get_temp_mode-set_temp_mode os cfg_file dev present automatic l'.temp_mode l.ret l'.ret
          l'.local s.world h in
      rw given (refl, refl, ap (λ m. scpi.result_int32 (if is_automatic m then 1 else 0) c1) e)
  query_flag-set_flag dev present temp_control l l' s false c1 given h =
      let e =
        get_temp_mode-set_temp_mode os cfg_file dev present manual l'.temp_mode l.ret l'.ret
          l'.local s.world h in
      rw given (refl, refl, ap (λ m. scpi.result_int32 (if is_automatic m then 1 else 0) c1) e)

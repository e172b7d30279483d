-- ===== src/Commands/Refused.antt =====
-- scpi_rffe_cmd.c: a command that takes a parameter and is given none.
use rffe_uc_fw.Base.{ℤ, ◌≡◌, refl, ◌∙◌, false}
use rffe_uc_fw.Device.Os.{read_write, Os, IsDevice}
use rffe_uc_fw.Config.Pid.{Channel, ac, bd}
use rffe_uc_fw.Commands.Interface.{ScpiResult, res_err, Scpi, Board, GitVersion, State}
use rffe_uc_fw.Commands.Bodies.{dac_file, set_number, set_pid_constant, set_flag, set_address}
use rffe_uc_fw.Commands.Settings.{
  IsBoard, Setting, att, temp_ac, temp_bd, pid, kc, ti, td, Locals, set_command,
}
use rffe_uc_fw.Commands.Flags.{dhcp_mode, temp_control}
use rffe_uc_fw.Commands.Addresses.{ip_addr, gateway_addr, netmask}
use rffe_uc_fw.Commands.Outputs.{Outcome, not_opened, no_number, too_high, done, set_output-Outcome}
use rffe_uc_fw.Commands.{
  cfg_file, rffe_set_attenuation, rffe_set_temp_ac, rffe_set_temp_bd, rffe_set_pid_kc_ac,
  rffe_set_pid_ti_ac, rffe_set_pid_td_ac, rffe_set_pid_kc_bd, rffe_set_pid_ti_bd,
  rffe_set_pid_td_bd, rffe_set_temp_control, rffe_set_ip_addr, rffe_set_gateway_addr,
  rffe_set_netmask, rffe_set_dhcp_mode,
}
use rffe_uc_fw.Commands.All.{SetCommand, number, flag, output, address, Keeps, execute_set}

module _ {C N W : Type 0} (scpi : Scpi C N) (os : Os W) (board : Board W) (version : GitVersion)
    (dev : IsDevice os cfg_file) (isolated : IsBoard os board dev) where
  open dev use {contents}

  -- The parser has no parameter for a command.
  pub record HasNoParameter (c : C) : Type 0 where
    pub no_num : (scpi.param_number c).0 ≡ false
    pub no_flag : (scpi.param_bool c).0 ≡ false
    pub no_text : (scpi.param_copy_text 32 c).0 ≡ false

  -- The result is an error, and the record and the voltages are as before.
  abbrev pub IsRefused : State C W → ScpiResult × State C W → Type 0
  IsRefused s r = (r.0 ≡ res_err) × (contents r.1.world ≡ contents s.world) × Keeps s r.1

  pub dac_closed :
      (s : State C W) (fd : ℤ)
      → contents (os.close fd (os.open_file dac_file read_write s.world).1) ≡ contents s.world
  dac_closed s fd =
      dev.close-contents fd (os.open_file dac_file read_write s.world).1
      ∙ isolated.open_any dac_file read_write s.world

  Outcome-IsRefused :
      (ch : Channel) (s s' : State C W) (result : ScpiResult)
      → HasNoParameter s.context
      → Outcome scpi os board ch s result s'
      → IsRefused s (result, s')
  Outcome-IsRefused ch s _ _ none (not_opened fd) =
      (refl, isolated.open_any dac_file read_write s.world, (refl, refl))
  Outcome-IsRefused ch s _ _ none (no_number fd _) = (refl, dac_closed s _, (refl, refl))
  Outcome-IsRefused ch s _ _ none (too_high fd given high) = (refl, dac_closed s _, (refl, refl))
  Outcome-IsRefused ch s _ _ none (done fd given fine) = let no_num = none.no_num in absurd (cc)

  pub set_command-IsRefused :
      (q : Setting) (l : Locals) (s : State C W)
      → (scpi.param_number s.context).0 ≡ false
      → IsRefused s (set_command scpi os board q l s)
  unfolding rffe_set_attenuation rffe_set_temp_ac rffe_set_temp_bd rffe_set_pid_kc_ac
      rffe_set_pid_ti_ac rffe_set_pid_td_ac rffe_set_pid_kc_bd rffe_set_pid_ti_bd rffe_set_pid_td_bd
      set_number set_pid_constant
  set_command-IsRefused att l s none = rw none (refl, refl, (refl, refl))
  set_command-IsRefused temp_ac l s none = rw none (refl, refl, (refl, refl))
  set_command-IsRefused temp_bd l s none = rw none (refl, refl, (refl, refl))
  set_command-IsRefused (pid ac kc) l s none = rw none (refl, refl, (refl, refl))
  set_command-IsRefused (pid ac ti) l s none = rw none (refl, refl, (refl, refl))
  set_command-IsRefused (pid ac td) l s none = rw none (refl, refl, (refl, refl))
  set_command-IsRefused (pid bd kc) l s none = rw none (refl, refl, (refl, refl))
  set_command-IsRefused (pid bd ti) l s none = rw none (refl, refl, (refl, refl))
  set_command-IsRefused (pid bd td) l s none = rw none (refl, refl, (refl, refl))

  -- A command that is given none reports an error, and changes neither the record in the FERAM nor
  -- the voltages.
  pub execute_set-IsRefused :
      (c : SetCommand) (l : Locals) (s : State C W)
      → HasNoParameter s.context
      → IsRefused s (execute_set scpi os board version c l s)
  unfolding rffe_set_temp_control rffe_set_ip_addr rffe_set_gateway_addr rffe_set_netmask
      rffe_set_dhcp_mode set_flag set_address
  execute_set-IsRefused (number q) l s none = set_command-IsRefused q l s none.no_num
  execute_set-IsRefused (flag dhcp_mode) l s none = rw none.no_flag (refl, refl, (refl, refl))
  execute_set-IsRefused (flag temp_control) l s none = rw none.no_flag (refl, refl, (refl, refl))
  execute_set-IsRefused (output ch) l s none =
      Outcome-IsRefused ch s _ _ none (set_output-Outcome scpi os board ch s)
  execute_set-IsRefused (address ip_addr) l s none = rw none.no_text (refl, refl, (refl, refl))
  execute_set-IsRefused (address gateway_addr) l s none = rw none.no_text (refl, refl, (refl, refl))
  execute_set-IsRefused (address netmask) l s none = rw none.no_text (refl, refl, (refl, refl))

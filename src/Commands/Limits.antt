-- ===== src/Commands/Limits.antt =====
-- scpi_rffe_cmd.c: the voltages of the DAC and their limit, over sequences of commands.
use rffe_uc_fw.Base.{ℕ, ◌≡◌, refl, false, List, [], ◌∷◌}
use rffe_uc_fw.Device.Os.{Os}
use rffe_uc_fw.Config.Pid.{Channel, ac, bd}
use rffe_uc_fw.Commands.Interface.{ScpiResult, Scpi, Board, GitVersion, State}
use rffe_uc_fw.Commands.Bodies.{reply_float, reply_flag, reply_address}
use rffe_uc_fw.Commands.Settings.{Locals}
use rffe_uc_fw.Commands.Flags.{dhcp_mode, temp_control}
use rffe_uc_fw.Commands.Addresses.{ip_addr, gateway_addr, netmask}
use rffe_uc_fw.Commands.Outputs.{Outcome, not_opened, no_number, too_high, done, set_output-Outcome}
use rffe_uc_fw.Commands.{
  rffe_measure_temp_ac, rffe_measure_temp_bd, rffe_self_test, rffe_set_temp_control,
  rffe_get_temp_control, rffe_get_dac_output_ac, rffe_get_dac_output_bd, rffe_set_ip_addr,
  rffe_get_ip_addr, rffe_set_gateway_addr, rffe_get_gateway_addr, rffe_set_netmask,
  rffe_get_netmask, rffe_set_dhcp_mode, rffe_get_dhcp_mode, rffe_get_version, rffe_reset,
}
use rffe_uc_fw.Commands.All.{
  Command, set, number, flag, output, address, query_number, query_flag, query_output,
  query_address, measure, self_test, get_version, reset, Keeps, execute, execute_all,
  set_flag-Keeps, set_address-Keeps, measure_temp-Keeps, set_command-Keeps, query_command-Keeps,
}

module _ {C N W : Type 0} (scpi : Scpi C N) (os : Os W) (board : Board W)
    (version : GitVersion) where
  -- A property of both voltages.
  abbrev pub HoldBoth : (List ℕ → Type 0) → State C W → Type 0
  HoldBoth P s = P s.dac_ac × P s.dac_bd

  -- A property that the float of every number has which is not above 3.3.
  abbrev pub HoldsBelow : (List ℕ → Type 0) → Type 0
  HoldsBelow P = (v : N) → scpi.is_above v scpi.max_volts ≡ false → P (scpi.to_float v)

  HoldBoth-Keeps :
      (P : List ℕ → Type 0) (s s' : State C W) → Keeps s s' → HoldBoth P s → HoldBoth P s'
  HoldBoth-Keeps P s s' same ok = rw (same.0, same.1) ok

  HoldBoth-Outcome :
      (P : List ℕ → Type 0) (ch : Channel) (s s' : State C W) (result : ScpiResult)
      → HoldsBelow P
      → Outcome scpi os board ch s result s'
      → HoldBoth P s
      → HoldBoth P s'
  HoldBoth-Outcome P ch s _ _ below (not_opened fd) ok = ok
  HoldBoth-Outcome P ch s _ _ below (no_number fd none) ok = ok
  HoldBoth-Outcome P ch s _ _ below (too_high fd given high) ok = ok
  HoldBoth-Outcome P ac s _ _ below (done fd given fine) ok = (below _ fine, ok.1)
  HoldBoth-Outcome P bd s _ _ below (done fd given fine) ok = (ok.0, below _ fine)

  kept :
      (P : List ℕ → Type 0) (c : Command) (l : Locals) (s : State C W)
      → Keeps s (execute scpi os board version c l s).1
      → HoldBoth P s
      → HoldBoth P (execute scpi os board version c l s).1
  kept P c l s = HoldBoth-Keeps P s (execute scpi os board version c l s).1

  -- One command.
  pub execute-HoldBoth :
      (P : List ℕ → Type 0) (c : Command) (l : Locals) (s : State C W)
      → HoldsBelow P
      → HoldBoth P s
      → HoldBoth P (execute scpi os board version c l s).1
  unfolding rffe_measure_temp_ac rffe_measure_temp_bd rffe_self_test rffe_set_temp_control
      rffe_get_temp_control rffe_get_dac_output_ac rffe_get_dac_output_bd rffe_set_ip_addr
      rffe_get_ip_addr rffe_set_gateway_addr rffe_get_gateway_addr rffe_set_netmask rffe_get_netmask
      rffe_set_dhcp_mode rffe_get_dhcp_mode rffe_get_version rffe_reset reply_float reply_flag
      reply_address
  execute-HoldBoth P (set (number q)) l s below =
      kept P (set (number q)) l s (set_command-Keeps scpi os board version q l s)
  execute-HoldBoth P (set (flag dhcp_mode)) l s below =
      kept P (set (flag dhcp_mode)) l s (set_flag-Keeps scpi os board version _ s)
  execute-HoldBoth P (set (flag temp_control)) l s below =
      kept P (set (flag temp_control)) l s (set_flag-Keeps scpi os board version _ s)
  execute-HoldBoth P (set (output ch)) l s below =
      HoldBoth-Outcome P ch s _ _ below (set_output-Outcome scpi os board ch s)
  execute-HoldBoth P (set (address ip_addr)) l s below =
      kept P (set (address ip_addr)) l s (set_address-Keeps scpi os board version _ l.value s)
  execute-HoldBoth P (set (address gateway_addr)) l s below =
      kept P (set (address gateway_addr)) l s (set_address-Keeps scpi os board version _ l.value s)
  execute-HoldBoth P (set (address netmask)) l s below =
      kept P (set (address netmask)) l s (set_address-Keeps scpi os board version _ l.value s)
  execute-HoldBoth P (query_number q) l s below =
      kept P (query_number q) l s (query_command-Keeps scpi os board version q l s)
  execute-HoldBoth P (query_flag dhcp_mode) l s below = λ ok. ok
  execute-HoldBoth P (query_flag temp_control) l s below = λ ok. ok
  execute-HoldBoth P (query_output ac) l s below = λ ok. ok
  execute-HoldBoth P (query_output bd) l s below = λ ok. ok
  execute-HoldBoth P (query_address ip_addr) l s below = λ ok. ok
  execute-HoldBoth P (query_address gateway_addr) l s below = λ ok. ok
  execute-HoldBoth P (query_address netmask) l s below = λ ok. ok
  execute-HoldBoth P (measure ac) l s below =
      kept P (measure ac) l s (measure_temp-Keeps scpi os board version _ s)
  execute-HoldBoth P (measure bd) l s below =
      kept P (measure bd) l s (measure_temp-Keeps scpi os board version _ s)
  execute-HoldBoth P self_test l s below = λ ok. ok
  execute-HoldBoth P get_version l s below = λ ok. ok
  execute-HoldBoth P reset l s below = λ ok. ok

  -- The float of a number that is not above 3.3.
  abbrev pub IsAllowed : List ℕ → Type 0
  IsAllowed x = (v : N) × (scpi.is_above v scpi.max_volts ≡ false) × (x ≡ scpi.to_float v)

  abbrev pub AreAllowed : State C W → Type 0
  AreAllowed = HoldBoth IsAllowed

  -- If both voltages are floats of numbers that are not above 3.3, they are so after any sequence
  -- of commands, whatever the parser, the devices and the locals hold.
  pub execute_all-AreAllowed :
      (cs : List (Command × Locals)) (s : State C W)
      → AreAllowed s
      → AreAllowed (execute_all scpi os board version cs s)
  execute_all-AreAllowed [] s ok = ok
  execute_all-AreAllowed ((c, l) ∷ rest) s ok =
      execute_all-AreAllowed rest (execute scpi os board version c l s).1
        (execute-HoldBoth IsAllowed c l s (λ v fine. (v, fine, refl)) ok)

-- ===== src/Commands/All.antt =====
-- scpi_rffe_cmd.c: what all the commands have in common, and sequences of them.
use rffe_uc_fw.Base.{ℕ, ◌≡◌, inl, inr, refl, Bool, List, [], ◌∷◌, ℤ, String, Bool-cases}
use rffe_uc_fw.Device.Os.{read_only, Os}
use rffe_uc_fw.Config.{PidConstants}
use rffe_uc_fw.Config.Pid.{Channel, ac, bd}
use rffe_uc_fw.Commands.Interface.{ScpiResult, Scpi, Board, GitVersion, State}
use rffe_uc_fw.Commands.Bodies.{
  is_above_zero, is_zero, measure_temp, set_number, set_pid_constant, reply_float, set_flag,
  set_address,
}
use rffe_uc_fw.Commands.Settings.{
  Setting, att, temp_ac, temp_bd, pid, kc, ti, td, Locals, set_command, query_command,
}
use rffe_uc_fw.Commands.Flags.{Flag, set_flag_command, query_flag_command}
use rffe_uc_fw.Commands.Addresses.{Address, set_address_command, query_address_command}
use rffe_uc_fw.Commands.Outputs.{set_output_command, query_output_command}
use rffe_uc_fw.Commands.{
  rffe_measure_temp_ac, rffe_measure_temp_bd, rffe_set_attenuation, rffe_get_attenuation,
  rffe_self_test, rffe_set_temp_ac, rffe_get_temp_ac, rffe_set_temp_bd, rffe_get_temp_bd,
  rffe_set_pid_kc_ac, rffe_get_pid_kc_ac, rffe_set_pid_ti_ac, rffe_get_pid_ti_ac,
  rffe_set_pid_td_ac, rffe_get_pid_td_ac, rffe_set_pid_kc_bd, rffe_get_pid_kc_bd,
  rffe_set_pid_ti_bd, rffe_get_pid_ti_bd, rffe_set_pid_td_bd, rffe_get_pid_td_bd, rffe_get_version,
  rffe_reset,
}

-- The commands that take a parameter.
pub data SetCommand : Type 0 where
  number : Setting → SetCommand
  flag : Flag → SetCommand
  output : Channel → SetCommand
  address : Address → SetCommand

pub data Command : Type 0 where
  set : SetCommand → Command
  query_number : Setting → Command
  query_flag : Flag → Command
  query_output : Channel → Command
  query_address : Address → Command
  measure : Channel → Command
  self_test get_version reset : Command

-- Two states with the same voltages.
abbrev pub Keeps : {C W : Type 0} → State C W → State C W → Type 0
Keeps s s' = (s'.dac_ac ≡ s.dac_ac) × (s'.dac_bd ≡ s.dac_bd)

module _ {C N W : Type 0} (scpi : Scpi C N) (os : Os W) (board : Board W)
    (version : GitVersion) where
  abbrev pub execute_set : SetCommand → Locals → State C W → ScpiResult × State C W
  execute_set (number q) l = set_command scpi os board q l
  execute_set (flag f) l = set_flag_command scpi os board f l
  execute_set (output ch) l = set_output_command scpi os board ch
  execute_set (address a) l = set_address_command scpi os board a l.value

  abbrev pub execute : Command → Locals → State C W → ScpiResult × State C W
  execute (set c) l = execute_set c l
  execute (query_number q) l = query_command scpi os board q l
  execute (query_flag f) l = query_flag_command scpi os board f l
  execute (query_output ch) l = query_output_command scpi os board ch
  execute (query_address a) l = query_address_command scpi os board a l.value
  execute (measure ac) l = rffe_measure_temp_ac scpi os board
  execute (measure bd) l = rffe_measure_temp_bd scpi os board
  execute self_test l = rffe_self_test scpi os board
  execute get_version l = rffe_get_version scpi os board version
  execute reset l = rffe_reset scpi os board

  -- A connection's commands, each with what its locals hold.
  abbrev pub execute_all : List (Command × Locals) → State C W → State C W
  execute_all [] s = s
  execute_all ((c, l) ∷ rest) s = execute_all rest (execute c l s).1

  set_number-Keeps :
      (store : List ℕ → W → W) (s : State C W) → Keeps s (set_number scpi os store s).1
  unfolding set_number
  set_number-Keeps store s = elim (Bool-cases (scpi.param_number s.context).0) [
    | inl e ↦ rw e (refl, refl)
    | inr e ↦ rw e (refl, refl)
  ]

  set_pid_constant-Keeps :
      (get : W → ℤ × PidConstants × W) (store : PidConstants → W → ℤ × W)
      (replace : List ℕ → PidConstants → PidConstants) (s : State C W)
      → Keeps s (set_pid_constant scpi os get store replace s).1
  unfolding set_pid_constant
  set_pid_constant-Keeps get store replace s = elim (Bool-cases (scpi.param_number s.context).0) [
    | inl e ↦ rw e (refl, refl)
    | inr e ↦ rw e (refl, refl)
  ]

  pub attenuation-Keeps : (s : State C W) → Keeps s (rffe_set_attenuation scpi os board s).1
  unfolding rffe_set_attenuation
  attenuation-Keeps s = elim (Bool-cases (scpi.param_number s.context).0) [
    | inl e ↦ rw e (refl, refl)
    | inr e ↦ rw e (refl, refl)
  ]

  pub set_flag-Keeps : (store : Bool → W → W) (s : State C W) → Keeps s (set_flag scpi os store s).1
  unfolding set_flag
  set_flag-Keeps store s = elim (Bool-cases (scpi.param_bool s.context).0) [
    | inl e ↦ rw e (refl, refl)
    | inr e ↦ rw e (refl, refl)
  ]

  pub set_address-Keeps :
      (store : List ℕ → W → W) (junk : List ℕ) (s : State C W)
      → Keeps s (set_address scpi os store junk s).1
  unfolding set_address
  set_address-Keeps store junk s = elim (Bool-cases (scpi.param_copy_text 32 s.context).0) [
    | inr e ↦ rw e (refl, refl)
    | inl e ↦ elim (Bool-cases (is_zero (scpi.inet_pton (scpi.param_copy_text 32 s.context).1).0)) [
      | inl z ↦ rw (e, z) (refl, refl)
      | inr z ↦ rw (e, z) (refl, refl)
    ]
  ]

  pub measure_temp-Keeps : (path : String) (s : State C W) → Keeps s (measure_temp scpi os path s).1
  unfolding measure_temp
  measure_temp-Keeps path s =
      elim (Bool-cases (is_above_zero (os.open_file path read_only s.world).0)) [
        | inl e ↦ rw e (refl, refl)
        | inr e ↦ rw e (refl, refl)
      ]

  pub set_command-Keeps :
      (q : Setting) (l : Locals) (s : State C W) → Keeps s (set_command scpi os board q l s).1
  unfolding rffe_set_temp_ac rffe_set_temp_bd rffe_set_pid_kc_ac rffe_set_pid_ti_ac
      rffe_set_pid_td_ac rffe_set_pid_kc_bd rffe_set_pid_ti_bd rffe_set_pid_td_bd
  set_command-Keeps att l s = attenuation-Keeps s
  set_command-Keeps temp_ac l s = set_number-Keeps _ s
  set_command-Keeps temp_bd l s = set_number-Keeps _ s
  set_command-Keeps (pid ac kc) l s = set_pid_constant-Keeps _ _ _ s
  set_command-Keeps (pid ac ti) l s = set_pid_constant-Keeps _ _ _ s
  set_command-Keeps (pid ac td) l s = set_pid_constant-Keeps _ _ _ s
  set_command-Keeps (pid bd kc) l s = set_pid_constant-Keeps _ _ _ s
  set_command-Keeps (pid bd ti) l s = set_pid_constant-Keeps _ _ _ s
  set_command-Keeps (pid bd td) l s = set_pid_constant-Keeps _ _ _ s

  pub query_command-Keeps :
      (q : Setting) (l : Locals) (s : State C W) → Keeps s (query_command scpi os board q l s).1
  unfolding rffe_get_attenuation rffe_get_temp_ac rffe_get_temp_bd rffe_get_pid_kc_ac
      rffe_get_pid_ti_ac rffe_get_pid_td_ac rffe_get_pid_kc_bd rffe_get_pid_ti_bd rffe_get_pid_td_bd
      reply_float
  query_command-Keeps att l s = (refl, refl)
  query_command-Keeps temp_ac l s = (refl, refl)
  query_command-Keeps temp_bd l s = (refl, refl)
  query_command-Keeps (pid ac kc) l s = (refl, refl)
  query_command-Keeps (pid ac ti) l s = (refl, refl)
  query_command-Keeps (pid ac td) l s = (refl, refl)
  query_command-Keeps (pid bd kc) l s = (refl, refl)
  query_command-Keeps (pid bd ti) l s = (refl, refl)
  query_command-Keeps (pid bd td) l s = (refl, refl)

-- ===== src/Commands/Kept.antt =====
-- scpi_rffe_cmd.c: what the commands leave in the record that do not set the number in question.
use rffe_uc_fw.Base.{
  ℕ, String, ◌≤◌, ◌≡◌, ◌≢◌, inl, inr, refl, sym, ap, ◌∙◌, Bool, List, length, overlay, slice,
  length-splice, length-overlay, Bool-cases, pos, arith,
}
use rffe_uc_fw.Device.Os.{read_only, read_write, Os, IsDevice}
use rffe_uc_fw.Config.Transfers.{IsPresent, get_eth-contents, get_temp_mode-contents}
use rffe_uc_fw.Config.Fields.{record_size, set_field, offset_of, get_field-slice, set_field-splice}
use rffe_uc_fw.Config.Modes.{set_eth-splice, set_temp_mode-splice}
use rffe_uc_fw.Config.Pid.{Channel, ac, bd}
use rffe_uc_fw.Commands.Interface.{ScpiResult, Scpi, HasSizes, Board, GitVersion, State}
use rffe_uc_fw.Commands.Bodies.{
  dac_file, is_above_zero, is_zero, measure_temp, set_flag, reply_flag, set_address, reply_address,
  reply_float,
}
use rffe_uc_fw.Commands.Settings.{
  IsBoard, Setting, Locals, IsLocals, place, set_command, length-encode,
}
use rffe_uc_fw.Commands.Numbers.{set_command_lem, query_command_lem}
use rffe_uc_fw.Commands.Replies.{slice-splice_setting}
use rffe_uc_fw.Commands.Flags.{Flag, dhcp_mode, temp_control, set_flag_command, query_flag_command}
use rffe_uc_fw.Commands.Addresses.{
  Address, ip_addr, gateway_addr, netmask, field_of, field_of-size, set_address_command,
  query_address_command,
}
use rffe_uc_fw.Commands.Outputs.{Outcome, not_opened, no_number, too_high, done, set_output-Outcome}
use rffe_uc_fw.Commands.Refused.{set_command-IsRefused, dac_closed}
use rffe_uc_fw.Commands.All.{
  number, flag, output, address, Command, set, query_number, query_flag, query_output,
  query_address, measure, self_test, get_version, reset, execute,
}
use rffe_uc_fw.Commands.{
  cfg_file, rffe_measure_temp_ac, rffe_measure_temp_bd, rffe_self_test, rffe_set_temp_control,
  rffe_get_temp_control, rffe_get_dac_output_ac, rffe_get_dac_output_bd, rffe_set_ip_addr,
  rffe_get_ip_addr, rffe_set_gateway_addr, rffe_get_gateway_addr, rffe_set_netmask,
  rffe_get_netmask, rffe_set_dhcp_mode, rffe_get_dhcp_mode, rffe_get_version, rffe_reset,
}
use rffe_uc_fw.Commands.Reach.{
  KeepsSetting, same-KeepsSetting, splice-KeepsSetting, byte_apart, address_apart,
}

module _ {C N W : Type 0} (scpi : Scpi C N) (os : Os W) (board : Board W) (version : GitVersion)
    (dev : IsDevice os cfg_file) (present : IsPresent os cfg_file) (isolated : IsBoard os board dev)
    (sizes : HasSizes scpi) (q : Setting) where
  open dev use {contents}

  -- The setting is in the second world as in the first.
  abbrev pub IsKept : W → W → Type 0
  IsKept w w' = KeepsSetting q (contents w) (contents w')

  set_flag-IsKept :
      (store : Bool → W → W) (s : State C W)
      → ((value : Bool) → IsKept s.world (store value s.world))
      → IsKept s.world (set_flag scpi os store s).1.world
  unfolding set_flag
  set_flag-IsKept store s kept = elim (Bool-cases (scpi.param_bool s.context).0) [
    | inl e ↦ rw e (kept (scpi.param_bool s.context).1)
    | inr e ↦ rw e (same-KeepsSetting q refl)
  ]

  set_address-IsKept :
      (store : List ℕ → W → W) (junk : List ℕ) (s : State C W)
      → ((bs : List ℕ) → length bs ≡ length junk → IsKept s.world (store bs s.world))
      → IsKept s.world (set_address scpi os store junk s).1.world
  unfolding set_address
  set_address-IsKept store junk s kept =
      let text = scpi.param_copy_text 32 s.context in
      let addr = (scpi.inet_pton text.1).1 in
      elim (Bool-cases text.0) [
        | inr e ↦ rw e (same-KeepsSetting q refl)
        | inl e ↦ elim (Bool-cases (is_zero (scpi.inet_pton text.1).0)) [
          | inl z ↦ rw (e, z) (same-KeepsSetting q refl)
          | inr z ↦ rw (e, z) (kept (overlay addr junk) (length-overlay addr junk))
        ]
      ]

  set_number-IsKept :
      (p : Setting) (l : Locals) (s : State C W)
      → p ≢ q
      → IsLocals l
      → record_size ≤ length (contents s.world)
      → IsKept s.world (set_command scpi os board p l s).1.world
  set_number-IsKept p l s ne loc h =
      let given = scpi.param_number s.context in
      elim (Bool-cases given.0) [
        | inr e ↦
            same-KeepsSetting q (set_command-IsRefused scpi os board version dev isolated p l s e).1
        | inl e ↦
            let (_, _, wrote) =
              set_command_lem scpi os board dev present isolated sizes p l s given.1 given.2
                (λ i. (e i, given.1, given.2)) loc h in
            let n = length-encode scpi os board sizes p given.1 in
            record {
              same_length = ap length wrote ∙ length-splice (place p) _ _;
              same_slice = ap (slice (place q) 4) wrote ∙ slice-splice_setting p q _ _ ne n;
            }
      ]

  set_flag_command-IsKept :
      (f : Flag) (l : Locals) (s : State C W)
      → record_size ≤ length (contents s.world)
      → IsKept s.world (set_flag_command scpi os board f l s).1.world
  unfolding rffe_set_dhcp_mode rffe_set_temp_control
  set_flag_command-IsKept dhcp_mode l s h = set_flag-IsKept _ s λ value.
      rw (set_eth-splice os cfg_file dev present _ s.world h)
        (splice-KeepsSetting q 80 _ _ (byte_apart q 80 (omega arith) (omega arith)))
  set_flag_command-IsKept temp_control l s h = set_flag-IsKept _ s λ value.
      rw (set_temp_mode-splice os cfg_file dev present _ l.ret s.world h)
        (splice-KeepsSetting q 81 _ _ (byte_apart q 81 (omega arith) (omega arith)))

  address-IsKept :
      (a : Address) (bs : List ℕ) (w : W)
      → length bs ≡ 4
      → record_size ≤ length (contents w)
      → IsKept w (set_field os cfg_file (field_of a) (pos 0) bs w).1
  address-IsKept a bs w n h =
      rw
        (set_field-splice os cfg_file dev present (field_of a) (pos 0) bs w h
          (n ∙ sym (field_of-size a)))
        (splice-KeepsSetting q (offset_of (field_of a)) bs (contents w)
          (inl (omega (arith, address_apart a q))))

  set_address_command-IsKept :
      (a : Address) (junk : List ℕ) (s : State C W)
      → length junk ≡ 4
      → record_size ≤ length (contents s.world)
      → IsKept s.world (set_address_command scpi os board a junk s).1.world
  unfolding rffe_set_ip_addr rffe_set_gateway_addr rffe_set_netmask
  set_address_command-IsKept ip_addr junk s n h =
      set_address-IsKept _ junk s λ bs m. address-IsKept ip_addr bs s.world (m ∙ n) h
  set_address_command-IsKept gateway_addr junk s n h =
      set_address-IsKept _ junk s λ bs m. address-IsKept gateway_addr bs s.world (m ∙ n) h
  set_address_command-IsKept netmask junk s n h =
      set_address-IsKept _ junk s λ bs m. address-IsKept netmask bs s.world (m ∙ n) h

  Outcome-IsKept :
      (ch : Channel) (s s' : State C W) (result : ScpiResult)
      → Outcome scpi os board ch s result s'
      → IsKept s.world s'.world
  Outcome-IsKept ch s _ _ (not_opened fd) =
      same-KeepsSetting q (isolated.open_any dac_file read_write s.world)
  Outcome-IsKept ch s _ _ (no_number fd e) =
      same-KeepsSetting q (dac_closed scpi os board version dev isolated s _)
  Outcome-IsKept ch s _ _ (too_high fd given high) =
      same-KeepsSetting q (dac_closed scpi os board version dev isolated s _)
  Outcome-IsKept ac s _ _ (done fd given fine) =
      same-KeepsSetting q (dac_closed scpi os board version dev isolated s _)
  Outcome-IsKept bd s _ _ (done fd given fine) =
      same-KeepsSetting q (dac_closed scpi os board version dev isolated s _)

  measure_temp-IsKept :
      (path : String) (s : State C W) → IsKept s.world (measure_temp scpi os path s).1.world
  unfolding measure_temp
  measure_temp-IsKept path s =
      let (fd, w1) = os.open_file path read_only s.world in
      let same = isolated.open_any path read_only s.world in
      elim (Bool-cases (is_above_zero fd)) [
        | inl e ↦
            rw e (same-KeepsSetting q (dev.close-contents fd _ ∙ isolated.read_any fd 4 w1 ∙ same))
        | inr e ↦ rw e (same-KeepsSetting q same)
      ]

  query_flag-IsKept :
      (f : Flag) (l : Locals) (s : State C W)
      → record_size ≤ length (contents s.world)
      → IsKept s.world (query_flag_command scpi os board f l s).1.world
  unfolding rffe_get_dhcp_mode rffe_get_temp_control reply_flag
  query_flag-IsKept dhcp_mode l s h =
      same-KeepsSetting q (get_eth-contents os cfg_file dev present _ _ s.world (omega arith))
  query_flag-IsKept temp_control l s h =
      same-KeepsSetting q
        (get_temp_mode-contents os cfg_file dev present _ _ _ s.world (omega arith))

  query_address-IsKept :
      (a : Address) (junk : List ℕ) (s : State C W)
      → record_size ≤ length (contents s.world)
      → IsKept s.world (query_address_command scpi os board a junk s).1.world
  unfolding rffe_get_ip_addr rffe_get_gateway_addr rffe_get_netmask reply_address
  query_address-IsKept ip_addr junk s h =
      same-KeepsSetting q
        (get_field-slice os cfg_file dev present (field_of ip_addr) (pos 0) junk s.world h).1
  query_address-IsKept gateway_addr junk s h =
      same-KeepsSetting q
        (get_field-slice os cfg_file dev present (field_of gateway_addr) (pos 0) junk s.world h).1
  query_address-IsKept netmask junk s h =
      same-KeepsSetting q
        (get_field-slice os cfg_file dev present (field_of netmask) (pos 0) junk s.world h).1

  -- What a command must not be, to leave the setting alone.
  abbrev pub IsOther : Command → Type 0
  IsOther (set (number p)) = p ≢ q
  IsOther _ = Unit {0}

  -- A command that does not set the setting leaves it in the record as it was, whatever else it
  -- does and whether it succeeds or not, if a reset of the board leaves the FERAM alone.
  pub execute-IsKept :
      ((w : W) → contents (board.board_reset w) ≡ contents w)
      → (c : Command) (l : Locals) (s : State C W) → IsOther c
      → IsLocals l
      → record_size ≤ length (contents s.world)
      → IsKept s.world (execute scpi os board version c l s).1.world
  unfolding rffe_measure_temp_ac rffe_measure_temp_bd rffe_self_test rffe_get_version rffe_reset
      rffe_get_dac_output_ac rffe_get_dac_output_bd reply_float
  execute-IsKept reset_keeps (set (number p)) l s ne loc h = set_number-IsKept p l s ne loc h
  execute-IsKept reset_keeps (set (flag f)) l s _ loc h = set_flag_command-IsKept f l s h
  execute-IsKept reset_keeps (set (output ch)) l s _ loc h =
      Outcome-IsKept ch s _ _ (set_output-Outcome scpi os board ch s)
  execute-IsKept reset_keeps (set (address a)) l s _ loc h =
      set_address_command-IsKept a l.value s loc.value_size h
  execute-IsKept reset_keeps (query_number p) l s _ loc h =
      same-KeepsSetting q (query_command_lem scpi os board dev present isolated sizes p l s loc h).2
  execute-IsKept reset_keeps (query_flag f) l s _ loc h = query_flag-IsKept f l s h
  execute-IsKept reset_keeps (query_output ac) l s _ loc h = same-KeepsSetting q refl
  execute-IsKept reset_keeps (query_output bd) l s _ loc h = same-KeepsSetting q refl
  execute-IsKept reset_keeps (query_address a) l s _ loc h = query_address-IsKept a l.value s h
  execute-IsKept reset_keeps (measure ac) l s _ loc h = measure_temp-IsKept _ s
  execute-IsKept reset_keeps (measure bd) l s _ loc h = measure_temp-IsKept _ s
  execute-IsKept reset_keeps self_test l s _ loc h = same-KeepsSetting q refl
  execute-IsKept reset_keeps get_version l s _ loc h = same-KeepsSetting q refl
  execute-IsKept reset_keeps reset l s _ loc h = same-KeepsSetting q (reset_keeps s.world)

-- ===== src/System/Passes.antt =====
-- temp_control.c and scpi_rffe_cmd.c: passes of the temperature control that no command divides, and
-- a command before such a pass.
use rffe_uc_fw.Base.{
  ℕ, ◌≤◌, ◌≡◌, refl, sym, ◌∙◌, ap, true, false, List, [], ◌∷◌, is_neg, length, arith, slice,
}
use rffe_uc_fw.Device.Os.{read_write, Os, IsDevice}
use rffe_uc_fw.Config.{manual, config_get_temp_control_mode, temp_mode_of_byte}
use rffe_uc_fw.Config.Layout.{temp_ctrl_mode_offset}
use rffe_uc_fw.Config.Transfers.{IsPresent, get_temp_mode_lem, first_byte}
use rffe_uc_fw.Config.Fields.{record_size}
use rffe_uc_fw.Config.Pid.{Channel, ac, bd}
use rffe_uc_fw.PidCtrl.{Floats}
use rffe_uc_fw.TempControl.{Conversions, Fds, Control, Stack, control_pass, control_loop, by_mode}
use rffe_uc_fw.Commands.Interface.{Scpi, Board, GitVersion}
use rffe_uc_fw.Commands.{cfg_file, rffe_set_dac_output_ac, rffe_set_dac_output_bd}
use rffe_uc_fw.Commands.Bodies.{dac_file, set_dac_output}
use rffe_uc_fw.Commands.Settings.{IsBoard, Locals}
use rffe_uc_fw.Commands.All.{set, output}
use rffe_uc_fw.System.{
  reads_mode, System, Event, client, server, put_voltage, server_turn, happen, run,
}

-- The four parts of a pass, and passes one after the other.
abbrev pub whole_passes : {C : Type 0} → List Stack → List (Event C)
whole_passes [] = []
whole_passes (st ∷ rest) = server st ∷ server st ∷ server st ∷ server st ∷ whole_passes rest

abbrev pub at_start : {W : Type 0} → Control W → List (ℕ × List ℕ) → System W
at_start c past = record { control = c; turn = reads_mode; written = past }

-- The two voltages with their channels of the DAC, 3 for AC and 2 for BD, after `x` is stored in one
-- of them, the last written first.
abbrev pub with_output : {W : Type 0} → Channel → List ℕ → Control W → List (ℕ × List ℕ)
with_output ac x c = (2, c.dac_bd) ∷ (3, x) ∷ []
with_output bd x c = (2, x) ∷ (3, c.dac_ac) ∷ []

module _ {C N W : Type 0} (scpi : Scpi C N) (os : Os W) (board : Board W) (version : GitVersion)
    (fl : Floats) (conv : Conversions) (fds : Fds) where
  -- Passes with no command in between make the loop of the temperature control.
  run-whole_passes :
      (stacks : List Stack) (c : Control W) (past : List (ℕ × List ℕ))
      → (run scpi os board version fl conv fds (whole_passes stacks) (at_start c past)).control
        ≡ control_loop os fl conv fds stacks c
  unfolding run happen server_turn put_voltage control_loop control_pass
  run-whole_passes [] c past = refl
  run-whole_passes (st ∷ rest) c past = run-whole_passes rest (control_pass os fl conv fds st c) _

  -- What a pass in the mode manual writes to the DAC are the two voltages as they were.
  pass_manual :
      (st : Stack) (c : Control W)
      → (config_get_temp_control_mode os cfg_file (st.ret 0) st.byte c.tctrl c.world).1 ≡ manual
      → (run scpi os board version fl conv fds (whole_passes (st ∷ [])) (at_start c [])).written
        ≡ ((2, c.dac_bd) ∷ (3, c.dac_ac) ∷ [])
  unfolding run happen server_turn put_voltage by_mode
  pass_manual st c m = rw m refl

  -- A command that sets a voltage, with a number that is not above 3.3 and a DAC that opens, and
  -- then a pass without a division while the FERAM says manual: the pass writes to channel 3 of the DAC
  -- the voltage of AC and then to channel 2 that of BD, where the one that was set is the float of that
  -- number, and the other is as it was.
  pub set_output-written :
      (dev : IsDevice os cfg_file)
      → IsPresent os cfg_file
      → IsBoard os board dev
      → (ch : Channel) (context c1 : C) (v : N) (l : Locals) (st : Stack) (c : Control W)
      → scpi.param_number context ≡ (true, v, c1)
      → scpi.is_above v scpi.max_volts ≡ false
      → is_neg (os.open_file dac_file read_write c.world).0 ≡ false
      → (config_get_temp_control_mode os cfg_file (st.ret 0) st.byte c.tctrl c.world).1 ≡ manual
      → record_size ≤ length (dev.contents c.world)
      → (run scpi os board version fl conv fds
          (client context (set (output ch)) l ∷ whole_passes (st ∷ []))
          (at_start c [])).written
        ≡ with_output ch (scpi.to_float v) c
  unfolding run happen rffe_set_dac_output_ac rffe_set_dac_output_bd set_dac_output
  set_output-written dev present isolated ch context c1 v l st c given fine fd mode h = by ch
    where
      w1 : W
      w1 =
          os.close (os.open_file dac_file read_write c.world).0
            (os.open_file dac_file read_write c.world).1

      same : dev.contents w1 ≡ dev.contents c.world
      same = dev.close-contents _ _ ∙ isolated.open_any dac_file read_write c.world

      still : (config_get_temp_control_mode os cfg_file (st.ret 0) st.byte c.tctrl w1).1 ≡ manual
      still =
          get_temp_mode_lem os cfg_file dev present (st.ret 0) st.byte c.tctrl w1
            (rw same (omega arith))
          ∙ ap (λ bs. temp_mode_of_byte (first_byte st.byte (slice temp_ctrl_mode_offset 1 bs)))
              same
          ∙ sym (
              get_temp_mode_lem os cfg_file dev present (st.ret 0) st.byte c.tctrl c.world
                (omega arith))
          ∙ mode

      by :
          (ch : Channel)
          → (run scpi os board version fl conv fds
              (client context (set (output ch)) l ∷ whole_passes (st ∷ []))
              (at_start c [])).written
            ≡ with_output ch (scpi.to_float v) c
      by ac =
          rw (given, fd, fine)
            (pass_manual st (record c { world = w1; dac_ac = scpi.to_float v }) still)
      by bd =
          rw (given, fd, fine)
            (pass_manual st (record c { world = w1; dac_bd = scpi.to_float v }) still)

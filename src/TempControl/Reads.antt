-- ===== src/TempControl/Reads.antt =====
-- temp_control.c: a pass through the loop and the configuration.
use rffe_uc_fw.Base.{ℕ, ◌≤◌, ◌≡◌, refl, ◌∙◌, ℤ, List, length}
use rffe_uc_fw.Device.Os.{Os, IsDevice}
use rffe_uc_fw.Config.{TempCtrlMode, automatic, manual}
use rffe_uc_fw.Config.Transfers.{IsPresent}
use rffe_uc_fw.Config.Fields.{record_size, setpoint_ac, setpoint_bd, get_field-slice}
use rffe_uc_fw.Config.Pid.{ac, bd, get_pid_of-contents}
use rffe_uc_fw.PidCtrl.{Floats}
use rffe_uc_fw.TempControl.{cfg_file, Conversions, Fds, Control, Stack, automatic_pass, by_mode}

module _ {W : Type 0} (os : Os W) (fl : Floats) (conv : Conversions) (dev : IsDevice os cfg_file)
    (present : IsPresent os cfg_file)
    (read_any : (fd : ℤ) (n : ℕ) (w : W)
      → dev.contents (os.read_file fd n w).2 ≡ dev.contents w) where
  open dev use {contents}

  abbrev feram : Control W → List ℕ
  feram s = contents s.world

  automatic_pass-contents :
      (fds : Fds) (st : Stack) (s : Control W)
      → record_size ≤ length (feram s)
      → feram (automatic_pass os fl conv fds st s) ≡ feram s
  unfolding automatic_pass
  automatic_pass-contents fds st s h =
      let e1 = get_pid_of-contents os cfg_file dev present bd (st.ret 1) _ s.world h in
      let e2 = get_pid_of-contents os cfg_file dev present ac (st.ret 2) _ _ (rw e1 h) ∙ e1 in
      let e3 =
        (get_field-slice os cfg_file dev present setpoint_ac (st.ret 3) s.pid_ac.setpoint _
          (rw e2 h)).1
        ∙ e2 in
      let e4 =
        (get_field-slice os cfg_file dev present setpoint_bd (st.ret 4) s.pid_bd.setpoint _
          (rw e3 h)).1
        ∙ e3 in
      read_any fds.temp_bd_fd 4 _ ∙ read_any fds.temp_ac_fd 4 _ ∙ e4

  pub by_mode-contents :
      (fds : Fds) (st : Stack) (s : Control W)
      → record_size ≤ length (feram s)
      → feram (by_mode os fl conv fds st s) ≡ feram s
  unfolding by_mode
  by_mode-contents fds st s h = cases s.tctrl
    where
      cases :
          (m : TempCtrlMode)
          → feram (elim m [ automatic ↦ automatic_pass os fl conv fds st s | manual ↦ s ]) ≡ feram s
      cases automatic = automatic_pass-contents fds st s h
      cases manual = refl

-- ===== src/TempControl/Limits.antt =====
-- temp_control.c: the two voltages and their limits, over the passes of the loop.
use rffe_uc_fw.Base.{ℕ, refl, inl, inr, ◌||◌, List, [], ◌∷◌, is_neg, Bool-cases}
use rffe_uc_fw.Device.Os.{read_only, read_write, Os}
use rffe_uc_fw.Config.{TempCtrlMode, automatic, manual, config_get_temp_control_mode}
use rffe_uc_fw.PidCtrl.{Floats, float_zero}
use rffe_uc_fw.PidCtrl.Bounds.{IsWithin, AreLimits, HasLimits, pid_compute-IsWithin}
use rffe_uc_fw.TempControl.{
  cfg_file, dac_file, max_volts, Conversions, Fds, Control, Stack, initialised, automatic_pass,
  by_mode, write_outputs, control_pass, control_loop, temp_control_server,
}

-- A property of both voltages.
abbrev pub HaveBoth : (List ℕ → Type 0) → {W : Type 0} → Control W → Type 0
HaveBoth P s = P s.dac_ac × P s.dac_bd

module _ (fl : Floats) where
  abbrev pub AreWithin : {W : Type 0} → Control W → Type 0
  AreWithin = HaveBoth (IsWithin fl float_zero max_volts)

  -- Both controllers have the limits, and both voltages a property.
  abbrev pub IsGood : (List ℕ → Type 0) → {W : Type 0} → Control W → Type 0
  IsGood P s =
      HasLimits fl float_zero max_volts s.pid_ac
      × HasLimits fl float_zero max_volts s.pid_bd
      × HaveBoth P s

  -- A property of all voltages within the limits.
  abbrev pub HoldsWithin : (List ℕ → Type 0) → Type 0
  HoldsWithin P = (x : List ℕ) → IsWithin fl float_zero max_volts x → P x

module _ {W : Type 0} (os : Os W) (fl : Floats) (conv : Conversions)
    (lim : AreLimits fl float_zero max_volts) where
  automatic_pass-IsGood :
      (P : List ℕ → Type 0) (fds : Fds) (st : Stack) (s : Control W)
      → HoldsWithin fl P
      → IsGood fl P s
      → IsGood fl P (automatic_pass os fl conv fds st s)
  unfolding automatic_pass
  automatic_pass-IsGood P fds st s within (ac, bd, _) =
      let (ac', out_ac, _) = pid_compute-IsWithin fl float_zero max_volts _ _ lim ac in
      let (bd', out_bd, _) = pid_compute-IsWithin fl float_zero max_volts _ _ lim bd in
      (ac', bd', (within _ out_ac, within _ out_bd))

  pub by_mode-IsGood :
      (P : List ℕ → Type 0) (fds : Fds) (st : Stack) (s : Control W)
      → HoldsWithin fl P
      → IsGood fl P s
      → IsGood fl P (by_mode os fl conv fds st s)
  unfolding by_mode
  by_mode-IsGood P fds st s within good = cases s.tctrl
    where
      cases :
          (m : TempCtrlMode)
          → IsGood fl P (elim m [ automatic ↦ automatic_pass os fl conv fds st s | manual ↦ s ])
      cases automatic = automatic_pass-IsGood P fds st s within good
      cases manual = good

  pub control_loop-IsGood :
      (P : List ℕ → Type 0) (fds : Fds) (stacks : List Stack) (s : Control W)
      → HoldsWithin fl P
      → IsGood fl P s
      → IsGood fl P (control_loop os fl conv fds stacks s)
  unfolding control_loop control_pass write_outputs
  control_loop-IsGood P fds [] s within good = good
  control_loop-IsGood P fds (st ∷ rest) s within good =
      let (_, mode, w1) =
        config_get_temp_control_mode os cfg_file (st.ret 0) st.byte s.tctrl s.world in
      control_loop-IsGood P fds rest (control_pass os fl conv fds st s) within
        (by_mode-IsGood P fds st (record s { tctrl = mode; world = w1 }) within good)

  -- If neither of the voltages is above 3.3 or below 0 at first, neither is after any number of passes
  -- of the server, whatever the FERAM, the sensors and the locals hold, the modes in between are, and
  -- the arithmetic of floats does, if 0 and 3.3 are floats in order. A NaN is neither above nor below.
  pub temp_control_server-AreWithin :
      (stacks : List Stack) (s : Control W)
      → AreWithin fl s
      → AreWithin fl (temp_control_server os fl conv stacks s)
  unfolding temp_control_server initialised
  temp_control_server-AreWithin stacks s within =
      let (temp_ac_fd, w1) = os.open_file "/dev/temp_ac" read_only s.world in
      let (temp_bd_fd, w2) = os.open_file "/dev/temp_bd" read_only w1 in
      let (dac_fd, w3) = os.open_file dac_file read_write w2 in
      elim (Bool-cases (is_neg temp_ac_fd || is_neg temp_bd_fd)) [
        | inl e ↦ rw e within
        | inr e ↦ elim (Bool-cases (is_neg dac_fd)) [
          | inl e' ↦ rw (e, e') within
          | inr e' ↦
              rw (e, e')
                (control_loop-IsGood (IsWithin fl float_zero max_volts)
                  (record { temp_ac_fd = temp_ac_fd; temp_bd_fd = temp_bd_fd; dac_fd = dac_fd })
                  stacks _ (λ x h. h) ((refl, refl), (refl, refl), within)).2
        ]
      ]

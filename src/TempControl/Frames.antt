-- ===== src/TempControl/Frames.antt =====
-- temp_control.c: the three bytes that are written to the DAC for a voltage, and the writes of the
-- server.
use rffe_uc_fw.Base.{
  Bool, true, false, sym, ltb, get_or, word_of_bytes, ℕ, ◌≡◌, ◌≤◌, ◌%◌, ◌/◌, ◌^◌, refl, ◌∙◌, inl,
  inr, ◌⊎◌, ◌||◌, List, [], ◌∷◌, ℤ, is_neg, Bool-cases, u8, bit_and, ◌>>◌, arith,
}
use rffe_uc_fw.Base.Masks.{bit_and-byte}
use rffe_uc_fw.Device.Os.{read_only, read_write, Os}
use rffe_uc_fw.Config.{TempCtrlMode, automatic, manual, config_get_temp_control_mode}
use rffe_uc_fw.Config.Closed.{
  IsClosed, get_pid_ac_keeps, get_pid_bd_keeps, get_setpoint_ac_keeps, get_setpoint_bd_keeps,
  get_temp_mode_keeps,
}
use rffe_uc_fw.PidCtrl.{Floats, float_zero}
use rffe_uc_fw.PidCtrl.Bounds.{IsWithin, AreLimits}
use rffe_uc_fw.TempControl.{
  cfg_file, dac_file, max_volts, three_three, full_scale, Conversions, Fds, Control, Stack,
  initialised, write_dac_voltage, automatic_pass, by_mode, write_outputs, control_pass,
  control_loop, temp_control_server,
}
use rffe_uc_fw.TempControl.Limits.{AreWithin, IsGood, by_mode-IsGood}

-- Whether a float is a NaN: the exponent has all bits and the fraction some.
abbrev pub is_nan : List ℕ → Bool
is_nan bs =
    ltb 0x7F800000
      (word_of_bytes (get_or bs 0 0) (get_or bs 1 0) (get_or bs 2 0) (get_or bs 3 0) % 2 ^ 31)

module _ (fl : Floats) (conv : Conversions) where
  -- The double of a float, divided by 3.3, the double 0x400A666666666666, and multiplied by 4095.0,
  -- the double 0x40AFFE0000000000.
  abbrev pub ratio : List ℕ → List ℕ
  ratio x =
      conv.mul
        (conv.div (conv.of_float x) (0x66 ∷ 0x66 ∷ 0x66 ∷ 0x66 ∷ 0x66 ∷ 0x66 ∷ 0x0A ∷ 0x40 ∷ []))
        (0x00 ∷ 0x00 ∷ 0x00 ∷ 0x00 ∷ 0x00 ∷ 0xFE ∷ 0xAF ∷ 0x40 ∷ [])

  -- A frame is three bytes: a channel of the DAC and a code, the low byte first. The code is at most
  -- 4094 and that of a voltage within the limits, or it has sixteen bits and is that of a NaN.
  pub data IsFrame : List ℕ → Type 0 where
    frame :
        (channel : ℕ) (voltage : List ℕ)
        → (channel ≡ 2) ⊎ (channel ≡ 3)
        → IsWithin fl float_zero max_volts voltage
        → conv.to_u16 (ratio voltage) ≤ 4094
        → IsFrame
            (channel ∷ conv.to_u16 (ratio voltage) % 256 ∷ conv.to_u16 (ratio voltage) / 256 ∷ [])
    nan_frame :
        (channel : ℕ) (voltage : List ℕ)
        → (channel ≡ 2) ⊎ (channel ≡ 3)
        → is_nan voltage ≡ true
        → IsFrame (
            channel
            ∷ conv.to_u16 (ratio voltage) % 2 ^ 16 % 256
            ∷ conv.to_u16 (ratio voltage) % 2 ^ 16 / 256
            ∷ [])

  -- A property of the world that the calls keep if nothing but frames is written.
  pub record IsKeptByFrames {W : Type 0} (os : Os W) (P : W → Type 0) : Type 0 where
    pub closed : IsClosed os P
    pub writes : (fd : ℤ) (bs : List ℕ) (w : W) → IsFrame bs → P w → P (os.write_file fd bs w).1

  -- What IEEE 754 says of the operations, with the order of the doubles: the conversion of floats, a
  -- division by 3.3 and a multiplication by 4095.0 keep the order, a truncation between 0 and the
  -- largest value keeps it too, and the float 3.3, which is below the double, has the code 4094.
  pub record IsRounding : Type 1 where
    pub AtMost : List ℕ → List ℕ → Type 0
    pub of_float_mono :
        (x y : List ℕ)
        → is_nan x ≡ false
        → is_nan y ≡ false
        → fl.is_below y x ≡ false
        → AtMost (conv.of_float x) (conv.of_float y)
    pub div_mono :
        (x y : List ℕ) → AtMost x y → AtMost (conv.div x three_three) (conv.div y three_three)
    pub mul_mono :
        (x y : List ℕ) → AtMost x y → AtMost (conv.mul x full_scale) (conv.mul y full_scale)
    pub to_u16_mono :
        (x : List ℕ)
        → AtMost (ratio float_zero) x
        → AtMost x (ratio max_volts)
        → conv.to_u16 x ≤ conv.to_u16 (ratio max_volts)
    pub largest : conv.to_u16 (ratio max_volts) ≡ 4094

  ratio_mono :
      (r : IsRounding) (x y : List ℕ)
      → is_nan x ≡ false
      → is_nan y ≡ false
      → fl.is_below y x ≡ false
      → r.AtMost (ratio x) (ratio y)
  ratio_mono r x y a b h = r.mul_mono _ _ (r.div_mono _ _ (r.of_float_mono x y a b h))

  pub code_fits :
      (r : IsRounding) (x : List ℕ)
      → is_nan x ≡ false
      → IsWithin fl float_zero max_volts x
      → conv.to_u16 (ratio x) ≤ 4094
  code_fits r x number (above, below) =
      let h =
        r.to_u16_mono (ratio x) (ratio_mono r float_zero x refl number below)
          (ratio_mono r x max_volts number refl above) in
      rw (sym r.largest) h

module _ {W : Type 0} (os : Os W) (fl : Floats) (conv : Conversions)
    (lim : AreLimits fl float_zero max_volts) (rounding : IsRounding fl conv) (P : W → Type 0)
    (kept : IsKeptByFrames fl conv os P) where
  code_bytes :
      (n : ℕ)
      → (bit_and (n % 2 ^ 16) 0xFF ≡ n % 2 ^ 16 % 256)
        × (bit_and ((n % 2 ^ 16) >> 8) 0xFF ≡ n % 2 ^ 16 / 256)
  code_bytes n = (bit_and-byte (n % 2 ^ 16), bit_and-byte ((n % 2 ^ 16) >> 8) ∙ omega arith)

  write_dac_voltage_keeps :
      (fd : ℤ) (channel : ℕ) (voltage : List ℕ) (w : W)
      → (channel ≡ 2) ⊎ (channel ≡ 3)
      → IsWithin fl float_zero max_volts voltage
      → P w
      → P (write_dac_voltage os fl conv fd channel voltage w).1
  unfolding write_dac_voltage
  write_dac_voltage_keeps fd channel voltage w ch within p =
      let n = conv.to_u16 (ratio fl conv voltage) in
      let (low, high) = code_bytes n in
      let e : u8 channel ≡ channel = omega arith in
      elim (Bool-cases (is_nan voltage)) [
        | inl nan ↦
            rw (write_dac_voltage, low, high, e)
              (kept.writes fd _ w (nan_frame channel voltage ch nan) p)
        | inr number ↦
            let fits = code_fits fl conv rounding voltage number within in
            let small : n % 2 ^ 16 ≡ n = omega (arith, fits) in
            rw (write_dac_voltage, low, high, e, small)
              (kept.writes fd _ w (frame channel voltage ch within fits) p)
      ]

  automatic_pass_keeps :
      (fds : Fds) (st : Stack) (s : Control W)
      → P s.world
      → P (automatic_pass os fl conv fds st s).world
  unfolding automatic_pass
  automatic_pass_keeps fds st s p =
      let c = kept.closed in
      let p1 = get_pid_bd_keeps os cfg_file P c (st.ret 1) _ s.world p in
      let p2 = get_pid_ac_keeps os cfg_file P c (st.ret 2) _ _ p1 in
      let p3 = get_setpoint_ac_keeps os cfg_file P c (st.ret 3) s.pid_ac.setpoint _ p2 in
      let p4 = get_setpoint_bd_keeps os cfg_file P c (st.ret 4) s.pid_bd.setpoint _ p3 in
      c.reads fds.temp_bd_fd 4 _ (c.reads fds.temp_ac_fd 4 _ p4)

  abbrev world_of : Control W → W
  world_of s = s.world

  by_mode_keeps :
      (fds : Fds) (st : Stack) (s : Control W)
      → P s.world
      → P (world_of (by_mode os fl conv fds st s))
  unfolding by_mode
  by_mode_keeps fds st s p = cases s.tctrl
    where
      cases :
          (m : TempCtrlMode)
          → P (world_of (elim m [ automatic ↦ automatic_pass os fl conv fds st s | manual ↦ s ]))
      cases automatic = automatic_pass_keeps fds st s p
      cases manual = p

  -- Limits, voltages and the property.
  abbrev IsSteady : Control W → Type 0
  IsSteady s = IsGood fl (IsWithin fl float_zero max_volts) s × P s.world

  control_pass-IsSteady :
      (fds : Fds) (st : Stack) (s : Control W)
      → IsSteady s
      → IsSteady (control_pass os fl conv fds st s)
  unfolding control_pass write_outputs
  control_pass-IsSteady fds st s (good, p) =
      let (_, mode, w1) =
        config_get_temp_control_mode os cfg_file (st.ret 0) st.byte s.tctrl s.world in
      let s1 = record s { tctrl = mode; world = w1 } in
      let p1 = get_temp_mode_keeps os cfg_file P kept.closed (st.ret 0) st.byte s.tctrl s.world p in
      let good2 =
        by_mode-IsGood os fl conv lim (IsWithin fl float_zero max_volts) fds st s1 (λ x h. h)
          good in
      let (within_ac, within_bd) = good2.2 in
      let p2 = by_mode_keeps fds st s1 p1 in
      let p3 = write_dac_voltage_keeps fds.dac_fd 3 _ _ (inr refl) within_ac p2 in
      (good2, write_dac_voltage_keeps fds.dac_fd 2 _ _ (inl refl) within_bd p3)

  control_loop-IsSteady :
      (fds : Fds) (stacks : List Stack) (s : Control W)
      → IsSteady s
      → IsSteady (control_loop os fl conv fds stacks s)
  unfolding control_loop
  control_loop-IsSteady fds [] s steady = steady
  control_loop-IsSteady fds (st ∷ rest) s steady =
      control_loop-IsSteady fds rest (control_pass os fl conv fds st s)
        (control_pass-IsSteady fds st s steady)

  -- Any number of passes of the server writes nothing but frames: any property of the world that
  -- opening, seeking, reading and closing a file keep, and that writing a frame keeps, is kept by the
  -- server. A frame is the channel 2 or 3 and a code, the low byte first: the code of a voltage that
  -- is not above 3.3 nor below 0, divided by 3.3, multiplied by 4095.0 and truncated, which is at most
  -- 4094, or sixteen bits for a NaN. Neither of the voltages is above 3.3 or below 0 at first, 0 and
  -- 3.3 are floats in order, and the operations on doubles keep the order and give 3.3 the code 4094.
  pub temp_control_server_keeps :
      (stacks : List Stack) (s : Control W)
      → AreWithin fl s
      → P s.world
      → P (temp_control_server os fl conv stacks s).world
  unfolding temp_control_server initialised
  temp_control_server_keeps stacks s within p =
      let c = kept.closed in
      let (temp_ac_fd, w1) = os.open_file "/dev/temp_ac" read_only s.world in
      let (temp_bd_fd, w2) = os.open_file "/dev/temp_bd" read_only w1 in
      let (dac_fd, w3) = os.open_file dac_file read_write w2 in
      let p1 = c.opens "/dev/temp_ac" read_only s.world p in
      let p2 = c.opens "/dev/temp_bd" read_only w1 p1 in
      let p3 = c.opens dac_file read_write w2 p2 in
      elim (Bool-cases (is_neg temp_ac_fd || is_neg temp_bd_fd)) [
        | inl e ↦ rw e p3
        | inr e ↦ elim (Bool-cases (is_neg dac_fd)) [
          | inl e' ↦ rw (e, e') p3
          | inr e' ↦
              rw (e, e')
                (control_loop-IsSteady
                  (record { temp_ac_fd = temp_ac_fd; temp_bd_fd = temp_bd_fd; dac_fd = dac_fd })
                  stacks _ (((refl, refl), (refl, refl), within), p3)).1
        ]
      ]

-- ===== src/Config/Pid.antt =====
-- config_file.c: the PID constants of the two channels, and the value that the functions which add
-- to an unset `ret` return.
use rffe_uc_fw.Base.{
  ℕ, ◌+◌, ◌≤◌, ◌≡◌, ◌⊎◌, ◌↔◌, ◌-◌, ◌^◌, ◌≤ℤ◌, ◌+ℤ◌, IsInt, negsuc, inl, inr, sym, ap, ◌∙◌, String,
  List, ℤ, pos, ◌+int◌, length, overlay, overlay_full, slice, splice, length-splice,
  slice-splice_self, slice-splice_before, slice-splice_after, arith,
}
use rffe_uc_fw.Device.Os.{Os, IsDevice}
use rffe_uc_fw.Config.Layout.{clear_positive}
use rffe_uc_fw.Config.Transfers.{IsPresent, get_pid_lem, set_pid_lem}
use rffe_uc_fw.Config.{
  PidConstants, config_get_pid_ac, config_set_pid_ac, config_get_pid_bd, config_set_pid_bd,
}
use rffe_uc_fw.Config.Fields.{record_size}

-- Three floats of four bytes.
pub record IsFloats (c : PidConstants) : Type 0 where
  pub kc_size : length c.kc ≡ 4
  pub ti_size : length c.ti ≡ 4
  pub td_size : length c.td ≡ 4

-- The channels of the temperature control, with their accessors.
pub data Channel : Type 0 where
  ac bd : Channel

abbrev pub other : Channel → Channel
other ac = bd
other bd = ac

module _ {W : Type 0} (os : Os W) (path : String) where
  abbrev pub get_pid_of : Channel → ℤ → PidConstants → W → ℤ × PidConstants × W
  get_pid_of ac = config_get_pid_ac os path
  get_pid_of bd = config_get_pid_bd os path

  abbrev pub set_pid_of : Channel → ℤ → PidConstants → W → ℤ × W
  set_pid_of ac = config_set_pid_ac os path
  set_pid_of bd = config_set_pid_bd os path

abbrev pub base : Channel → ℕ
base ac = 0x60
base bd = 0x6C

pub base_fits : (ch : Channel) (xs : List ℕ) → record_size ≤ length xs → base ch + 12 ≤ length xs
base_fits ac xs h = omega arith
base_fits bd xs h = omega arith

bases_apart : (ch : Channel) → (base (other ch) + 12 ≤ base ch) ⊎ (base ch + 12 ≤ base (other ch))
bases_apart ac = omega arith
bases_apart bd = omega arith

-- The record after the three writes at a base.
abbrev pub written : ℕ → PidConstants → List ℕ → List ℕ
written b c xs = splice (8 + b) c.td (splice (4 + b) c.ti (splice b c.kc xs))

pub length-written : (b : ℕ) (c : PidConstants) (xs : List ℕ) → length (written b c xs) ≡ length xs
length-written b c xs = length-splice (8 + b) _ _ ∙ length-splice (4 + b) _ _ ∙ length-splice b _ _

-- A range outside the twelve bytes is as before.
slice-written_outside :
    (b at n : ℕ) (c : PidConstants) (xs : List ℕ)
    → IsFloats c
    → (at + n ≤ b) ⊎ (b + 12 ≤ at)
    → slice at n (written b c xs) ≡ slice at n xs
slice-written_outside b at n c xs s (inl h) =
    slice-splice_before (8 + b) at n _ _ (omega arith)
    ∙ slice-splice_before (4 + b) at n _ _ (omega arith)
    ∙ slice-splice_before b at n _ _ h
slice-written_outside b at n c xs s (inr h) =
    slice-splice_after (8 + b) at n _ _ (omega arith)
    ∙ slice-splice_after (4 + b) at n _ _ (omega arith)
    ∙ slice-splice_after b at n _ _ (omega arith)

-- Four bytes that were written are read back.
slice-splice_float :
    (off : ℕ) (v xs : List ℕ)
    → length v ≡ 4
    → off + 4 ≤ length xs
    → slice off 4 (splice off v xs) ≡ v
slice-splice_float off v xs n h = rw (← n) (slice-splice_self off v xs (omega arith))

-- What a getter at base `b` stores from a record.
abbrev pub loaded : ℕ → List ℕ → PidConstants → PidConstants
loaded b xs c = record {
  kc = overlay (slice b 4 xs) c.kc;
  ti = overlay (slice (4 + b) 4 xs) c.ti;
  td = overlay (slice (8 + b) 4 xs) c.td;
}

loaded-written_self :
    (b : ℕ) (c c0 : PidConstants) (xs : List ℕ)
    → IsFloats c
    → IsFloats c0
    → b + 12 ≤ length xs
    → loaded b (written b c xs) c0 ≡ c
loaded-written_self b c c0 xs s s0 h = λ i. record {
  kc = (ap (λ bs. overlay bs c0.kc) kc ∙ overlay_full c.kc c0.kc (omega arith)) i;
  ti = (ap (λ bs. overlay bs c0.ti) ti ∙ overlay_full c.ti c0.ti (omega arith)) i;
  td = (ap (λ bs. overlay bs c0.td) td ∙ overlay_full c.td c0.td (omega arith)) i;
}
  where
    kc : slice b 4 (written b c xs) ≡ c.kc
    kc =
        slice-splice_before (8 + b) b 4 _ _ (omega arith)
        ∙ slice-splice_before (4 + b) b 4 _ _ (omega arith)
        ∙ slice-splice_float b c.kc xs s.kc_size (omega arith)

    ti : slice (4 + b) 4 (written b c xs) ≡ c.ti
    ti =
        slice-splice_before (8 + b) (4 + b) 4 _ _ (omega arith)
        ∙ slice-splice_float (4 + b) c.ti _ s.ti_size (rw length-splice (omega arith))

    td : slice (8 + b) 4 (written b c xs) ≡ c.td
    td =
        slice-splice_float (8 + b) c.td _ s.td_size
          (rw (length-splice, length-splice) (omega arith))

loaded-written_outside :
    (b b' : ℕ) (c c0 : PidConstants) (xs : List ℕ)
    → IsFloats c
    → (b' + 12 ≤ b) ⊎ (b + 12 ≤ b')
    → loaded b' (written b c xs) c0 ≡ loaded b' xs c0
loaded-written_outside b b' c c0 xs s h = λ i. record {
  kc = overlay (slice-written_outside b b' 4 c xs s (omega arith) i) c0.kc;
  ti = overlay (slice-written_outside b (4 + b') 4 c xs s (omega arith) i) c0.ti;
  td = overlay (slice-written_outside b (8 + b') 4 c xs s (omega arith) i) c0.td;
}

three_reads : (ret : ℤ) → IsInt ret → ret +int pos 4 +int pos 4 +int pos 4 ≡ ret +int pos 12
unfolding ◌+int◌ ◌+ℤ◌
three_reads (pos n) h = ground arith
three_reads (negsuc n) h = ground arith

twelve_fits :
    (ret : ℤ)
    → IsInt ret
    → (clear_positive (ret +int pos 12) ≡ pos 0) ↔ ((negsuc 11 ≤ℤ ret) × (ret ≤ℤ pos (2 ^ 31 - 13)))
unfolding ◌+int◌ ◌+ℤ◌
twelve_fits (pos n) h = ground arith
twelve_fits (negsuc n) h = ground arith

module _ {W : Type 0} (os : Os W) (path : String) (dev : IsDevice os path)
    (present : IsPresent os path) where
  open dev use {contents}

  pub set_pid_of-written :
      (ch : Channel) (ret : ℤ) (c : PidConstants) (w : W)
      → IsFloats c
      → record_size ≤ length (contents w)
      → contents (set_pid_of os path ch ret c w).1 ≡ written (base ch) c (contents w)
  unfolding config_set_pid_ac config_set_pid_bd
  set_pid_of-written ac ret c w s h =
      set_pid_lem os path dev present 0x60 0x64 0x68 ret c w (omega arith) (omega arith)
        (omega arith)
  set_pid_of-written bd ret c w s h =
      set_pid_lem os path dev present 0x6C 0x70 0x74 ret c w (omega arith) (omega arith)
        (omega arith)

  get_pid_of-sum :
      (ch : Channel) (ret : ℤ) (c : PidConstants) (w : W)
      → record_size ≤ length (contents w)
      → (get_pid_of os path ch ret c w).0 ≡ clear_positive (ret +int pos 4 +int pos 4 +int pos 4)
  unfolding config_get_pid_ac config_get_pid_bd
  get_pid_of-sum ac ret c w h =
      (get_pid_lem os path dev present 0x60 0x64 0x68 ret c w (omega arith) (omega arith)
        (omega arith)).0
  get_pid_of-sum bd ret c w h =
      (get_pid_lem os path dev present 0x6C 0x70 0x74 ret c w (omega arith) (omega arith)
        (omega arith)).0

  -- Every read succeeds, and what the function returns for an int in `ret` is that junk plus twelve,
  -- as an int that wraps around, or 0 where that is positive. So it reports success if and only if
  -- the junk is from -12 to INT_MAX - 12.
  pub get_pid_of-status :
      (ch : Channel) (ret : ℤ) (c : PidConstants) (w : W)
      → IsInt ret
      → record_size ≤ length (contents w)
      → let (status, _, _) = get_pid_of os path ch ret c w in
        (status ≡ clear_positive (ret +int pos 12))
        × ((status ≡ pos 0) ↔ ((negsuc 11 ≤ℤ ret) × (ret ≤ℤ pos (2 ^ 31 - 13))))
  get_pid_of-status ch ret c w is_int h =
      let e = get_pid_of-sum ch ret c w h ∙ ap clear_positive (three_reads ret is_int) in
      let (forth, back) = twelve_fits ret is_int in (e, (λ z. forth (sym e ∙ z), λ r. e ∙ back r))

  pub get_pid_of-loaded :
      (ch : Channel) (ret : ℤ) (c : PidConstants) (w : W)
      → record_size ≤ length (contents w)
      → (get_pid_of os path ch ret c w).1 ≡ loaded (base ch) (contents w) c
  unfolding config_get_pid_ac config_get_pid_bd
  get_pid_of-loaded ac ret c w h =
      let (_, kc, ti, td, _) =
        get_pid_lem os path dev present 0x60 0x64 0x68 ret c w (omega arith) (omega arith)
          (omega arith) in
      λ i. record { kc = kc i; ti = ti i; td = td i }
  get_pid_of-loaded bd ret c w h =
      let (_, kc, ti, td, _) =
        get_pid_lem os path dev present 0x6C 0x70 0x74 ret c w (omega arith) (omega arith)
          (omega arith) in
      λ i. record { kc = kc i; ti = ti i; td = td i }

  pub get_pid_of-contents :
      (ch : Channel) (ret : ℤ) (c : PidConstants) (w : W)
      → record_size ≤ length (contents w)
      → contents (get_pid_of os path ch ret c w).2 ≡ contents w
  unfolding config_get_pid_ac config_get_pid_bd
  get_pid_of-contents ac ret c w h =
      (get_pid_lem os path dev present 0x60 0x64 0x68 ret c w (omega arith) (omega arith)
        (omega arith)).4
  get_pid_of-contents bd ret c w h =
      (get_pid_lem os path dev present 0x6C 0x70 0x74 ret c w (omega arith) (omega arith)
        (omega arith)).4

  -- The constants of a channel are read back as they were set, and those of the other channel are
  -- as before, whatever `ret` and the caller's variables hold.
  get_pid-set_pid :
      (ch : Channel) (ret ret' : ℤ) (c c0 : PidConstants) (w : W)
      → IsFloats c
      → IsFloats c0
      → record_size ≤ length (contents w)
      → let w' = (set_pid_of os path ch ret c w).1 in
        ((get_pid_of os path ch ret' c0 w').1 ≡ c)
        × ((get_pid_of os path (other ch) ret' c0 w').1
            ≡ (get_pid_of os path (other ch) ret' c0 w).1)
  get_pid-set_pid ch ret ret' c c0 w s s0 h =
      let wrote = set_pid_of-written ch ret c w s h in
      let w' = (set_pid_of os path ch ret c w).1 in
      let h' : record_size ≤ length (contents w') = rw (wrote, length-written) h in
      (
        get_pid_of-loaded ch ret' c0 w' h'
            ∙ ap (λ xs. loaded (base ch) xs c0) wrote
            ∙ loaded-written_self (base ch) c c0 (contents w) s s0 (base_fits ch (contents w) h),
        get_pid_of-loaded (other ch) ret' c0 w' h'
            ∙ ap (λ xs. loaded (base (other ch)) xs c0) wrote
            ∙ loaded-written_outside (base ch) (base (other ch)) c c0 (contents w) s
                (bases_apart ch)
            ∙ sym (get_pid_of-loaded (other ch) ret' c0 w h),
      )

-- ===== src/Config/Refine.antt =====
-- config_file.c: the accessors, in any sequence, against the record of settings of Config.Spec.
use rffe_uc_fw.Base.{
  ℕ, ◌+◌, ◌≤◌, ◌≡◌, refl, sym, ap, ◌∙◌, String, List, [], ◌∷◌, get_or, length, overlay,
  overlay_full, slice, splice, length-splice, length-slice, arith,
}
use rffe_uc_fw.Device.Os.{read_only, Os, IsDevice}
use rffe_uc_fw.Config.Layout.{
  eth_addr_offset, temp_ctrl_mode_offset, config_version_offset, read_at_lem,
}
use rffe_uc_fw.Config.Transfers.{
  IsPresent, first_byte, get_eth_lem, get_eth-contents, get_temp_mode_lem, get_temp_mode-contents,
  write_adding_lem,
}
use rffe_uc_fw.Config.{
  PidConstants, eth_mode_of_byte, byte_of_eth_mode, temp_mode_of_byte, byte_of_temp_mode,
  config_get_version, config_set_version, config_get_eth_addressing, config_set_eth_addressing,
  config_get_temp_control_mode, config_set_temp_control_mode,
}
use rffe_uc_fw.Config.Fields.{
  Field, mac, ipv4, mask, gateway, attenuation, setpoint_ac, setpoint_bd, size_of, offset_of,
  record_size, get_field, set_field, get_field-slice, set_field-splice, in_record,
}
use rffe_uc_fw.Config.Modes.{write_byte, eth_mode-byte, temp_mode-byte}
use rffe_uc_fw.Config.Pid.{
  Channel, ac, bd, base, IsFloats, get_pid_of, set_pid_of, written, length-written, loaded,
  get_pid_of-loaded, get_pid_of-contents, set_pid_of-written,
}
use rffe_uc_fw.Config.Spec.{
  Settings, Op, set_plain, get_plain, set_constants, get_constants, set_eth, get_eth, set_temp,
  get_temp, set_version, get_version, Answer, nothing, bytes, constants, eth_mode, temp_mode,
  plain_of, with_plain, constants_of, with_constants, after, answer, answers,
}
use mathlib.Core.Path.{ap₂}
use rffe_uc_fw.Config.View.{
  Part, first, size, plain, kc_of, ti_of, td_of, eth_byte, temp_byte, load, parts, view, update,
  parts-splice,
}

-- The values and the caller's variables have the sizes of their types.
abbrev pub IsFit : Op → Type 0
IsFit (set_plain f ret v) = length v ≡ size_of f
IsFit (get_plain f ret out) = length out ≡ size_of f
IsFit (set_constants ch ret c) = IsFloats c
IsFit (get_constants ch ret c) = IsFloats c
IsFit (get_version out) = length out ≡ 1
IsFit _ = Unit {0}

abbrev pub AreFit : List Op → Type 0
AreFit [] = Unit {0}
AreFit (o ∷ rest) = IsFit o × AreFit rest

pub first_byte-one : (junk : ℕ) (xs : List ℕ) → length xs ≡ 1 → first_byte junk xs ≡ get_or xs 0 0
first_byte-one junk [] n = absurd (omega (arith, n))
first_byte-one junk (x ∷ []) n = refl
first_byte-one junk (x ∷ y ∷ xs) n = absurd (omega (arith, n))

pub view_plain : (f : Field) (c : List ℕ) → plain_of f (view c) ≡ parts c (plain f)
view_plain mac c = refl
view_plain ipv4 c = refl
view_plain mask c = refl
view_plain gateway c = refl
view_plain attenuation c = refl
view_plain setpoint_ac c = refl
view_plain setpoint_bd c = refl

load_plain :
    (f : Field) (v c : List ℕ) → load (update (plain f) v (parts c)) ≡ with_plain f v (view c)
load_plain mac v c = refl
load_plain ipv4 v c = refl
load_plain mask v c = refl
load_plain gateway v c = refl
load_plain attenuation v c = refl
load_plain setpoint_ac v c = refl
load_plain setpoint_bd v c = refl

load_constants :
    (ch : Channel) (k : PidConstants) (c : List ℕ)
    → load (update (td_of ch) k.td (update (ti_of ch) k.ti (update (kc_of ch) k.kc (parts c))))
      ≡ with_constants ch k (view c)
load_constants ac k c = refl
load_constants bd k c = refl

view-written :
    (ch : Channel) (k : PidConstants) (c : List ℕ)
    → IsFloats k
    → record_size ≤ length c
    → view (written (base ch) k c) ≡ with_constants ch k (view c)
view-written ch k c s h =
    let first_write = parts-splice (kc_of ch) k.kc c h s.kc_size in
    let second_write = parts-splice (ti_of ch) k.ti _ (rw length-splice h) s.ti_size in
    let third_write =
      parts-splice (td_of ch) k.td _ (rw (length-splice, length-splice) h) s.td_size in
    ap load (
      third_write
      ∙ ap (update (td_of ch) k.td) (second_write ∙ ap (update (ti_of ch) k.ti) first_write))
    ∙ load_constants ch k c

-- What one write of a range leaves.
stored :
    (p : Part) (v c c1 : List ℕ) (s : Settings)
    → record_size ≤ length c
    → length v ≡ size p
    → c1 ≡ splice (first p) v c
    → load (update p v (parts c)) ≡ s
    → (view c1 ≡ s) × (length c1 ≡ length c)
stored p v c c1 s h n wrote means = (
  ap view wrote ∙ ap load (parts-splice p v c h n) ∙ means,
  ap length wrote ∙ length-splice (first p) v c,
)

-- What a getter loads over four bytes, or over three floats.
pub full_range :
    (at n : ℕ) (c out : List ℕ)
    → length out ≡ n
    → at + n ≤ length c
    → overlay (slice at n c) out ≡ slice at n c
full_range at n c out fit room = overlay_full _ out (fit ∙ sym (length-slice at n c room))

loaded_full :
    (b : ℕ) (c : List ℕ) (out : PidConstants)
    → IsFloats out
    → b + 12 ≤ length c
    → loaded b c out ≡ record { kc = slice b 4 c; ti = slice (4 + b) 4 c; td = slice (8 + b) 4 c }
loaded_full b c out s h = λ i. record {
  kc = full_range b 4 c out.kc s.kc_size (omega arith) i;
  ti = full_range (4 + b) 4 c out.ti s.ti_size (omega arith) i;
  td = full_range (8 + b) 4 c out.td s.td_size (omega arith) i;
}

loaded-view :
    (ch : Channel) (c : List ℕ) (out : PidConstants)
    → IsFloats out
    → record_size ≤ length c
    → loaded (base ch) c out ≡ constants_of ch (view c)
loaded-view ac c out s h = loaded_full 0x60 c out s (omega arith)
loaded-view bd c out s h = loaded_full 0x6C c out s (omega arith)

module _ {W : Type 0} (os : Os W) (path : String) where
  -- A call of an accessor: what it stores in the caller's variable, and the device after it.
  abbrev pub perform : Op → W → Answer × W
  perform (set_plain f ret v) w = (nothing, (set_field os path f ret v w).1)
  perform (get_plain f ret out) w =
      let (_, got, w1) = get_field os path f ret out w in (bytes got, w1)
  perform (set_constants ch ret c) w = (nothing, (set_pid_of os path ch ret c w).1)
  perform (get_constants ch ret out) w =
      let (_, got, w1) = get_pid_of os path ch ret out w in (constants got, w1)
  perform (set_eth m) w = (nothing, (config_set_eth_addressing os path m w).1)
  perform (get_eth junk old) w =
      let (_, m, w1) = config_get_eth_addressing os path junk old w in (eth_mode m, w1)
  perform (set_temp ret m) w = (nothing, (config_set_temp_control_mode os path ret m w).1)
  perform (get_temp ret junk old) w =
      let (_, m, w1) = config_get_temp_control_mode os path ret junk old w in (temp_mode m, w1)
  perform (set_version v) w = (nothing, (config_set_version os path v w).1)
  perform (get_version out) w =
      let (_, got, w1) = config_get_version os path out w in (bytes got, w1)

  abbrev pub perform_all : List Op → W → List Answer
  perform_all [] w = []
  perform_all (o ∷ rest) w = (perform o w).0 ∷ perform_all rest (perform o w).1

module _ {W : Type 0} (os : Os W) (path : String) (dev : IsDevice os path)
    (present : IsPresent os path) where
  open dev use {contents}

  -- A call answers as the settings say, the settings after it are the promised ones, and the device
  -- keeps its size.
  abbrev IsRefined : Op → W → Type 0
  IsRefined o w =
      let (got, w1) = perform os path o w in
      (got ≡ answer o (view (contents w)))
      × (let s = after o (view (contents w)) in
          (view (contents w1) ≡ s) × (length (contents w1) ≡ length (contents w)))

  perform-IsRefined : (o : Op) (w : W) → IsFit o → record_size ≤ length (contents w) → IsRefined o w
  unfolding config_get_version config_set_version config_set_eth_addressing
      config_set_temp_control_mode
  perform-IsRefined (set_plain f ret v) w fit h =
      let wrote = set_field-splice os path dev present f ret v w h fit in
      (refl, stored (plain f) v (contents w) _ _ h fit wrote (load_plain f v (contents w)))
  perform-IsRefined (get_plain f ret out) w fit h =
      let (got, same) = get_field-slice os path dev present f ret out w h in
      let full =
        full_range (offset_of f) (size_of f) (contents w) out fit (omega (arith, in_record f)) in
      (ap bytes (got ∙ full ∙ sym (view_plain f (contents w))), (ap view same, ap length same))
  perform-IsRefined (set_constants ch ret c) w fit h =
      let wrote = set_pid_of-written os path dev present ch ret c w fit h in
      (
        refl,
        (
          ap view wrote ∙ view-written ch c (contents w) fit h,
          ap length wrote ∙ length-written (base ch) c (contents w),
        ),
      )
  perform-IsRefined (get_constants ch ret out) w fit h =
      let got = get_pid_of-loaded os path dev present ch ret out w h in
      let same = get_pid_of-contents os path dev present ch ret out w h in
      (ap constants (got ∙ loaded-view ch (contents w) out fit h), (ap view same, ap length same))
  perform-IsRefined (set_eth m) w fit h =
      let wrote =
        write_byte os path dev present eth_addr_offset (byte_of_eth_mode m) w (omega arith) in
      let means = ap (λ m. record (view (contents w)) { eth = m }) (eth_mode-byte m) in
      (refl, stored eth_byte (byte_of_eth_mode m ∷ []) (contents w) _ _ h refl wrote means)
  perform-IsRefined (get_eth junk old) w fit h =
      let got = get_eth_lem os path dev present junk old w (omega arith) in
      let same = get_eth-contents os path dev present junk old w (omega arith) in
      let one = length-slice eth_addr_offset 1 (contents w) (omega arith) in
      (
        ap eth_mode (got ∙ ap eth_mode_of_byte (first_byte-one junk _ one)),
        (ap view same, ap length same),
      )
  perform-IsRefined (set_temp ret m) w fit h =
      let b = byte_of_temp_mode m ∷ [] in
      let wrote =
        (write_adding_lem os path dev present temp_ctrl_mode_offset ret b w (omega arith)).1 in
      let means = ap (λ m. record (view (contents w)) { temp = m }) (temp_mode-byte m) in
      (refl, stored temp_byte b (contents w) _ _ h refl wrote means)
  perform-IsRefined (get_temp ret junk old) w fit h =
      let got = get_temp_mode_lem os path dev present ret junk old w (omega arith) in
      let same = get_temp_mode-contents os path dev present ret junk old w (omega arith) in
      let one = length-slice temp_ctrl_mode_offset 1 (contents w) (omega arith) in
      (
        ap temp_mode (got ∙ ap temp_mode_of_byte (first_byte-one junk _ one)),
        (ap view same, ap length same),
      )
  perform-IsRefined (set_version v) w fit h =
      let wrote = write_byte os path dev present eth_addr_offset v w (omega arith) in
      (refl, stored eth_byte (v ∷ []) (contents w) _ _ h refl wrote refl)
  perform-IsRefined (get_version out) w fit h =
      let (fd, e) = present read_only w in
      let (_, got, same) =
        read_at_lem os path dev config_version_offset 1 out w fd e (omega arith) in
      (
        ap bytes (got ∙ full_range config_version_offset 1 (contents w) out fit (omega arith)),
        (ap view same, ap length same),
      )

  -- On a device without a fault and with room for the record, every sequence of calls of the
  -- accessors, with values and variables of the right sizes, answers as the record of settings does
  -- that the bytes of the device stand for at first, whatever the unset locals hold.
  pub perform_all_refines :
      (ops : List Op) (w : W)
      → AreFit ops
      → record_size ≤ length (contents w)
      → perform_all os path ops w ≡ answers ops (view (contents w))
  perform_all_refines [] w fit h = refl
  perform_all_refines (o ∷ rest) w (fit, fits) h =
      let (got, (next, same_size)) = perform-IsRefined o w fit h in
      let w1 = (perform os path o w).1 in
      ap₂ ◌∷◌ got (perform_all_refines rest w1 fits (rw same_size h) ∙ ap (answers rest) next)

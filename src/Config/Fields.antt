-- ===== src/Config/Fields.antt =====
-- config_file.c: the fields that are plain bytes, each with its getter and its setter.
use rffe_uc_fw.Base.{
  ℕ, ◌+◌, ◌≤◌, ◌≡◌, ◌≢◌, ◌⊎◌, inl, inr, sym, ap, ◌∙◌, String, List, ℤ, length, overlay,
  overlay_full, slice, splice, length-splice, slice-splice_self, slice-splice_before,
  slice-splice_after, arith,
}
use rffe_uc_fw.Device.Os.{read_only, read_write, Os, IsDevice}
use rffe_uc_fw.Config.Layout.{read_at, write_at, read_at_lem, write_at_lem}
use rffe_uc_fw.Config.Transfers.{IsPresent, read_adding_lem, write_adding_lem}
use rffe_uc_fw.Config.{
  config_get_mac_addr, config_set_mac_addr, config_get_ipv4_addr, config_set_ipv4_addr,
  config_get_mask_addr, config_set_mask_addr, config_get_gateway_addr, config_set_gateway_addr,
  config_get_attenuation, config_set_attenuation, config_get_setpoint_ac, config_set_setpoint_ac,
  config_get_setpoint_bd, config_set_setpoint_bd, read_adding,
}

pub data Field : Type 0 where
  mac ipv4 mask gateway attenuation setpoint_ac setpoint_bd : Field

-- Where the record has the field, and its size.
abbrev pub offset_of : Field → ℕ
offset_of mac = 0
offset_of ipv4 = 16
offset_of mask = 32
offset_of gateway = 48
offset_of attenuation = 64
offset_of setpoint_ac = 120
offset_of setpoint_bd = 124

abbrev pub size_of : Field → ℕ
size_of mac = 6
size_of _ = 4

-- The record, in bytes.
abbrev pub record_size : ℕ
record_size = 128

-- The accessors of a field. `ret` is the junk that two of them start from.
module _ {W : Type 0} (os : Os W) (path : String) where
  abbrev pub get_field : Field → ℤ → List ℕ → W → ℤ × List ℕ × W
  get_field mac ret = config_get_mac_addr os path
  get_field ipv4 ret = config_get_ipv4_addr os path
  get_field mask ret = config_get_mask_addr os path
  get_field gateway ret = config_get_gateway_addr os path
  get_field attenuation ret = config_get_attenuation os path
  get_field setpoint_ac ret = config_get_setpoint_ac os path ret
  get_field setpoint_bd ret = config_get_setpoint_bd os path ret

  abbrev pub set_field : Field → ℤ → List ℕ → W → ℤ × W
  set_field mac ret = config_set_mac_addr os path
  set_field ipv4 ret = config_set_ipv4_addr os path
  set_field mask ret = config_set_mask_addr os path
  set_field gateway ret = config_set_gateway_addr os path
  set_field attenuation ret = config_set_attenuation os path
  set_field setpoint_ac ret = config_set_setpoint_ac os path ret
  set_field setpoint_bd ret = config_set_setpoint_bd os path ret

-- Two fields lie apart.
Field-apart :
    (f g : Field)
    → (f ≡ g) ⊎ (offset_of f + size_of f ≤ offset_of g) ⊎ (offset_of g + size_of g ≤ offset_of f)
Field-apart f g = ground arith

pub in_record : (f : Field) → offset_of f + size_of f ≤ record_size
in_record f = ground arith

slice-splice_field :
    (f : Field) (v c : List ℕ)
    → record_size ≤ length c
    → length v ≡ size_of f
    → slice (offset_of f) (size_of f) (splice (offset_of f) v c) ≡ v
slice-splice_field f v c h n =
    rw (← n) (slice-splice_self (offset_of f) v c (omega (arith, in_record f)))

slice-splice_other :
    (f g : Field) (v c : List ℕ)
    → f ≢ g
    → length v ≡ size_of f
    → slice (offset_of g) (size_of g) (splice (offset_of f) v c) ≡ slice (offset_of g) (size_of g) c
slice-splice_other f g v c ne n = elim (Field-apart f g) [
  | inl e ↦ absurd (ne e)
  | inr (inl after) ↦ slice-splice_after (offset_of f) (offset_of g) (size_of g) v c (omega arith)
  | inr (inr before) ↦ slice-splice_before (offset_of f) (offset_of g) (size_of g) v c before
]

module _ {W : Type 0} (os : Os W) (path : String) (dev : IsDevice os path)
    (present : IsPresent os path) where
  open dev use {contents}

  plain_get :
      (off n : ℕ) (out : List ℕ) (w : W)
      → off + n ≤ length (contents w)
      → ((read_at os path off n out w).1 ≡ overlay (slice off n (contents w)) out)
        × (contents (read_at os path off n out w).2 ≡ contents w)
  plain_get off n out w h =
      let (fd, e) = present read_only w in
      let (_, got, same) = read_at_lem os path dev off n out w fd e h in (got, same)

  adding_get :
      (off : ℕ) (ret : ℤ) (out : List ℕ) (w : W)
      → off + 4 ≤ length (contents w)
      → ((read_adding os path off ret out w).1 ≡ overlay (slice off 4 (contents w)) out)
        × (contents (read_adding os path off ret out w).2 ≡ contents w)
  adding_get off ret out w h =
      let (_, got, same) = read_adding_lem os path dev present off ret out w h in (got, same)

  plain_set :
      (off : ℕ) (v : List ℕ) (w : W)
      → off + length v ≤ length (contents w)
      → contents (write_at os path off v w).1 ≡ splice off v (contents w)
  plain_set off v w h =
      let (fd, e) = present read_write w in (write_at_lem os path dev off v w fd e h).1

  -- What a getter stores in the caller's variable, and that it leaves the record alone.
  pub get_field-slice :
      (f : Field) (ret : ℤ) (out : List ℕ) (w : W)
      → record_size ≤ length (contents w)
      → ((get_field os path f ret out w).1
          ≡ overlay (slice (offset_of f) (size_of f) (contents w)) out)
        × (contents (get_field os path f ret out w).2 ≡ contents w)
  unfolding config_get_mac_addr config_get_ipv4_addr config_get_mask_addr config_get_gateway_addr
      config_get_attenuation config_get_setpoint_ac config_get_setpoint_bd
  get_field-slice mac ret out w h = plain_get _ _ out w (omega arith)
  get_field-slice ipv4 ret out w h = plain_get _ _ out w (omega arith)
  get_field-slice mask ret out w h = plain_get _ _ out w (omega arith)
  get_field-slice gateway ret out w h = plain_get _ _ out w (omega arith)
  get_field-slice attenuation ret out w h = plain_get _ _ out w (omega arith)
  get_field-slice setpoint_ac ret out w h = adding_get _ ret out w (omega arith)
  get_field-slice setpoint_bd ret out w h = adding_get _ ret out w (omega arith)

  pub set_field-splice :
      (f : Field) (ret : ℤ) (v : List ℕ) (w : W)
      → record_size ≤ length (contents w)
      → length v ≡ size_of f
      → contents (set_field os path f ret v w).1 ≡ splice (offset_of f) v (contents w)
  unfolding config_set_mac_addr config_set_ipv4_addr config_set_mask_addr config_set_gateway_addr
      config_set_attenuation config_set_setpoint_ac config_set_setpoint_bd
  set_field-splice mac ret v w h n = plain_set _ v w (omega arith)
  set_field-splice ipv4 ret v w h n = plain_set _ v w (omega arith)
  set_field-splice mask ret v w h n = plain_set _ v w (omega arith)
  set_field-splice gateway ret v w h n = plain_set _ v w (omega arith)
  set_field-splice attenuation ret v w h n = plain_set _ v w (omega arith)
  set_field-splice setpoint_ac ret v w h n =
      (write_adding_lem os path dev present _ ret v w (omega arith)).1
  set_field-splice setpoint_bd ret v w h n =
      (write_adding_lem os path dev present _ ret v w (omega arith)).1

  -- A field that was set is read back as it was set, whatever the junk and the caller's variable
  -- hold, on a device that has no fault and room for the record.
  pub get_field-set_field_self :
      (f : Field) (ret ret' : ℤ) (v out : List ℕ) (w : W)
      → record_size ≤ length (contents w)
      → length v ≡ size_of f
      → length out ≡ size_of f
      → (get_field os path f ret' out (set_field os path f ret v w).1).1 ≡ v
  get_field-set_field_self f ret ret' v out w h n k =
      let wrote = set_field-splice f ret v w h n in
      let w' = (set_field os path f ret v w).1 in
      let h' : record_size ≤ length (contents w') = rw (wrote, length-splice) h in
      (get_field-slice f ret' out w' h').0
      ∙ ap (λ c. overlay (slice (offset_of f) (size_of f) c) out) wrote
      ∙ ap (λ bs. overlay bs out) (slice-splice_field f v (contents w) h n)
      ∙ overlay_full v out (k ∙ sym n)

  -- Setting one field changes what no getter of another field returns.
  get_field-set_field_ne :
      (f g : Field) (ret ret' : ℤ) (v out : List ℕ) (w : W)
      → f ≢ g
      → record_size ≤ length (contents w)
      → length v ≡ size_of f
      → (get_field os path g ret' out (set_field os path f ret v w).1).1
        ≡ (get_field os path g ret' out w).1
  get_field-set_field_ne f g ret ret' v out w ne h n =
      let wrote = set_field-splice f ret v w h n in
      let w' = (set_field os path f ret v w).1 in
      let h' : record_size ≤ length (contents w') = rw (wrote, length-splice) h in
      (get_field-slice g ret' out w' h').0
      ∙ ap (λ c. overlay (slice (offset_of g) (size_of g) c) out) wrote
      ∙ ap (λ bs. overlay bs out) (slice-splice_other f g v (contents w) ne n)
      ∙ sym (get_field-slice g ret' out w h).0

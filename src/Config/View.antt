-- ===== src/Config/View.antt =====
-- config_file.c: the settings that the bytes of the device stand for, and how a write of one range
-- changes them.
use rffe_uc_fw.Base.{
  ℕ, ◌+◌, ◌≤◌, ◌≡◌, ◌≢◌, ◌⊎◌, inl, inr, sym, ◌∙◌, List, ◌==◌, if◌then◌else◌, get_or, length, slice,
  splice, slice-splice_self, slice-splice_before, slice-splice_after, arith,
}
use rffe_uc_fw.Config.{eth_mode_of_byte, temp_mode_of_byte}
use rffe_uc_fw.Config.Fields.{
  Field, mac, ipv4, mask, gateway, attenuation, setpoint_ac, setpoint_bd, offset_of, size_of,
  record_size,
}
use rffe_uc_fw.Config.Pid.{Channel, ac, bd, base}
use rffe_uc_fw.Config.Spec.{Settings}

-- The ranges of bytes that the accessors transfer at once.
pub data Part : Type 0 where
  plain : Field → Part
  kc_of ti_of td_of : Channel → Part
  version_byte eth_byte temp_byte : Part

abbrev pub first : Part → ℕ
first (plain f) = offset_of f
first (kc_of ch) = base ch
first (ti_of ch) = 4 + base ch
first (td_of ch) = 8 + base ch
first version_byte = 0x0F
first eth_byte = 0x50
first temp_byte = 0x51

abbrev pub size : Part → ℕ
size (plain f) = size_of f
size (kc_of ch) = 4
size (ti_of ch) = 4
size (td_of ch) = 4
size version_byte = 1
size eth_byte = 1
size temp_byte = 1

-- The settings that the bytes of the ranges stand for.
abbrev pub load : (Part → List ℕ) → Settings
load m = record {
  mac_addr = m (plain mac);
  ip_addr = m (plain ipv4);
  mask_addr = m (plain mask);
  gateway_addr = m (plain gateway);
  att = m (plain attenuation);
  ac_setpoint = m (plain setpoint_ac);
  bd_setpoint = m (plain setpoint_bd);
  ac_constants = record { kc = m (kc_of ac); ti = m (ti_of ac); td = m (td_of ac) };
  bd_constants = record { kc = m (kc_of bd); ti = m (ti_of bd); td = m (td_of bd) };
  eth = eth_mode_of_byte (get_or (m eth_byte) 0 0);
  temp = temp_mode_of_byte (get_or (m temp_byte) 0 0);
  version = m version_byte;
}

abbrev pub parts : List ℕ → Part → List ℕ
parts c p = slice (first p) (size p) c

abbrev pub view : List ℕ → Settings
view c = load (parts c)

abbrev pub update : Part → List ℕ → (Part → List ℕ) → Part → List ℕ
update p v m q = if first p == first q then v else m q

Part-apart : (p q : Part) → (p ≡ q) ⊎ (first p + size p ≤ first q) ⊎ (first q + size q ≤ first p)
Part-apart p q = ground arith

pub size_positive : (p : Part) → 1 ≤ size p
size_positive p = ground arith

pub in_device : (p : Part) → first p + size p ≤ record_size
in_device p = ground arith

update_self : (p : Part) (v : List ℕ) (m : Part → List ℕ) → update p v m p ≡ v
update_self p v m = ground arith

update_ne : (p q : Part) (v : List ℕ) (m : Part → List ℕ) → first p ≢ first q → update p v m q ≡ m q
update_ne p q v m ne = ground arith

parts-splice_self :
    (p : Part) (v c : List ℕ)
    → record_size ≤ length c
    → length v ≡ size p
    → parts (splice (first p) v c) p ≡ v
parts-splice_self p v c h n =
    rw (← n) (slice-splice_self (first p) v c (omega (arith, in_device p)))

-- After a write of one range it holds what was written, and the others what they held.
parts-splice_at :
    (p q : Part) (v c : List ℕ)
    → record_size ≤ length c
    → length v ≡ size p
    → parts (splice (first p) v c) q ≡ update p v (parts c) q
parts-splice_at p q v c h n = elim (Part-apart p q) [
  | inl e ↦ rw (← e) (parts-splice_self p v c h n ∙ sym (update_self p v (parts c)))
  | inr (inl behind) ↦
      rw (update_ne p q v (parts c) (omega (arith, size_positive p)))
        (slice-splice_after (first p) (first q) (size q) v c (omega arith))
  | inr (inr before) ↦
      rw (update_ne p q v (parts c) (omega (arith, size_positive q)))
        (slice-splice_before (first p) (first q) (size q) v c before)
]

pub parts-splice :
    (p : Part) (v c : List ℕ)
    → record_size ≤ length c
    → length v ≡ size p
    → parts (splice (first p) v c) ≡ update p v (parts c)
parts-splice p v c h n = λ i q. parts-splice_at p q v c h n i

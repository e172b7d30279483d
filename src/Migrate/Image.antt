-- ===== src/Migrate/Image.antt =====
-- config_file_migrate.c: the bytes of the records that a migration writes.
use rffe_uc_fw.Base.{
  ℕ, ◌+◌, ◌*◌, ◌<◌, ◌≡◌, ◌^◌, refl, List, [], ◌∷◌, length, get_or, slice, elems_at-eq-slice, arith,
  bytes_of_word, ◌<<◌, u32, ◌≤◌,
}
use rffe_uc_fw.Base.Bits.{bit_or_low_high}
use rffe_uc_fw.Config.Fields.{
  Field, mac, ipv4, mask, gateway, attenuation, setpoint_ac, setpoint_bd, offset_of, size_of,
}
use rffe_uc_fw.Migrate.{
  config_v0_size, config_v1_size, fifty_float, asr1, old_attenuation, upgraded, first_record,
}

-- The fields that an upgrade takes over.
pub data IsKept : Field → Type 0 where
  mac_kept : IsKept mac
  ipv4_kept : IsKept ipv4
  mask_kept : IsKept mask
  gateway_kept : IsKept gateway

module _ (itob16 : ℕ → ℕ) (v0 : List ℕ) (size : length v0 ≡ config_v0_size) where
  pub length-upgraded : length (upgraded itob16 v0) ≡ config_v1_size
  unfolding upgraded
  length-upgraded = refl

  pub upgraded-kept :
      {f : Field}
      → IsKept f
      → slice (offset_of f) (size_of f) (upgraded itob16 v0) ≡ slice (offset_of f) (size_of f) v0
  unfolding upgraded
  upgraded-kept mac_kept = elems_at-eq-slice 0 0 6 v0 (omega arith)
  upgraded-kept ipv4_kept = elems_at-eq-slice 0 0x10 4 v0 (omega arith)
  upgraded-kept mask_kept = elems_at-eq-slice 0 0x20 4 v0 (omega arith)
  upgraded-kept gateway_kept = elems_at-eq-slice 0 0x30 4 v0 (omega arith)

  pub upgraded-eth : slice 0x50 1 (upgraded itob16 v0) ≡ slice 0x50 1 v0
  unfolding upgraded
  upgraded-eth = elems_at-eq-slice 0 0x50 1 v0 (omega arith)

  pub length-first_record : length (first_record v0) ≡ config_v1_size
  unfolding first_record
  length-first_record = refl

  pub first_record-mac : slice 0 6 (first_record v0) ≡ slice 0 6 v0
  unfolding first_record
  first_record-mac = elems_at-eq-slice 0 0 6 v0 (omega arith)

-- The version, the mode of the temperature control and the attenuation of an upgraded record.
pub upgraded-version : (itob16 : ℕ → ℕ) (v0 : List ℕ) → slice 0x0F 1 (upgraded itob16 v0) ≡ 1 ∷ []
unfolding upgraded
upgraded-version itob16 v0 = refl

pub upgraded-temp_mode : (itob16 : ℕ → ℕ) (v0 : List ℕ) → slice 0x51 1 (upgraded itob16 v0) ≡ 1 ∷ []
unfolding upgraded
upgraded-temp_mode itob16 v0 = refl

pub upgraded-attenuation :
    (itob16 : ℕ → ℕ) (v0 : List ℕ)
    → slice 0x40 4 (upgraded itob16 v0) ≡ bytes_of_word (asr1 (itob16 (old_attenuation v0)))
unfolding upgraded
upgraded-attenuation itob16 v0 = refl

pub first_record-version : (v0 : List ℕ) → slice 0x0F 1 (first_record v0) ≡ 1 ∷ []
unfolding first_record
first_record-version v0 = refl

-- What an erased device is given.
pub data IsPreset : Field → List ℕ → Type 0 where
  ipv4_preset : IsPreset ipv4 (192 ∷ 168 ∷ 1 ∷ 101 ∷ [])
  mask_preset : IsPreset mask (255 ∷ 255 ∷ 255 ∷ 0 ∷ [])
  gateway_preset : IsPreset gateway (192 ∷ 168 ∷ 1 ∷ 1 ∷ [])
  attenuation_preset : IsPreset attenuation (0 ∷ 0 ∷ 0 ∷ 0 ∷ [])
  setpoint_ac_preset : IsPreset setpoint_ac fifty_float
  setpoint_bd_preset : IsPreset setpoint_bd fifty_float

pub first_record-preset :
    {f : Field} {v : List ℕ} (v0 : List ℕ)
    → IsPreset f v
    → (slice (offset_of f) (size_of f) (first_record v0) ≡ v)
      × (length v ≡ 4)
      × (offset_of f + size_of f ≤ config_v1_size)
unfolding first_record
first_record-preset v0 ipv4_preset = (refl, refl, omega arith)
first_record-preset v0 mask_preset = (refl, refl, omega arith)
first_record-preset v0 gateway_preset = (refl, refl, omega arith)
first_record-preset v0 attenuation_preset = (refl, refl, omega arith)
first_record-preset v0 setpoint_ac_preset = (refl, refl, omega arith)
first_record-preset v0 setpoint_bd_preset = (refl, refl, omega arith)

-- The four bytes are one number, the high byte first.
pub old_attenuation_sum :
    (v0 : List ℕ)
    → get_or v0 65 0 < 256
    → get_or v0 66 0 < 256
    → get_or v0 67 0 < 256
    → old_attenuation v0
      ≡ get_or v0 67 0 + get_or v0 66 0 * 256 + get_or v0 65 0 * 65536 + get_or v0 64 0 * 16777216
unfolding old_attenuation
old_attenuation_sum v0 h1 h2 h3 =
    rw
      (
        bit_or_low_high 8 (get_or v0 67 0) (get_or v0 66 0) h3,
        bit_or_low_high 16 (get_or v0 67 0 + get_or v0 66 0 * 2 ^ 8) (get_or v0 65 0) (omega arith),
        bit_or_low_high 24 (get_or v0 67 0 + get_or v0 66 0 * 2 ^ 8 + get_or v0 65 0 * 2 ^ 16)
            (get_or v0 64 0) (omega arith),
      )
      (omega arith)

-- Half of a number of half decibels, with sixteen fraction bits.
pub asr1-itob16 : (att : ℕ) → att < 2 ^ 15 → asr1 (u32 (att << 16)) ≡ att * 2 ^ 15
unfolding asr1
asr1-itob16 att h = ground arith

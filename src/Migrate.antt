-- ===== src/Migrate.antt =====
-- rffe-app/config_file_migrate.c: brings the record in the FERAM to its newest layout at boot.
-- A struct is its bytes, packed, with the low byte of a number first, as on the target.
pub mod Image
pub mod Upgrade
pub mod Laws
pub mod Kept
pub mod First
pub mod View
mod Tests
use rffe_uc_fw.Base.{
  ℕ, ◌+◌, ◌*◌, ◌<◌, ◌^◌, ◌/◌, String, List, [], ◌∷◌, ℤ, pos, negsuc, is_neg, ltb, ◌==◌,
  if◌then◌else◌, bit_or, get_or, overlay, splice, replicate, elems_at, bytes_of_word, ◌<<◌, ◌>>◌,
}
use rffe_uc_fw.Device.Os.{read_write, Os}

-- sizeof(struct config_v0) and sizeof(struct config_v1)
abbrev pub config_v0_size : ℕ
config_v0_size = 81

abbrev pub config_v1_size : ℕ
config_v1_size = 128

-- 1.0 and 50.0 as floats.
abbrev pub one_float : List ℕ
one_float = 0 ∷ 0 ∷ 0x80 ∷ 0x3F ∷ []

abbrev pub fifty_float : List ℕ
fifty_float = 0 ∷ 0 ∷ 0x48 ∷ 0x42 ∷ []

-- `x >> 1` of an int32_t, which keeps the sign.
pub asr1 : ℕ → ℕ
asr1 x = (x >> 1) + (if ltb x (2 ^ 31) then 0 else 2 ^ 31)

-- The attenuation of the old record, stored with the high byte first.
pub old_attenuation : List ℕ → ℕ
old_attenuation v0 =
    bit_or (bit_or (bit_or (get_or v0 67 0) (get_or v0 66 0 << 8)) (get_or v0 65 0 << 16))
      (get_or v0 64 0 << 24)

-- The constants that both branches give the temperature control.
pub pid_defaults : List ℕ → List ℕ
pid_defaults v1 = splice 0x7C fifty_float (
    splice 0x78 fifty_float (
      splice 0x74 one_float (
        splice 0x70 one_float (
          splice 0x6C one_float
            (splice 0x68 one_float (splice 0x64 one_float (splice 0x60 one_float v1)))))))

-- The new record from an old one; `itob16` is that of fixedmath.h, on the bits of an int32_t.
pub upgraded : (itob16 : ℕ → ℕ) → List ℕ → List ℕ
unfolding pid_defaults
upgraded itob16 v0 =
    let v1 : List ℕ = replicate config_v1_size 0 in
    let v1 = splice 0 (elems_at 0 0 6 v0) v1 in
    let v1 = splice 0x10 (elems_at 0 0x10 4 v0) v1 in
    let v1 = splice 0x20 (elems_at 0 0x20 4 v0) v1 in
    let v1 = splice 0x30 (elems_at 0 0x30 4 v0) v1 in
    let v1 = splice 0x50 (get_or v0 0x50 0 ∷ []) v1 in
    let v1 = splice 0x40 (bytes_of_word (asr1 (itob16 (old_attenuation v0)))) v1 in
    let v1 = pid_defaults v1 in let v1 = splice 0x51 (1 ∷ []) v1 in splice 0x0F (1 ∷ []) v1

-- The new record of an erased device, which keeps the MAC address alone.
pub first_record : List ℕ → List ℕ
unfolding pid_defaults
first_record v0 =
    let v1 : List ℕ = replicate config_v1_size 0 in
    let v1 = splice 0 (elems_at 0 0 6 v0) v1 in
    let v1 = splice 0x10 (192 ∷ 168 ∷ 1 ∷ 101 ∷ []) v1 in
    let v1 = splice 0x20 (255 ∷ 255 ∷ 255 ∷ 0 ∷ []) v1 in
    let v1 = splice 0x30 (192 ∷ 168 ∷ 1 ∷ 1 ∷ []) v1 in
    let v1 = splice 0x50 (1 ∷ []) v1 in
    let v1 = splice 0x40 (0 ∷ 0 ∷ 0 ∷ 0 ∷ []) v1 in
    let v1 = pid_defaults v1 in let v1 = splice 0x51 (0 ∷ []) v1 in splice 0x0F (1 ∷ []) v1

-- The branch on the version, with the descriptor, and the device after the read.
pub migrate_record : {W : Type 0} → Os W → (ℕ → ℕ) → ℤ → List ℕ → W → ℤ × W
migrate_record os itob16 fd v0 w =
    let version = get_or v0 0x0F 0 in
    if version == 0
    then (let backed_up = (os.write_file fd v0 (os.lseek fd 1792 w)).1 in
        let stored = (os.write_file fd (upgraded itob16 v0) (os.lseek fd 0 backed_up)).1 in
        (pos 0, os.close fd stored))
    else if ltb 0x7F version
    then (let stored = (os.write_file fd (first_record v0) (os.lseek fd 0 w)).1 in
        (pos 0, os.close fd stored))
    else (negsuc 0, os.close fd w)

-- `junk` is what the variable `confv0` holds before the read.
pub config_migrate_latest : {W : Type 0} → Os W → (ℕ → ℕ) → String → List ℕ → W → ℤ × W
unfolding migrate_record
config_migrate_latest os itob16 path junk w =
    let (fd, w1) = os.open_file path read_write w in
    let (_, got, w2) = os.read_file fd config_v0_size w1 in
    if is_neg fd then (negsuc 1, w1) else migrate_record os itob16 fd (overlay got junk) w2

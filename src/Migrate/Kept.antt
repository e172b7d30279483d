-- ===== src/Migrate/Kept.antt =====
-- config_file_migrate.c: the upgrade of an old record as the accessors of config_file.c see it.
use rffe_uc_fw.Base.{
  ℕ, ◌+◌, ◌*◌, ◌<◌, ◌≤◌, ◌≡◌, ◌^◌, sym, ap, ◌∙◌, String, List, [], ◌∷◌, get_or, get_or-take, drop,
  zero, suc, refl, bit_or, ℤ, pos, length, slice, splice, overlay, overlay_full, slice-splice_after,
  slice-take, length-slice, length-splice, slice-splice_self, arith, bytes_of_word, u32, ◌<<◌,
}
use rffe_uc_fw.Base.Bits.{bit_or_low_high}
use rffe_uc_fw.Device.Os.{Os, IsDevice}
use rffe_uc_fw.Config.Transfers.{IsPresent, first_byte, get_eth_lem, get_temp_mode_lem}
use rffe_uc_fw.Config.{
  EthAddrMode, TempCtrlMode, manual, config_get_eth_addressing, config_get_temp_control_mode,
  config_get_attenuation, temp_mode_of_byte, eth_mode_of_byte,
}
use rffe_uc_fw.Config.Modes.{temp_mode_of_byte-one}
use rffe_uc_fw.Config.Fields.{Field, attenuation, get_field, get_field-slice, offset_of, size_of}
use rffe_uc_fw.Migrate.{
  config_v0_size, config_v1_size, upgraded, config_migrate_latest, old_attenuation, asr1,
}
use rffe_uc_fw.Migrate.Image.{
  IsKept, mac_kept, ipv4_kept, mask_kept, gateway_kept, length-upgraded, upgraded-kept,
  upgraded-eth, upgraded-temp_mode, upgraded-attenuation, asr1-itob16,
}
use rffe_uc_fw.Migrate.Upgrade.{feram_size}
use rffe_uc_fw.Migrate.Laws.{version_of, migrate-old, new_slice}

IsKept-within : {f : Field} → IsKept f → offset_of f + size_of f ≤ config_v0_size
IsKept-within mac_kept = omega arith
IsKept-within ipv4_kept = omega arith
IsKept-within mask_kept = omega arith
IsKept-within gateway_kept = omega arith

pub copy_read_back :
    (v0 c : List ℕ)
    → length v0 ≡ config_v0_size
    → 1792 + config_v0_size ≤ length c
    → slice 1792 config_v0_size (splice 1792 v0 c) ≡ v0
copy_read_back v0 c n h = rw (← n) (slice-splice_self 1792 v0 c (rw n h))

get_or-drop : (off i : ℕ) (xs : List ℕ) → get_or (drop off xs) i 0 ≡ get_or xs (off + i) 0
get_or-drop zero i xs = let e : i ≡ 0 + i = omega arith in ap (λ k. get_or xs k 0) e
get_or-drop (suc off) i [] = refl
get_or-drop (suc off) i (x ∷ xs) =
    let e : suc (off + i) ≡ suc off + i = omega arith in
    get_or-drop off i xs ∙ ap (λ k. get_or (x ∷ xs) k 0) e

-- An element of a list is the one of the range that starts at an offset.
get_or-slice :
    (off i n : ℕ) (xs : List ℕ) → i < n → get_or (slice off n xs) i 0 ≡ get_or xs (off + i) 0
get_or-slice off i n xs h = get_or-take i n (drop off xs) 0 (omega arith) ∙ get_or-drop off i xs

-- The bytes in the order of the record.
old_attenuation-bytes :
    (v0 : List ℕ) (hi lo : ℕ)
    → lo < 256
    → slice 64 4 v0 ≡ 0 ∷ 0 ∷ hi ∷ lo ∷ []
    → hi < 128
    → old_attenuation v0 ≡ hi * 256 + lo
unfolding old_attenuation
old_attenuation-bytes v0 hi lo low e high =
    let b0 : get_or v0 64 0 ≡ 0 =
      sym (get_or-slice 64 0 4 v0 (omega arith)) ∙ ap (λ bs. get_or bs 0 0) e in
    let b1 : get_or v0 65 0 ≡ 0 =
      sym (get_or-slice 64 1 4 v0 (omega arith)) ∙ ap (λ bs. get_or bs 1 0) e in
    let b2 : get_or v0 66 0 ≡ hi =
      sym (get_or-slice 64 2 4 v0 (omega arith)) ∙ ap (λ bs. get_or bs 2 0) e in
    let b3 : get_or v0 67 0 ≡ lo =
      sym (get_or-slice 64 3 4 v0 (omega arith)) ∙ ap (λ bs. get_or bs 3 0) e in
    rw (b0, b1, b2, b3)
      (ap (λ x. bit_or (bit_or x 0) 0) (bit_or_low_high 8 lo hi low)
        ∙ ap (λ x. bit_or x 0) (bit_or_low_high 16 (lo + hi * 256) 0 (omega arith))
        ∙ bit_or_low_high 24 (lo + hi * 256 + 0) 0 (omega arith)
        ∙ omega arith)

module _ {W : Type 0} (os : Os W) (path : String) (dev : IsDevice os path)
    (present : IsPresent os path) (itob16 : ℕ → ℕ) where
  open dev use {contents}

  -- The upgrade of an old record keeps the MAC address, the IP address, the mask and the gateway.
  migrate-kept :
      {f : Field} (kept : IsKept f) (ret : ℤ) (junk out : List ℕ) (w : W)
      → length junk ≡ config_v0_size
      → length (contents w) ≡ feram_size
      → version_of (contents w) ≡ 0
      → (get_field os path f ret out (config_migrate_latest os itob16 path junk w).1).1
        ≡ (get_field os path f ret out w).1
  migrate-kept {f} kept ret junk out w n size old =
      let v0 = slice 0 config_v0_size (contents w) in
      let (_, e) = migrate-old os path dev present itob16 junk w n size old in
      let w' = (config_migrate_latest os itob16 path junk w).1 in
      let n0 = length-slice 0 config_v0_size (contents w) (omega arith) in
      let size' : length (contents w') ≡ feram_size = rw (e, length-splice, length-splice) size in
      (get_field-slice os path dev present f ret out w' (omega arith)).0
      ∙ ap (λ bs. overlay bs out)
          (ap (slice (offset_of f) (size_of f)) e
            ∙ new_slice os path dev present itob16 (offset_of f) (size_of f) (upgraded itob16 v0)
                (splice 1792 v0 (contents w)) (length-upgraded itob16 v0 n0)
                (omega (arith, IsKept-within kept)) (rw length-splice (omega arith))
            ∙ upgraded-kept itob16 v0 n0 kept
            ∙ slice-take (offset_of f) (size_of f) config_v0_size (contents w) (IsKept-within kept))
      ∙ sym (get_field-slice os path dev present f ret out w (omega arith)).0

  -- The upgrade keeps the mode of addressing too, starts the temperature control in manual mode, and
  -- leaves a copy of the old record at 1792.
  migrate_modes :
      (ret : ℤ) (junk : List ℕ) (local : ℕ) (eth : EthAddrMode) (temp : TempCtrlMode) (w : W)
      → length junk ≡ config_v0_size
      → length (contents w) ≡ feram_size
      → version_of (contents w) ≡ 0
      → let w' = (config_migrate_latest os itob16 path junk w).1 in
        ((config_get_eth_addressing os path local eth w').1
          ≡ (config_get_eth_addressing os path local eth w).1)
        × ((config_get_temp_control_mode os path ret local temp w').1 ≡ manual)
        × (slice 1792 config_v0_size (contents w') ≡ slice 0 config_v0_size (contents w))
  migrate_modes ret junk local eth temp w n size old =
      let v0 = slice 0 config_v0_size (contents w) in
      let (_, e) = migrate-old os path dev present itob16 junk w n size old in
      let w' = (config_migrate_latest os itob16 path junk w).1 in
      let n0 = length-slice 0 config_v0_size (contents w) (omega arith) in
      let n1 = length-upgraded itob16 v0 n0 in
      let size' : length (contents w') ≡ feram_size = rw (e, length-splice, length-splice) size in
      let room : config_v1_size ≤ length (splice 1792 v0 (contents w)) =
        rw length-splice (omega arith) in
      let v1 = upgraded itob16 v0 in
      let eth_byte =
        ap (slice 0x50 1) e
        ∙ new_slice os path dev present itob16 0x50 1 v1 _ n1 (omega arith) room
        ∙ upgraded-eth itob16 v0 n0
        ∙ slice-take 0x50 1 config_v0_size (contents w) (omega arith) in
      let temp_byte =
        ap (slice 0x51 1) e
        ∙ new_slice os path dev present itob16 0x51 1 v1 _ n1 (omega arith) room
        ∙ upgraded-temp_mode itob16 v0 in
      (
        get_eth_lem os path dev present local eth w' (omega arith)
            ∙ ap (λ bs. eth_mode_of_byte (first_byte local bs)) eth_byte
            ∙ sym (get_eth_lem os path dev present local eth w (omega arith)),
        get_temp_mode_lem os path dev present ret local temp w' (omega arith)
            ∙ ap (λ bs. temp_mode_of_byte (first_byte local bs)) temp_byte
            ∙ temp_mode_of_byte-one,
        ap (slice 1792 config_v0_size) e
            ∙ slice-splice_after 0 1792 config_v0_size v1 (splice 1792 v0 (contents w))
                (omega arith)
            ∙ copy_read_back v0 (contents w) n0 (omega arith),
      )

  -- The attenuation of an old record, four bytes of which the first two are 0 and the last two, the
  -- high byte first, are a number of half decibels below 2 ^ 15: the getter afterwards returns half of
  -- it with sixteen fraction bits, if `itob16` shifts by sixteen.
  pub migrate-attenuation :
      (junk out : List ℕ) (hi lo : ℕ) (w : W)
      → ((i : ℕ) → itob16 i ≡ u32 (i << 16))
      → length junk ≡ config_v0_size
      → length out ≡ 4
      → length (contents w) ≡ feram_size
      → version_of (contents w) ≡ 0
      → hi < 128
      → lo < 256
      → slice 64 4 (contents w) ≡ 0 ∷ 0 ∷ hi ∷ lo ∷ []
      → (config_get_attenuation os path out (config_migrate_latest os itob16 path junk w).1).1
        ≡ bytes_of_word ((hi * 256 + lo) * 2 ^ 15)
  migrate-attenuation junk out hi lo w shifts n k size old high low stored =
      let v0 = slice 0 config_v0_size (contents w) in
      let (_, e) = migrate-old os path dev present itob16 junk w n size old in
      let w' = (config_migrate_latest os itob16 path junk w).1 in
      let n0 = length-slice 0 config_v0_size (contents w) (omega arith) in
      let size' : length (contents w') ≡ feram_size = rw (e, length-splice, length-splice) size in
      let att = hi * 256 + lo in
      let found : old_attenuation v0 ≡ att =
        old_attenuation-bytes v0 hi lo low
          (slice-take 64 4 config_v0_size (contents w) (omega arith) ∙ stored) (omega arith) in
      (get_field-slice os path dev present attenuation (pos 0) out w' (omega arith)).0
      ∙ ap (λ bs. overlay bs out)
          (ap (slice 64 4) e
            ∙ new_slice os path dev present itob16 64 4 (upgraded itob16 v0)
                (splice 1792 v0 (contents w)) (length-upgraded itob16 v0 n0) (omega arith)
                (rw length-splice (omega arith))
            ∙ upgraded-attenuation itob16 v0
            ∙ ap (λ a. bytes_of_word (asr1 (itob16 a))) found
            ∙ ap bytes_of_word (ap asr1 (shifts att) ∙ asr1-itob16 att (omega arith)))
      ∙ overlay_full _ out k

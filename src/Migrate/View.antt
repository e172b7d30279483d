-- ===== src/Migrate/View.antt =====
-- config_file_migrate.c: the settings, all of them, that the accessors find after a migration.
use rffe_uc_fw.Base.{
  ℕ, ◌<◌, ◌≡◌, ap, ◌∙◌, String, List, [], ◌∷◌, get_or, bytes_of_word, length, slice, splice,
  length-slice, length-splice, slice-take, slice-splice_after, slice-overlay_within, arith,
}
use rffe_uc_fw.Device.Os.{Os, IsDevice}
use rffe_uc_fw.Config.{PidConstants, dhcp, manual, automatic, eth_mode_of_byte, temp_mode_of_byte}
use rffe_uc_fw.Config.Transfers.{IsPresent}
use rffe_uc_fw.Config.Spec.{Settings}
use rffe_uc_fw.Config.View.{first, size, load, view, in_device}
use rffe_uc_fw.Migrate.{
  config_v0_size, config_v1_size, one_float, fifty_float, asr1, old_attenuation, upgraded,
  first_record, config_migrate_latest,
}
use rffe_uc_fw.Migrate.Image.{
  mac_kept, ipv4_kept, mask_kept, gateway_kept, length-upgraded, upgraded-kept, upgraded-eth,
  length-first_record, first_record-mac,
}
use rffe_uc_fw.Migrate.Upgrade.{feram_size}
use rffe_uc_fw.Migrate.Laws.{version_of, migrate-old, migrate-erased}
use rffe_uc_fw.Migrate.Kept.{copy_read_back}

-- Constants of one for all three terms.
abbrev pub unit_constants : PidConstants
unit_constants = record { kc = one_float; ti = one_float; td = one_float }

-- What an upgrade makes of the old settings and the attenuation as it is stored in the new record.
abbrev pub upgraded_settings : (att : List ℕ) → Settings → Settings
upgraded_settings att s = record s {
  att = att;
  ac_setpoint = fifty_float;
  bd_setpoint = fifty_float;
  ac_constants = unit_constants;
  bd_constants = unit_constants;
  temp = manual;
  version = 1 ∷ [];
}

-- What an erased device starts with.
abbrev pub first_settings : (mac : List ℕ) → Settings
first_settings mac = record {
  mac_addr = mac;
  ip_addr = 192 ∷ 168 ∷ 1 ∷ 101 ∷ [];
  mask_addr = 255 ∷ 255 ∷ 255 ∷ 0 ∷ [];
  gateway_addr = 192 ∷ 168 ∷ 1 ∷ 1 ∷ [];
  att = 0 ∷ 0 ∷ 0 ∷ 0 ∷ [];
  ac_setpoint = fifty_float;
  bd_setpoint = fifty_float;
  ac_constants = unit_constants;
  bd_constants = unit_constants;
  eth = dhcp;
  temp = automatic;
  version = 1 ∷ [];
}

module _ (itob16 : ℕ → ℕ) (c : List ℕ) (room : length c ≡ feram_size) where
  abbrev old : List ℕ
  old = slice 0 config_v0_size c

  old_size : length old ≡ config_v0_size
  old_size = length-slice 0 config_v0_size c (omega arith)

  view-upgraded :
      view (upgraded itob16 old)
      ≡ upgraded_settings (bytes_of_word (asr1 (itob16 (old_attenuation old)))) (view c)
  unfolding upgraded temp_mode_of_byte
  view-upgraded =
      let mac_same = upgraded-kept itob16 old old_size mac_kept in
      let ip_same = upgraded-kept itob16 old old_size ipv4_kept in
      let mask_same = upgraded-kept itob16 old old_size mask_kept in
      let gateway_same = upgraded-kept itob16 old old_size gateway_kept in
      let eth_same = upgraded-eth itob16 old old_size in
      let within = slice-take {A = ℕ} in
      λ i. record {
        mac_addr = (mac_same ∙ within 0 6 config_v0_size c (omega arith)) i;
        ip_addr = (ip_same ∙ within 0x10 4 config_v0_size c (omega arith)) i;
        mask_addr = (mask_same ∙ within 0x20 4 config_v0_size c (omega arith)) i;
        gateway_addr = (gateway_same ∙ within 0x30 4 config_v0_size c (omega arith)) i;
        att = bytes_of_word (asr1 (itob16 (old_attenuation old)));
        ac_setpoint = fifty_float;
        bd_setpoint = fifty_float;
        ac_constants = unit_constants;
        bd_constants = unit_constants;
        eth =
            eth_mode_of_byte
              (get_or ((eth_same ∙ within 0x50 1 config_v0_size c (omega arith)) i) 0 0);
        temp = manual;
        version = 1 ∷ [];
      }

  view-first_record : view (first_record old) ≡ first_settings (slice 0 6 c)
  unfolding first_record eth_mode_of_byte temp_mode_of_byte
  view-first_record =
      ap first_settings
        (first_record-mac itob16 old old_size ∙ slice-take 0 6 config_v0_size c (omega arith))

  -- The settings of a device are those of a new record that is written at its start.
  view-new_record : (v1 : List ℕ) → length v1 ≡ config_v1_size → view (splice 0 v1 c) ≡ view v1
  view-new_record v1 n = ap load (λ i p.
      slice-overlay_within (first p) (size p) v1 c (omega (arith, n, in_device p))
        (omega (arith, n)) i)

module _ {W : Type 0} (os : Os W) (path : String) (dev : IsDevice os path)
    (present : IsPresent os path) (itob16 : ℕ → ℕ) where
  open dev use {contents}

  -- A migration of a device without a fault of 2048 bytes with an old record, that of version 0,
  -- keeps the three addresses, the MAC address and the mode of addressing, stores the attenuation
  -- in the new format, sets everything else to its first value, and leaves a copy of the old record
  -- at 1792.
  pub migrate_settings :
      (junk : List ℕ) (w : W)
      → length junk ≡ config_v0_size
      → length (contents w) ≡ feram_size
      → version_of (contents w) ≡ 0
      → let v0 = slice 0 config_v0_size (contents w) in
        let w' = (config_migrate_latest os itob16 path junk w).1 in
        (view (contents w')
          ≡ upgraded_settings
              (bytes_of_word (asr1 (itob16 (old_attenuation v0))))
              (view (contents w)))
        × (slice 1792 config_v0_size (contents w') ≡ v0)
  migrate_settings junk w n room is_old =
      let v0 = slice 0 config_v0_size (contents w) in
      let (_, e) = migrate-old os path dev present itob16 junk w n room is_old in
      let n0 = old_size itob16 (contents w) room in
      let n1 = length-upgraded itob16 v0 n0 in
      let backed_up = splice 1792 v0 (contents w) in
      (
        ap view e
            ∙ view-new_record itob16 backed_up (length-splice 1792 v0 (contents w) ∙ room) _ n1
            ∙ view-upgraded itob16 (contents w) room,
        ap (slice 1792 config_v0_size) e
            ∙ slice-splice_after 0 1792 config_v0_size (upgraded itob16 v0) backed_up
                (omega (arith, n1))
            ∙ copy_read_back v0 (contents w) n0 (omega arith),
      )

  -- A migration of an erased device, whose version byte is above 0x7F, keeps the MAC address and
  -- gives every other setting its first value: 192.168.1.101 with DHCP, no attenuation, automatic
  -- control of the temperature with constants of one, and 50 degrees.
  pub first_migrate_settings :
      (junk : List ℕ) (w : W)
      → length junk ≡ config_v0_size
      → length (contents w) ≡ feram_size
      → 0x7F < version_of (contents w)
      → view (contents (config_migrate_latest os itob16 path junk w).1)
        ≡ first_settings (view (contents w)).mac_addr
  first_migrate_settings junk w n room erased =
      let (_, e) = migrate-erased os path dev present itob16 junk w n room erased in
      let n0 = old_size itob16 (contents w) room in
      ap view e
      ∙ view-new_record itob16 (contents w) room _
          (length-first_record itob16 (slice 0 config_v0_size (contents w)) n0)
      ∙ view-first_record itob16 (contents w) room

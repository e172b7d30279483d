-- ===== src/Migrate/Tests.antt =====
-- The theorems about config_file_migrate.c at a FERAM that holds an old record, an erased one, and
-- a current one.
use rffe_uc_fw.Base.{
  ℕ, ◌≡◌, refl, inr, String, List, [], ◌∷◌, pos, negsuc, ◌+◌, replicate, slice, splice, arith, u32,
  ◌<<◌, bytes_of_word, ◌*◌, ◌^◌, false,
}
use rffe_uc_fw.Device.Sim.{Memory, sim, sim-IsDevice}
use rffe_uc_fw.Config.Transfers.{IsPresent}
use rffe_uc_fw.Config.{config_get_attenuation}
use rffe_uc_fw.Migrate.{config_migrate_latest, config_v0_size, asr1, old_attenuation}
use rffe_uc_fw.Migrate.Laws.{version_of, migrate_once}
use rffe_uc_fw.Migrate.Kept.{migrate-attenuation}
use rffe_uc_fw.Migrate.View.{
  upgraded_settings, first_settings, migrate_settings, first_migrate_settings,
}
use rffe_uc_fw.Config.View.{view}

abbrev feram_of : ℕ → Memory
feram_of b = record { bytes = replicate 2048 b; at = 0; write_access = false }

-- An old record with an attenuation of 63 half decibels.
abbrev old_device : Memory
old_device = record { bytes = splice 67 (63 ∷ []) (replicate 2048 0); at = 0; write_access = false }

abbrev path : String
path = "/dev/feram0"

abbrev present : IsPresent sim path
present = λ m w. (3, refl)

abbrev itob16 : ℕ → ℕ
itob16 i = u32 (i << 16)

abbrev junk : List ℕ
junk = replicate 81 0xAA

abbrev after : Memory → Memory
after w = (config_migrate_latest sim itob16 path junk w).1

migrate_once_example :
    let w' = after (feram_of 0xFF) in
    ((config_migrate_latest sim itob16 path junk (feram_of 0xFF)).0 ≡ pos 0)
    × (version_of w'.bytes ≡ 1)
    × ((config_migrate_latest sim itob16 path junk w').0 ≡ negsuc 0)
    × ((after w').bytes ≡ w'.bytes)
migrate_once_example =
    migrate_once sim path (sim-IsDevice path) present itob16 junk junk (feram_of 0xFF) refl refl
      refl (inr (omega arith))

migrate_settings_example :
    let v0 = slice 0 config_v0_size old_device.bytes in
    let w' = after old_device in
    (view w'.bytes
      ≡ upgraded_settings
          (bytes_of_word (asr1 (itob16 (old_attenuation v0))))
          (view old_device.bytes))
    × (slice 1792 config_v0_size w'.bytes ≡ v0)
migrate_settings_example =
    migrate_settings sim path (sim-IsDevice path) present itob16 junk old_device refl refl refl

migrate-attenuation_example :
    (config_get_attenuation sim path (0 ∷ 0 ∷ 0 ∷ 0 ∷ []) (after old_device)).1
    ≡ bytes_of_word ((0 * 256 + 63) * 2 ^ 15)
migrate-attenuation_example =
    migrate-attenuation sim path (sim-IsDevice path) present itob16 junk (0 ∷ 0 ∷ 0 ∷ 0 ∷ []) 0 63
      old_device (λ i. refl) refl refl refl refl (omega arith) (omega arith) refl

first_migrate_settings_example :
    view (after (feram_of 0xFF)).bytes ≡ first_settings (view (feram_of 0xFF).bytes).mac_addr
first_migrate_settings_example =
    first_migrate_settings sim path (sim-IsDevice path) present itob16 junk (feram_of 0xFF) refl
      refl (omega arith)

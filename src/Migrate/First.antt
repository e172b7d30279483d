-- ===== src/Migrate/First.antt =====
-- config_file_migrate.c: the settings that an erased device starts with.
use rffe_uc_fw.Base.{
  ℕ, ◌<◌, ◌≡◌, sym, ap, ◌∙◌, String, List, ℤ, length, slice, overlay, overlay_full, length-slice,
  length-splice, slice-take, arith,
}
use rffe_uc_fw.Device.Os.{Os, IsDevice}
use rffe_uc_fw.Config.Transfers.{IsPresent}
use rffe_uc_fw.Config.Fields.{Field, mac, get_field, get_field-slice, offset_of, size_of}
use rffe_uc_fw.Migrate.{config_v0_size, first_record, config_migrate_latest}
use rffe_uc_fw.Migrate.Image.{IsPreset, first_record-preset, length-first_record, first_record-mac}
use rffe_uc_fw.Migrate.Upgrade.{feram_size}
use rffe_uc_fw.Migrate.Laws.{version_of, migrate-erased, new_slice}

module _ {W : Type 0} (os : Os W) (path : String) (dev : IsDevice os path)
    (present : IsPresent os path) (itob16 : ℕ → ℕ) where
  open dev use {contents}

  -- The migration of an erased device, whose version byte is above 0x7F, keeps the MAC address and
  -- gives the addresses, the attenuation and the set points their first values.
  migrate_first :
      {f : Field} {v : List ℕ} (preset : IsPreset f v) (ret : ℤ) (junk out out' : List ℕ) (w : W)
      → length junk ≡ config_v0_size
      → length out ≡ 4
      → length (contents w) ≡ feram_size
      → 0x7F < version_of (contents w)
      → let w' = (config_migrate_latest os itob16 path junk w).1 in
        ((get_field os path f ret out w').1 ≡ v)
        × ((get_field os path mac ret out' w').1 ≡ (get_field os path mac ret out' w).1)
  migrate_first {f} {v} preset ret junk out out' w n k size erased =
      let v0 = slice 0 config_v0_size (contents w) in
      let (_, e) = migrate-erased os path dev present itob16 junk w n size erased in
      let w' = (config_migrate_latest os itob16 path junk w).1 in
      let n0 = length-slice 0 config_v0_size (contents w) (omega arith) in
      let n1 = length-first_record itob16 v0 n0 in
      let (stored, four, within) = first_record-preset v0 preset in
      let size' : length (contents w') ≡ feram_size = rw (e, length-splice) size in
      (
        (get_field-slice os path dev present f ret out w' (omega arith)).0
            ∙ ap (λ bs. overlay bs out)
                (ap (slice (offset_of f) (size_of f)) e
                  ∙ new_slice os path dev present itob16 (offset_of f) (size_of f) (first_record v0)
                      (contents w) n1 within (omega arith)
                  ∙ stored)
            ∙ overlay_full v out (k ∙ sym four),
        (get_field-slice os path dev present mac ret out' w' (omega arith)).0
            ∙ ap (λ bs. overlay bs out')
                (ap (slice 0 6) e
                  ∙ new_slice os path dev present itob16 0 6 (first_record v0) (contents w) n1
                      (omega arith) (omega arith)
                  ∙ first_record-mac itob16 v0 n0
                  ∙ slice-take 0 6 config_v0_size (contents w) (omega arith))
            ∙ sym (get_field-slice os path dev present mac ret out' w (omega arith)).0,
      )

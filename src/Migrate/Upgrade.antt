-- ===== src/Migrate/Upgrade.antt =====
-- config_file_migrate.c: what each branch of a migration leaves in a device without a fault.
use mathlib.Core.Path.{ap₂}
use rffe_uc_fw.Base.{
  ℕ, ◌+◌, ◌<◌, ◌≤◌, ◌≡◌, refl, sym, ap, ◌∙◌, String, List, ℤ, pos, negsuc, length, get_or, slice,
  splice, overlay, overlay_full, length-slice, length-splice, lt→ltb, arith, ltb, true, false, ◌==◌,
}
use rffe_uc_fw.Device.Os.{read_write, Os, IsDevice}
use rffe_uc_fw.Config.Layout.{lseek-write}
use rffe_uc_fw.Config.Transfers.{IsPresent}
use rffe_uc_fw.Migrate.{
  config_v0_size, upgraded, first_record, migrate_record, config_migrate_latest,
}
use rffe_uc_fw.Migrate.Image.{length-upgraded, length-first_record}

-- The size of the FERAM.
abbrev pub feram_size : ℕ
feram_size = 2048

module _ {W : Type 0} (os : Os W) (path : String) (dev : IsDevice os path)
    (present : IsPresent os path) (itob16 : ℕ → ℕ) where
  open dev use {contents, readable, writable, offset}

  -- The device behind an open descriptor.
  pub record IsOpen (fd : ℤ) (c : List ℕ) (w : W) : Type 0 where
    pub reads : readable w fd ≡ true
    pub writes : writable w fd ≡ true
    pub holds : contents w ≡ c

  put :
      (fd : ℤ) (off : ℕ) (v c : List ℕ) (w : W)
      → IsOpen fd c w
      → off + length v ≤ length c
      → IsOpen fd (splice off v c) (os.write_file fd v (os.lseek fd off w)).1
  put fd off v c w o h =
      let (_, wrote, r, m) = lseek-write os path dev fd off v w o.reads o.writes (rw o.holds h) in
      record { reads = r; writes = m; holds = wrote ∙ ap (splice off v) o.holds }

  -- The record that is read, and the device at the branch.
  pub migrate-start :
      (junk : List ℕ) (w : W)
      → length junk ≡ config_v0_size
      → config_v0_size ≤ length (contents w)
      → (fd : ℤ) × (w2 : W) × IsOpen fd (contents w) w2
        × (config_migrate_latest os itob16 path junk w
            ≡ migrate_record os itob16 fd (slice 0 config_v0_size (contents w)) w2)
  unfolding config_migrate_latest
  migrate-start junk w n h =
      let (fd, e) = present read_write w in
      let w1 = (os.open_file path read_write w).1 in
      let c = dev.open-contents read_write w in
      let at = dev.open-offset read_write w fd e in
      let (r, m) = dev.open_writes w fd e in
      let (_, got, same, r', m') = dev.read_lem (pos fd) config_v0_size w1 r (rw (at, c) h) in
      let w2 = (os.read_file (pos fd) config_v0_size w1).2 in
      let whole =
        ap (λ got. overlay got junk) (got ∙ ap₂ (λ o xs. slice o config_v0_size xs) at c)
        ∙ overlay_full _ junk (n ∙ sym (length-slice 0 config_v0_size (contents w) h)) in
      (
        pos fd,
        w2,
        record { reads = r'; writes = m' ∙ m; holds = same ∙ c },
        rw e (ap (λ v0. migrate_record os itob16 (pos fd) v0 w2) whole),
      )

  pub migrate_record-old :
      (fd : ℤ) (v0 c : List ℕ) (w : W)
      → IsOpen fd c w
      → get_or v0 0x0F 0 ≡ 0
      → length v0 ≡ config_v0_size
      → length c ≡ feram_size
      → ((migrate_record os itob16 fd v0 w).0 ≡ pos 0)
        × (contents (migrate_record os itob16 fd v0 w).1
            ≡ splice 0 (upgraded itob16 v0) (splice 1792 v0 c))
  unfolding migrate_record
  migrate_record-old fd v0 c w o old n size =
      let backed_up = put fd 1792 v0 c w o (omega arith) in
      let stored =
        put fd 0 (upgraded itob16 v0) (splice 1792 v0 c)
          (os.write_file fd v0 (os.lseek fd 1792 w)).1 backed_up
          (rw (length-splice, length-upgraded itob16 v0 n) (omega arith)) in
      rw old (refl, dev.close-contents _ _ ∙ stored.holds)

  pub migrate_record-erased :
      (fd : ℤ) (v0 c : List ℕ) (w : W)
      → IsOpen fd c w
      → 0x7F < get_or v0 0x0F 0
      → length v0 ≡ config_v0_size
      → length c ≡ feram_size
      → ((migrate_record os itob16 fd v0 w).0 ≡ pos 0)
        × (contents (migrate_record os itob16 fd v0 w).1 ≡ splice 0 (first_record v0) c)
  unfolding migrate_record
  migrate_record-erased fd v0 c w o erased n size =
      let stored =
        put fd 0 (first_record v0) c w o (rw (length-first_record itob16 v0 n) (omega arith)) in
      let not_old : (get_or v0 0x0F 0 == 0) ≡ false = ground arith in
      rw (not_old, lt→ltb _ _ erased) (refl, dev.close-contents _ _ ∙ stored.holds)

  pub migrate_record-current :
      (fd : ℤ) (v0 c : List ℕ) (w : W)
      → IsOpen fd c w
      → 0 < get_or v0 0x0F 0
      → get_or v0 0x0F 0 ≤ 0x7F
      → ((migrate_record os itob16 fd v0 w).0 ≡ negsuc 0)
        × (contents (migrate_record os itob16 fd v0 w).1 ≡ c)
  unfolding migrate_record
  migrate_record-current fd v0 c w o new low =
      let not_old : (get_or v0 0x0F 0 == 0) ≡ false = ground arith in
      let not_erased : ltb 0x7F (get_or v0 0x0F 0) ≡ false = ground arith in
      rw (not_old, not_erased) (refl, dev.close-contents _ _ ∙ o.holds)

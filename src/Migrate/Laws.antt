-- ===== src/Migrate/Laws.antt =====
-- config_file_migrate.c: the branches of a migration on a device, and a second migration after one.
use rffe_uc_fw.Base.{
  ℕ, ◌+◌, ◌<◌, ◌≤◌, ◌≡◌, ◌⊎◌, inl, inr, sym, ap, ◌∙◌, String, List, [], ◌∷◌, pos, negsuc, length,
  get_or, slice, splice, slice-overlay_within, length-slice, length-splice, get_or-take, slice_one,
  arith,
}
use rffe_uc_fw.Device.Os.{Os, IsDevice}
use rffe_uc_fw.Config.Transfers.{IsPresent}
use rffe_uc_fw.Migrate.{
  config_v0_size, config_v1_size, upgraded, first_record, config_migrate_latest,
}
use rffe_uc_fw.Migrate.Image.{
  length-upgraded, upgraded-version, length-first_record, first_record-version,
}
use rffe_uc_fw.Migrate.Upgrade.{
  feram_size, migrate-start, migrate_record-old, migrate_record-erased, migrate_record-current,
}

-- The version that a device holds.
abbrev pub version_of : List ℕ → ℕ
version_of c = get_or c 0x0F 0

module _ {W : Type 0} (os : Os W) (path : String) (dev : IsDevice os path)
    (present : IsPresent os path) (itob16 : ℕ → ℕ) where
  open dev use {contents}

  pub migrate-old :
      (junk : List ℕ) (w : W)
      → length junk ≡ config_v0_size
      → length (contents w) ≡ feram_size
      → version_of (contents w) ≡ 0
      → let v0 = slice 0 config_v0_size (contents w) in
        ((config_migrate_latest os itob16 path junk w).0 ≡ pos 0)
        × (contents (config_migrate_latest os itob16 path junk w).1
            ≡ splice 0 (upgraded itob16 v0) (splice 1792 v0 (contents w)))
  migrate-old junk w n size old =
      let (fd, w2, o, run) = migrate-start os path dev present itob16 junk w n (omega arith) in
      let v0 = slice 0 config_v0_size (contents w) in
      rw run (
        migrate_record-old os path dev present itob16 fd v0 (contents w) w2 o
          (get_or-take 0x0F config_v0_size (contents w) 0 (omega arith) ∙ old)
          (length-slice 0 config_v0_size (contents w) (omega arith)) size)

  pub migrate-erased :
      (junk : List ℕ) (w : W)
      → length junk ≡ config_v0_size
      → length (contents w) ≡ feram_size
      → 0x7F < version_of (contents w)
      → let v0 = slice 0 config_v0_size (contents w) in
        ((config_migrate_latest os itob16 path junk w).0 ≡ pos 0)
        × (contents (config_migrate_latest os itob16 path junk w).1
            ≡ splice 0 (first_record v0) (contents w))
  migrate-erased junk w n size erased =
      let (fd, w2, o, run) = migrate-start os path dev present itob16 junk w n (omega arith) in
      let v0 = slice 0 config_v0_size (contents w) in
      rw run (
        migrate_record-erased os path dev present itob16 fd v0 (contents w) w2 o
          (rw (get_or-take 0x0F config_v0_size (contents w) 0 (omega arith)) erased)
          (length-slice 0 config_v0_size (contents w) (omega arith)) size)

  -- A device whose record has a version from 1 to 0x7F is left as it is, and the result is -1.
  migrate-current :
      (junk : List ℕ) (w : W)
      → length junk ≡ config_v0_size
      → length (contents w) ≡ feram_size
      → 0 < version_of (contents w)
      → version_of (contents w) ≤ 0x7F
      → ((config_migrate_latest os itob16 path junk w).0 ≡ negsuc 0)
        × (contents (config_migrate_latest os itob16 path junk w).1 ≡ contents w)
  migrate-current junk w n size new low =
      let (fd, w2, o, run) = migrate-start os path dev present itob16 junk w n (omega arith) in
      let v0 = slice 0 config_v0_size (contents w) in
      let version = get_or-take 0x0F config_v0_size (contents w) 0 (omega arith) in
      rw run (
        migrate_record-current os path dev present itob16 fd v0 (contents w) w2 o (rw version new)
          (rw version low))

  -- The range of a new record is the new record's.
  pub new_slice :
      (off n : ℕ) (v1 c : List ℕ)
      → length v1 ≡ config_v1_size
      → off + n ≤ config_v1_size
      → config_v1_size ≤ length c
      → slice off n (splice 0 v1 c) ≡ slice off n v1
  new_slice off n v1 c e h k = slice-overlay_within off n v1 c (omega arith) (omega arith)

  version_of-one : (c : List ℕ) → slice 0x0F 1 c ≡ 1 ∷ [] → 0x10 ≤ length c → version_of c ≡ 1
  version_of-one c e h = ap (λ l. get_or l 0 0) (sym (slice_one 0x0F c 0 h) ∙ e)

  -- After a new record is in place, a migration finds version 1.
  migrate-new_record :
      (junk v1 c : List ℕ) (w : W)
      → length junk ≡ config_v0_size
      → length c ≡ feram_size
      → length v1 ≡ config_v1_size
      → slice 0x0F 1 v1 ≡ 1 ∷ []
      → contents w ≡ splice 0 v1 c
      → (version_of (contents w) ≡ 1)
        × ((config_migrate_latest os itob16 path junk w).0 ≡ negsuc 0)
        × (contents (config_migrate_latest os itob16 path junk w).1 ≡ contents w)
  migrate-new_record junk v1 c w n size n1 one e =
      let size' : length (contents w) ≡ feram_size = rw (e, length-splice) size in
      let version =
        version_of-one (contents w)
          (ap (slice 0x0F 1) e ∙ new_slice 0x0F 1 v1 c n1 (omega arith) (omega arith) ∙ one)
          (omega arith) in
      let (again, same) = migrate-current junk w n size' (omega arith) (omega arith) in
      (version, again, same)

  -- A migration of an old or an erased device succeeds and leaves version 1, and a second one then
  -- answers -1 and changes nothing.
  pub migrate_once :
      (junk junk' : List ℕ) (w : W)
      → length junk ≡ config_v0_size
      → length junk' ≡ config_v0_size
      → length (contents w) ≡ feram_size
      → (version_of (contents w) ≡ 0) ⊎ (0x7F < version_of (contents w))
      → let w' = (config_migrate_latest os itob16 path junk w).1 in
        ((config_migrate_latest os itob16 path junk w).0 ≡ pos 0)
        × (version_of (contents w') ≡ 1)
        × ((config_migrate_latest os itob16 path junk' w').0 ≡ negsuc 0)
        × (contents (config_migrate_latest os itob16 path junk' w').1 ≡ contents w')
  migrate_once junk junk' w n n' size (inl old) =
      let v0 = slice 0 config_v0_size (contents w) in
      let (done, e) = migrate-old junk w n size old in
      let n0 = length-slice 0 config_v0_size (contents w) (omega arith) in
      let (version, again, same) =
        migrate-new_record junk' (upgraded itob16 v0) (splice 1792 v0 (contents w)) _ n'
          (length-splice 1792 v0 (contents w) ∙ size) (length-upgraded itob16 v0 n0)
          (upgraded-version itob16 v0) e in
      (done, version, again, same)
  migrate_once junk junk' w n n' size (inr erased) =
      let v0 = slice 0 config_v0_size (contents w) in
      let (done, e) = migrate-erased junk w n size erased in
      let n0 = length-slice 0 config_v0_size (contents w) (omega arith) in
      let (version, again, same) =
        migrate-new_record junk' (first_record v0) (contents w) _ n' size
          (length-first_record itob16 v0 n0) (first_record-version v0) e in
      (done, version, again, same)

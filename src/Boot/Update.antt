-- ===== src/Boot/Update.antt =====
-- `update_app` and `update_bootloader` of main.c: what an update that runs to its end leaves in the
-- flash.
use rffe_uc_fw.Base.{ℕ, ◌+◌, ◌*◌, ◌%◌, ◌<◌, ◌≤◌, ◌≡◌, ◌⊎◌, inl, inr, refl, ap, ◌∙◌, true, arith}
use rffe_uc_fw.Boot.{
  Iap, lpc17_iap_prepare_sectors, lpc17_iap_erase_sectors, copy_flash_region, install_app,
  update_app, update_bootloader, start_app,
}
use rffe_uc_fw.Boot.Rom.{erased_word, IsConfined, IsFlash}
use rffe_uc_fw.Boot.Copy.{copy_flash_region-confined, copy_flash_region-copies}

module _ {F : Type 0} (iap : Iap F) where
  open iap use {word}

  -- Until its last command an update of the application leaves everything outside of the
  -- application as it was, also where commands fail.
  pub install_app-confined :
      IsConfined iap
      → (stack khz : ℕ) (f : F) (k : ℕ) → (4 * k < 0x10000) ⊎ (0x48000 ≤ 4 * k)
      → word (install_app iap stack khz f) k ≡ word f k
  unfolding install_app lpc17_iap_prepare_sectors lpc17_iap_erase_sectors
  install_app-confined rom stack khz f k out =
      rom.prepare_confined 29 29 _ k
      ∙ copy_flash_region-confined iap rom stack 0x48000 0x10000 0x38000 khz _ k out
      ∙ rom.erase_confined 16 22 khz _ k out
      ∙ rom.prepare_confined 16 22 f k

-- What the flash `g` has of the flash `f` before an update of the application.
pub record IsAppUpdated {F : Type 0} (iap : Iap F) (f g : F) : Type 0 where
  pub app : (k : ℕ) → 0x10000 ≤ 4 * k → 4 * k < 0x48000 → iap.word g k ≡ iap.word f (k + 0xE000)
  pub bootloader : (k : ℕ) → 4 * k < 0x10000 → iap.word g k ≡ iap.word f k
  pub update : (k : ℕ) → 0x48000 ≤ 4 * k → 4 * k < 0x78000 → iap.word g k ≡ iap.word f k
  pub order : (k : ℕ) → 0x78000 ≤ 4 * k → 4 * k < 0x80000 → iap.word g k ≡ erased_word

pub record IsBootloaderUpdated {F : Type 0} (iap : Iap F) (f g : F) : Type 0 where
  pub bootloader : (k : ℕ) → 4 * k < 0x10000 → iap.word g k ≡ iap.word f (k + 0x12000)
  pub kept : (k : ℕ) → 0x10000 ≤ 4 * k → 4 * k < 0x78000 → iap.word g k ≡ iap.word f k
  pub order : (k : ℕ) → 0x78000 ≤ 4 * k → 4 * k < 0x80000 → iap.word g k ≡ erased_word

module _ {F : Type 0} (iap : Iap F) (rom : IsFlash iap) (stack : ℕ) (aligned : stack % 4 ≡ 0) where
  open iap use {word}

  pub install_app-copies :
      (khz : ℕ) (f : F) (k : ℕ)
      → 0x10000 ≤ 4 * k
      → 4 * k < 0x48000
      → word (install_app iap stack khz f) k ≡ word f (k + 0xE000)
  unfolding install_app lpc17_iap_prepare_sectors lpc17_iap_erase_sectors
  install_app-copies khz f k lo hi =
      rom.confined.prepare_confined 29 29 _ k
      ∙ copy_flash_region-copies iap rom stack aligned 0x48000 0x10000 0x38000 khz f2 k refl refl
          refl (omega arith) (omega arith)
          (λ j p q.
            rom.erase_lem 16 22 khz f1 j (omega arith)
              (λ n. rom.prepare_lem 16 22 f n (omega arith)) p q)
          lo hi
      ∙ rom.confined.erase_confined 16 22 khz f1 _ (omega arith)
      ∙ rom.confined.prepare_confined 16 22 f _
      ∙ ap (word f) (omega arith)
    where
      f1 : F
      f1 = (lpc17_iap_prepare_sectors iap 16 22 f).1

      f2 : F
      f2 = (lpc17_iap_erase_sectors iap 16 22 khz f1).1

  install_app-prepared :
      (khz : ℕ) (f : F) (n : ℕ)
      → 29 ≤ n
      → n ≤ 29
      → rom.prepared (install_app iap stack khz f) n ≡ true
  unfolding install_app lpc17_iap_prepare_sectors
  install_app-prepared khz f n = rom.prepare_lem 29 29 _ n (omega arith)

  -- An update of the application that is not cut short leaves the application equal to the update,
  -- the bootloader and the update as they were but for the last sector, which is erased, and
  -- the order to update with it; then it starts the application.
  pub update_app-IsAppUpdated :
      (khz : ℕ) (f : F)
      → IsAppUpdated iap f (update_app iap stack khz f).1
        × ((update_app iap stack khz f).0 ≡ start_app iap 0x10000 (update_app iap stack khz f).1)
  unfolding update_app lpc17_iap_erase_sectors
  update_app-IsAppUpdated khz f = (
    record {
      app = λ k p q.
          rom.confined.erase_confined 29 29 khz f4 k (omega arith) ∙ install_app-copies khz f k p q;
      bootloader = λ k p.
          rom.confined.erase_confined 29 29 khz f4 k (omega arith)
          ∙ install_app-confined iap rom.confined stack khz f k (omega arith);
      update = λ k p q.
          rom.confined.erase_confined 29 29 khz f4 k (omega arith)
          ∙ install_app-confined iap rom.confined stack khz f k (omega arith);
      order = λ k p q. rom.erase_lem 29 29 khz f4 k (omega arith) (install_app-prepared khz f) p q;
    },
    refl,
  )
    where
      f4 : F
      f4 = install_app iap stack khz f

  -- The same for an update of the bootloader, which is copied from the same place.
  pub update_bootloader-IsBootloaderUpdated :
      (khz : ℕ) (f : F)
      → IsBootloaderUpdated iap f (update_bootloader iap stack khz f).1
        × ((update_bootloader iap stack khz f).0
            ≡ start_app iap 0x10000 (update_bootloader iap stack khz f).1)
  unfolding update_bootloader lpc17_iap_prepare_sectors lpc17_iap_erase_sectors
  update_bootloader-IsBootloaderUpdated khz f = (
    record {
      bootloader = λ k q.
          last k (omega arith)
          ∙ copy_flash_region-copies iap rom stack aligned 0x48000 0 0x10000 khz f2 k refl refl refl
              (omega arith) (omega arith)
              (λ j p q.
                rom.erase_lem 0 15 khz f1 j (omega arith)
                  (λ n. rom.prepare_lem 0 15 f n (omega arith)) p q)
              (omega arith) q
          ∙ first _ (omega arith)
          ∙ ap (word f) (omega arith);
      kept = λ k p q.
          last k (omega arith)
          ∙ copy_flash_region-confined iap rom.confined stack 0x48000 0 0x10000 khz f2 k
              (omega arith)
          ∙ first k (omega arith);
      order = λ k p q.
          rom.erase_lem 29 29 khz f4 k (omega arith) (λ n. rom.prepare_lem 29 29 f3 n (omega arith))
            p q;
    },
    refl,
  )
    where
      f1 : F
      f1 = (lpc17_iap_prepare_sectors iap 0 15 f).1

      f2 : F
      f2 = (lpc17_iap_erase_sectors iap 0 15 khz f1).1

      f3 : F
      f3 = copy_flash_region iap stack 0x48000 0 0x10000 khz f2

      f4 : F
      f4 = (lpc17_iap_prepare_sectors iap 29 29 f3).1

      first : (k : ℕ) → 0x10000 ≤ 4 * k → word f2 k ≡ word f k
      first k p =
          rom.confined.erase_confined 0 15 khz f1 k (inr p) ∙ rom.confined.prepare_confined 0 15 f k

      last :
          (k : ℕ)
          → 4 * k < 0x78000
          → word (lpc17_iap_erase_sectors iap 29 29 khz f4).1 k ≡ word f3 k
      last k q =
          rom.confined.erase_confined 29 29 khz f4 k (inl q)
          ∙ rom.confined.prepare_confined 29 29 f3 k

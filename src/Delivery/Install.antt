-- ===== src/Delivery/Install.antt =====
-- The boots after the host has sent an update.
use rffe_uc_fw.Base.{
  Bool, true, false, ℕ, ◌+◌, ◌*◌, ◌%◌, ◌<◌, ◌≤◌, ◌≡◌, ap, ◌∙◌, List, length, arith, ◌>>◌,
}
use rffe_uc_fw.Boot.{Iap, Started, main}
use rffe_uc_fw.Boot.Rom.{erased_word, IsFlash}
use rffe_uc_fw.Boot.Update.{IsAppUpdated, update_bootloader-IsBootloaderUpdated}
use rffe_uc_fw.Boot.Resume.{IsOrdered, interrupted_boots, resume}
use rffe_uc_fw.Boot.Ends.{main-start_app, start_app_words, main_for_bootloader}
use rffe_uc_fw.Delivery.{Progmem, word_at, Version, fw_kind}
use rffe_uc_fw.Delivery.Flash.{IsProgmem}
use rffe_uc_fw.Delivery.Stored.{Fits, IsStored, version_word, sent, sent-IsStored}

pub record IsVersion (v : Version) : Type 0 where
  pub major_byte : v.major < 256
  pub minor_byte : v.minor < 256
  pub patch_byte : v.patch < 256

version_word-kind :
    (v : Version) (bootloader : Bool)
    → IsVersion v
    → version_word v bootloader >> 24 ≡ fw_kind bootloader
version_word-kind v true h = omega (arith, h.major_byte, h.minor_byte, h.patch_byte)
version_word-kind v false h = omega (arith, h.major_byte, h.minor_byte, h.patch_byte)

-- Where the application starts with this stack pointer and entry.
abbrev pub started : (sp pc : ℕ) → Started
started sp pc = record { vtor = 0x10000; sp = sp; pc = pc }

-- The flash `g` runs the file, and has the bootloader of the flash `f`.
pub record IsInstalled {F : Type 0} (iap : Iap F) (file : List ℕ) (f g : F) : Type 0 where
  pub app : (j : ℕ) → j < 64 * 0x37F → iap.word g (0x4000 + j) ≡ word_at file j
  pub bootloader : (k : ℕ) → 4 * k < 0x10000 → iap.word g k ≡ iap.word f k
  pub done : iap.word g 0x1FFFF ≡ erased_word

module _ {F : Type 0} (iap : Iap F) (rom : IsFlash iap) (pm : Progmem F) (ok : IsProgmem iap pm)
    (stack : ℕ) (aligned : stack % 4 ≡ 0) where
  IsStored-IsOrdered :
      {file : List ℕ} {v : Version} {f g : F}
      → IsVersion v
      → IsStored iap file v false f g
      → IsOrdered iap g
  IsStored-IsOrdered {v = v} hv s = record {
    magic_set = s.magic;
    for_app = ap (λ w. w >> 24) s.version ∙ version_word-kind v false hv;
  }

  installed :
      {file : List ℕ} {v : Version} {f g h : F}
      → IsStored iap file v false f g
      → IsAppUpdated iap g h
      → IsInstalled iap file f h
  installed s u = record {
    app = λ j q.
        u.app (0x4000 + j) (omega arith) (omega arith)
        ∙ ap (iap.word _) (omega arith)
        ∙ s.stored j q;
    bootloader = λ k q. u.bootloader k q ∙ s.below k (omega arith);
    done = u.order 0x1FFFF (omega arith) (omega arith);
  }

  -- A host that sends an application, a file that ends before the last page of the flash, has it
  -- installed: after the reset, any number of boots that lose their power between two flash commands
  -- and one that does not, the application is the file with ones behind it, the bootloader is as it
  -- was, no order is left, and the boot starts at the stack pointer and the entry that the file
  -- begins with.
  pub sent-IsInstalled :
      (file : List ℕ) (v : Version) (buf : List ℕ) (f : F) (ns : List ℕ)
      → Fits file
      → IsVersion v
      → length buf ≡ 256
      → let boot =
          main iap stack (interrupted_boots iap stack ns (sent iap pm file v false buf f)) in
        (boot.0 ≡ started (word_at file 0) (word_at file 1)) × IsInstalled iap file f boot.1
  sent-IsInstalled file v buf f ns fits hv size =
      let s = sent-IsStored iap pm ok file v false buf f fits size in
      let g = sent iap pm file v false buf f in
      let h = interrupted_boots iap stack ns g in
      let u = resume iap rom stack aligned ns g (IsStored-IsOrdered hv s) in
      let ready = installed s u in
      (
        main-start_app iap stack h
            ∙ start_app_words iap stack _
            ∙ ap (λ w. started w (iap.word (main iap stack h).1 0x4001)) (ready.app 0 (omega arith))
            ∙ ap (started (word_at file 0)) (ready.app 1 (omega arith)),
        ready,
      )

  -- A host that sends a bootloader in the same way has it installed by the first boot: its 0x100
  -- pages are the begin of the file with ones behind it, the application is as it was, and that boot
  -- starts it.
  pub sent-IsBootloaderInstalled :
      (file : List ℕ) (v : Version) (buf : List ℕ) (f : F)
      → Fits file
      → IsVersion v
      → length buf ≡ 256
      → let boot = main iap stack (sent iap pm file v true buf f) in
        (boot.0 ≡ started (iap.word f 0x4000) (iap.word f 0x4001))
        × ((j : ℕ) → 4 * j < 0x10000 → iap.word boot.1 j ≡ word_at file j)
        × ((k : ℕ) → 0x10000 ≤ 4 * k → 4 * k < 0x48000 → iap.word boot.1 k ≡ iap.word f k)
  sent-IsBootloaderInstalled file v buf f fits hv size =
      let s = sent-IsStored iap pm ok file v true buf f fits size in
      let g = sent iap pm file v true buf f in
      let u = (update_bootloader-IsBootloaderUpdated iap rom stack aligned 72000 g).0 in
      let for_boot = ap (λ w. w >> 24) s.version ∙ version_word-kind v true hv in
      let same = main_for_bootloader iap stack g s.magic for_boot in
      let app = λ (k : ℕ) (lo : 0x10000 ≤ 4 * k) (hi : 4 * k < 0x48000).
        ap (λ d. iap.word d k) same ∙ u.kept k lo (omega arith) ∙ s.below k hi in
      (
        main-start_app iap stack g
            ∙ start_app_words iap stack _
            ∙ ap (λ w. started w (iap.word (main iap stack g).1 0x4001))
                (app 0x4000 (omega arith) (omega arith))
            ∙ ap (started (iap.word f 0x4000)) (app 0x4001 (omega arith) (omega arith)),
        (λ j h.
            ap (λ d. iap.word d j) same
            ∙ u.bootloader j h
            ∙ ap (iap.word g) (omega arith)
            ∙ s.stored j (omega arith)),
        app,
      )

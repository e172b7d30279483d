-- ===== src/Delivery/Stored.antt =====
-- The flash after the host has sent an update.
use rffe_uc_fw.Base.{
  ℕ, zero, suc, Bool, ◌+◌, ◌*◌, ◌<◌, ◌≤◌, ◌≡◌, refl, ap, ◌∙◌, ◌⊎◌, inl, inr, List, [], ◌∷◌, ◌++◌,
  length, drop, arith, sym, append_assoc,
}
use rffe_uc_fw.Boot.{Iap}
use rffe_uc_fw.Boot.Rom.{erased_word}
use rffe_uc_fw.FwUpdate.{command, run, erase_blocks}
use rffe_uc_fw.FwUpdate.Upload.{Page, page_actions, AllPages, upload_actions}
use rffe_uc_fw.FwUpdate.Script.{run-update}
use rffe_uc_fw.Delivery.{
  Progmem, perform, word_at, file_pages, Version, fw_kind, boot_sec, boot_page, update_pages,
  reprogram,
}
use rffe_uc_fw.Delivery.Image.{length-padded, length-drop}
use rffe_uc_fw.Delivery.Flash.{IsProgmem, perform-append}
use rffe_uc_fw.Delivery.Pages.{erase_blocks-blank, erase_blocks-below, pages_outside, pages_inside}

-- A file that ends before the last page of the flash: 0x37F pages at most.
abbrev pub Fits : List ℕ → Type 0
Fits file = length file ≤ 256 * 0x37F

AllPages-append : (ps qs : List Page) → AllPages ps → AllPages qs → AllPages (ps ++ qs)
AllPages-append [] qs hp hq = hq
AllPages-append (p ∷ ps) qs hp hq = (hp.0, AllPages-append ps qs hp.1 hq)

upload_actions-append :
    (ps qs : List Page) → upload_actions (ps ++ qs) ≡ upload_actions ps ++ upload_actions qs
upload_actions-append [] qs = refl
upload_actions-append (p ∷ ps) qs =
    ap (λ l. page_actions p ++ l) (upload_actions-append ps qs)
    ∙ sym (append_assoc (page_actions p) _ _)

file_pages-AllPages :
    (fuel n p : ℕ) (file : List ℕ)
    → p + n ≤ 0x800
    → length file ≤ 256 * n
    → AllPages (file_pages fuel p file)
file_pages-AllPages zero n p file h len = tt
file_pages-AllPages (suc fuel) n p [] h len = tt
file_pages-AllPages (suc fuel) zero p (b ∷ bs) h len = absurd (omega arith)
file_pages-AllPages (suc fuel) (suc n) p (b ∷ bs) h len =
    let left = length-drop 256 (b ∷ bs) in
    (
      (omega arith, length-padded (b ∷ bs)),
      file_pages-AllPages fuel n (1 + p) (drop 256 (b ∷ bs)) (omega arith) (omega arith),
    )

-- The first word of the header.
abbrev pub version_word : Version → (bootloader : Bool) → ℕ
version_word v bootloader =
    v.major + v.minor * 256 + v.patch * 65536 + fw_kind bootloader * 16777216

-- What the flash `g` has of the file, and of the flash `f` before it was sent.
pub record IsStored {F : Type 0} (iap : Iap F) (file : List ℕ) (v : Version) (bootloader : Bool)
    (f g : F) : Type 0 where
  pub stored : (j : ℕ) → j < 64 * 0x37F → iap.word g (0x12000 + j) ≡ word_at file j
  pub version : iap.word g 0x1FFFE ≡ version_word v bootloader
  pub magic : iap.word g 0x1FFFF ≡ 0xAAAAAAAA
  pub below : (k : ℕ) → 4 * k < 0x48000 → iap.word g k ≡ iap.word f k

module _ {F : Type 0} (iap : Iap F) (pm : Progmem F) where
  -- The flash after the server has done what the host asks for.
  abbrev pub sent : List ℕ → Version → (bootloader : Bool) → (buf : List ℕ) → F → F
  sent file v bootloader buf f =
      perform pm (run command buf (reprogram file v bootloader)).actions f

  module _ (ok : IsProgmem iap pm) where
    open iap use {word}

    sent_lem :
        (file : List ℕ) (v : Version) (bootloader : Bool) (buf : List ℕ) (f : F)
        → Fits file
        → length buf ≡ 256
        → sent file v bootloader buf f
          ≡ pm.up_progmem_write (256 * 0x7FF) (boot_sec v bootloader) (
              perform pm
                (upload_actions (file_pages (length file) 0x480 file))
                (perform pm erase_blocks f))
    sent_lem file v bootloader buf f fits size =
        let pages = file_pages (length file) 0x480 file in
        let all = update_pages file v bootloader in
        let good : AllPages all =
          AllPages-append pages (boot_page v bootloader ∷ [])
            (file_pages-AllPages (length file) 0x37F 0x480 file (omega arith) fits)
            ((omega arith, refl), tt) in
        ap (λ acts. perform pm acts f) (run-update all buf good size)
        ∙ (perform-append pm erase_blocks _ f
            ∙ (perform-append pm (upload_actions all) _ _
                ∙ (ap (λ acts. perform pm acts (perform pm erase_blocks f))
                      (upload_actions-append pages (boot_page v bootloader ∷ []))
                    ∙ perform-append pm (upload_actions pages) _ _)))

    -- A host that sends a file, which ends before the last page of the flash, has it in the upper
    -- half of the flash, with ones behind it, then the version, the kind and the magic word, and all
    -- below as it was.
    pub sent-IsStored :
        (file : List ℕ) (v : Version) (bootloader : Bool) (buf : List ℕ) (f : F)
        → Fits file
        → length buf ≡ 256
        → IsStored iap file v bootloader f (sent file v bootloader buf f)
    sent-IsStored file v bootloader buf f fits size =
        rw (sent_lem file v bootloader buf f fits size) (record {
          stored = λ j h.
              before (0x12000 + j) (omega arith)
              ∙ pages_inside iap pm ok (length file) 0x37F 0x480 file f1 j (omega arith)
                  (omega arith) (omega arith) fits
                  (λ k lo hi. erase_blocks-blank iap pm ok f k (omega arith) (omega arith)) h;
          version = ok.write_page 0x7FF (boot_sec v bootloader) f2 62 refl unwritten (omega arith);
          magic = ok.write_page 0x7FF (boot_sec v bootloader) f2 63 refl unwritten (omega arith);
          below = λ k h.
              before k (omega arith)
              ∙ outside k (inl (omega arith))
              ∙ erase_blocks-below iap pm ok f k h;
        })
      where
        f1 : F
        f1 = perform pm erase_blocks f

        f2 : F
        f2 = perform pm (upload_actions (file_pages (length file) 0x480 file)) f1

        outside : (k : ℕ) → (k < 64 * 0x480) ⊎ (64 * (0x480 + 0x37F) ≤ k) → word f2 k ≡ word f1 k
        outside k out =
            pages_outside iap pm ok (length file) 0x37F 0x480 file f1 k (omega arith) (omega arith)
              fits out

        before :
            (k : ℕ)
            → k < 64 * 0x7FF
            → word (pm.up_progmem_write (256 * 0x7FF) (boot_sec v bootloader) f2) k ≡ word f2 k
        before k h = ok.write_other (256 * 0x7FF) (boot_sec v bootloader) f2 k (inl (omega arith))

        unwritten : (k : ℕ) → 64 * 0x7FF ≤ k → k < 64 * 0x7FF + 64 → word f2 k ≡ erased_word
        unwritten k lo hi =
            outside k (inr (omega arith))
            ∙ erase_blocks-blank iap pm ok f k (omega arith) (omega arith)

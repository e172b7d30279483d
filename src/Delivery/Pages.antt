-- ===== src/Delivery/Pages.antt =====
-- What the commands of an update leave in the upper half of the flash.
use rffe_uc_fw.Base.{
  ℕ, zero, suc, ◌+◌, ◌-◌, ◌*◌, ◌<◌, ◌≤◌, ◌≡◌, ◌⊎◌, inl, inr, refl, ap, ◌∙◌, List, ◌++◌, length,
  take, drop, leb, ◌&&◌, true, le-or-lt, arith, ◌∷◌, [],
}
use rffe_uc_fw.Boot.{Iap}
use rffe_uc_fw.Boot.Rom.{erased_word}
use rffe_uc_fw.FwUpdate.{Action, erase_blocks}
use rffe_uc_fw.FwUpdate.Upload.{page_actions, upload_actions}
use rffe_uc_fw.Delivery.{Progmem, perform, word_at, file_pages, padded}
use rffe_uc_fw.Delivery.Image.{word_at-drop, word_at-padded, length-padded, length-drop}
use rffe_uc_fw.Delivery.Flash.{IsProgmem}

module _ {F : Type 0} (iap : Iap F) (pm : Progmem F) (ok : IsProgmem iap pm) where
  open iap use {word}

  abbrev erase_upto : ℕ → F → F
  erase_upto zero f = f
  erase_upto (suc n) f = pm.up_progmem_eraseblock n (erase_upto n f)

  erase_upto-blank :
      (n : ℕ) (f : F) (k : ℕ)
      → 0x48000 ≤ 4 * k
      → 4 * k < 0x48000 + 0x8000 * n
      → word (erase_upto n f) k ≡ erased_word
  erase_upto-blank zero f k lo hi = absurd (omega arith)
  erase_upto-blank (suc n) f k lo hi = elim (le-or-lt (0x48000 + 0x8000 * n) (4 * k)) [
    | inl above ↦ ok.erase_blank n (erase_upto n f) k above (omega arith)
    | inr below ↦ ok.erase_other n (erase_upto n f) k (inl below) ∙ erase_upto-blank n f k lo below
  ]

  erase_upto-below : (n : ℕ) (f : F) (k : ℕ) → 4 * k < 0x48000 → word (erase_upto n f) k ≡ word f k
  erase_upto-below zero f k lo = refl
  erase_upto-below (suc n) f k lo =
      ok.erase_other n (erase_upto n f) k (inl (omega arith)) ∙ erase_upto-below n f k lo

  -- The seven blocks are the upper half.
  pub erase_blocks-blank :
      (f : F) (k : ℕ)
      → 0x48000 ≤ 4 * k
      → 4 * k < 0x80000
      → word (perform pm erase_blocks f) k ≡ erased_word
  unfolding erase_blocks
  erase_blocks-blank f k lo hi = erase_upto-blank 7 f k lo (omega arith)

  pub erase_blocks-below :
      (f : F) (k : ℕ) → 4 * k < 0x48000 → word (perform pm erase_blocks f) k ≡ word f k
  unfolding erase_blocks
  erase_blocks-below f k lo = erase_upto-below 7 f k lo

  -- A page of the upper half is written.
  page_written :
      (p : ℕ) (bs : List ℕ) (rest : List Action) (f : F)
      → 0x480 ≤ p
      → p < 0x800
      → perform pm (page_actions (record { addr = 256 * p; bytes = bs }) ++ rest) f
        ≡ perform pm rest (pm.up_progmem_write (256 * p) bs f)
  page_written p bs rest f lo hi =
      let fits : (leb 0x48000 (256 * p) && leb (256 * p + 256) 0x80000) ≡ true = ground arith in
      rw fits refl

  -- The pages of a file that ends before the page `p + n`, and the words around them.
  pub pages_outside :
      (fuel n p : ℕ) (file : List ℕ) (f : F) (k : ℕ)
      → 0x480 ≤ p
      → p + n ≤ 0x800
      → length file ≤ 256 * n
      → (k < 64 * p) ⊎ (64 * (p + n) ≤ k)
      → word (perform pm (upload_actions (file_pages fuel p file)) f) k ≡ word f k
  pages_outside zero n p file f k lo hi len out = refl
  pages_outside (suc fuel) n p [] f k lo hi len out = refl
  pages_outside (suc fuel) zero p (b ∷ bs) f k lo hi len out = absurd (omega arith)
  pages_outside (suc fuel) (suc n) p (b ∷ bs) f k lo hi len out =
      let file = b ∷ bs in
      let page = padded (take 256 file) in
      let rest = drop 256 file in
      let f1 = pm.up_progmem_write (256 * p) page f in
      let size = length-padded file in
      let left = length-drop 256 file in
      ap (λ g. word g k)
        (page_written p page (upload_actions (file_pages fuel (1 + p) rest)) f lo (omega arith))
      ∙ pages_outside fuel n (1 + p) rest f1 k (omega arith) (omega arith) (omega arith)
          (omega arith)
      ∙ ok.write_other (256 * p) page f k (omega arith)

  pub pages_inside :
      (fuel n p : ℕ) (file : List ℕ) (f : F) (j : ℕ)
      → 0x480 ≤ p
      → p + n ≤ 0x800
      → length file ≤ fuel
      → length file ≤ 256 * n
      → ((k : ℕ) → 64 * p ≤ k → k < 64 * (p + n) → word f k ≡ erased_word)
      → j < 64 * n
      → word (perform pm (upload_actions (file_pages fuel p file)) f) (64 * p + j) ≡ word_at file j
  pages_inside zero n p [] f j lo hi enough len blank below = blank _ (omega arith) (omega arith)
  pages_inside zero n p (b ∷ bs) f j lo hi enough len blank below = absurd (omega arith)
  pages_inside (suc fuel) n p [] f j lo hi enough len blank below =
      blank _ (omega arith) (omega arith)
  pages_inside (suc fuel) zero p (b ∷ bs) f j lo hi enough len blank below = absurd (omega arith)
  pages_inside (suc fuel) (suc n) p (b ∷ bs) f j lo hi enough len blank below =
      let file = b ∷ bs in
      let page = padded (take 256 file) in
      let rest = drop 256 file in
      let f1 = pm.up_progmem_write (256 * p) page f in
      let size = length-padded file in
      let left = length-drop 256 file in
      ap (λ g. word g (64 * p + j))
        (page_written p page (upload_actions (file_pages fuel (1 + p) rest)) f lo (omega arith))
      ∙ elim (le-or-lt 64 j) [
        | inr here ↦
            pages_outside fuel n (1 + p) rest f1 (64 * p + j) (omega arith) (omega arith)
              (omega arith) (inl (omega arith))
            ∙ ok.write_page p page f j size (λ k from to. blank k from (omega arith)) here
            ∙ word_at-padded file j here
        | inl there ↦
            ap (word (perform pm (upload_actions (file_pages fuel (1 + p) rest)) f1)) (omega arith)
            ∙ pages_inside fuel n (1 + p) rest f1 (j - 64) (omega arith) (omega arith) (omega arith)
                (omega arith)
                (λ k from to.
                  ok.write_other (256 * p) page f k (omega arith)
                  ∙ blank k (omega arith) (omega arith))
                (omega arith)
            ∙ word_at-drop file (j - 64)
            ∙ ap (word_at file) (omega arith)
      ]

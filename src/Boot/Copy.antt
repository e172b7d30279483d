-- ===== src/Boot/Copy.antt =====
-- `copy_flash_region`: a copy between two parts of the flash that lie apart, into erased sectors.
use rffe_uc_fw.Base.{
  ℕ, zero, suc, ◌+◌, ◌-◌, ◌*◌, ◌/◌, ◌%◌, ◌<◌, ◌≤◌, ◌≡◌, ◌⊎◌, inl, inr, refl, ap, ◌∙◌, true, arith,
  le-or-lt, Bool-cases, ◌==◌,
}
use rffe_uc_fw.Boot.{
  Iap, buffer_ram, get_sector_number, lpc17_iap_prepare_sectors, lpc17_iap_copy_ram_flash,
  copy_page, copy_pages, copy_flash_region,
}
use rffe_uc_fw.Boot.Sectors.{get_sector_number_lem, page_in_sector}
use rffe_uc_fw.Boot.Rom.{erased_word, IsConfined, IsFlash}

module _ {F : Type 0} (iap : Iap F) (rom : IsConfined iap) where
  open iap use {word}

  -- A round changes its page alone, whatever the state of the flash.
  pub copy_page-confined :
      (stack src dest khz : ℕ) (f : F) (k : ℕ)
      → (4 * k < dest) ⊎ (dest + 256 ≤ 4 * k)
      → word (copy_page iap stack src dest khz f) k ≡ word f k
  unfolding copy_page lpc17_iap_prepare_sectors lpc17_iap_copy_ram_flash
  copy_page-confined stack src dest khz f k out =
      rom.copy_confined dest stack 256 khz (buffer_ram iap stack src f) _ k out
      ∙ rom.prepare_confined (get_sector_number dest) (get_sector_number dest) f k

  pub copy_pages-confined :
      (rounds stack src dest khz : ℕ) (f : F) (k : ℕ)
      → (4 * k < dest) ⊎ (dest + 256 * rounds ≤ 4 * k)
      → word (copy_pages iap rounds stack src dest khz f) k ≡ word f k
  unfolding copy_pages
  copy_pages-confined zero stack src dest khz f k out = refl
  copy_pages-confined (suc rounds) stack src dest khz f k out =
      copy_pages-confined rounds stack (src + 256) (dest + 256) khz
        (copy_page iap stack src dest khz f) k (omega arith)
      ∙ copy_page-confined stack src dest khz f k (omega arith)

module _ {F : Type 0} (iap : Iap F) (rom : IsFlash iap) (stack : ℕ) (aligned : stack % 4 ≡ 0) where
  open iap use {word}

  -- The page afterwards holds the words from `src`.
  copy_page-copies :
      (src dest khz : ℕ) (f : F) (k : ℕ)
      → src % 4 ≡ 0
      → dest % 256 ≡ 0
      → dest < 0x80000
      → ((j : ℕ) → dest ≤ 4 * j → 4 * j < dest + 256 → word f j ≡ erased_word)
      → dest ≤ 4 * k
      → 4 * k < dest + 256
      → word (copy_page iap stack src dest khz f) k ≡ word f ((src + (4 * k - dest)) / 4)
  unfolding copy_page lpc17_iap_prepare_sectors lpc17_iap_copy_ram_flash
  copy_page-copies src dest khz f k s4 d256 d blank lo hi =
      let n = get_sector_number dest in
      let (from, _, top) = get_sector_number_lem dest d in
      rom.copy_lem dest stack 256 khz (buffer_ram iap stack src f) _ n k d256 aligned (inl refl) top
        (rom.prepare_lem n n f n top (omega arith) (omega arith)) from (page_in_sector dest d d256)
        (λ j p q. rom.confined.prepare_confined n n f j ∙ blank j p q) lo hi
      ∙ ap (word f) (omega arith)

  -- The rounds that are left copy their pages, where source and destination do not meet.
  pub copy_pages-copies :
      (rounds src dest khz : ℕ) (f : F) (k : ℕ)
      → src % 4 ≡ 0
      → dest % 256 ≡ 0
      → dest + 256 * rounds ≤ 0x80000
      → (dest + 256 * rounds ≤ src) ⊎ (src + 256 * rounds ≤ dest)
      → ((j : ℕ) → dest ≤ 4 * j → 4 * j < dest + 256 * rounds → word f j ≡ erased_word)
      → dest ≤ 4 * k
      → 4 * k < dest + 256 * rounds
      → word (copy_pages iap rounds stack src dest khz f) k ≡ word f ((src + (4 * k - dest)) / 4)
  unfolding copy_pages
  copy_pages-copies zero src dest khz f k s4 d256 fits apart blank lo hi = absurd (omega arith)
  copy_pages-copies (suc rounds) src dest khz f k s4 d256 fits apart blank lo hi =
      elim (le-or-lt (dest + 256) (4 * k)) [
        | inl later ↦
            copy_pages-copies rounds (src + 256) (dest + 256) khz f1 k (omega arith) (omega arith)
              (omega arith) (omega arith) rest_blank later (omega arith)
            ∙ ap (word f1) (omega arith)
            ∙ copy_page-confined iap rom.confined stack src dest khz f _ (omega arith)
        | inr first ↦
            copy_pages-confined iap rom.confined rounds stack (src + 256) (dest + 256) khz f1 k
              (inl first)
            ∙ copy_page-copies src dest khz f k s4 d256 (omega arith)
                (λ j p q. blank j p (omega arith)) lo first
      ]
    where
      f1 : F
      f1 = copy_page iap stack src dest khz f

      rest_blank :
          (j : ℕ) → dest + 256 ≤ 4 * j → 4 * j < dest + 256 + 256 * rounds → word f1 j ≡ erased_word
      rest_blank j p q =
          copy_page-confined iap rom.confined stack src dest khz f j (inr p)
          ∙ blank j (omega arith) (omega arith)

-- `copy_flash_region` for a length that is a multiple of 256, and its confinement for any.
module _ {F : Type 0} (iap : Iap F) where
  open iap use {word}

  pub copy_flash_region-confined :
      IsConfined iap
      → (stack src dest len khz : ℕ) (f : F) (k : ℕ) → (4 * k < dest) ⊎ (dest + len ≤ 4 * k)
      → word (copy_flash_region iap stack src dest len khz f) k ≡ word f k
  unfolding copy_flash_region
  copy_flash_region-confined rom stack src dest len khz f k out =
      elim (Bool-cases (len % 256 == 0)) [
        | inl whole ↦ rw whole (
            copy_pages-confined iap rom (len / 256) stack src dest khz f k
              (let e : len % 256 ≡ 0 = ground arith in omega arith))
        | inr ragged ↦ rw ragged
      ]

  -- The destination afterwards holds what the source holds, word by word, and all else is as before.
  pub copy_flash_region-copies :
      IsFlash iap
      → (stack : ℕ) → stack % 4 ≡ 0
      → (src dest len khz : ℕ) (f : F) (k : ℕ) → len % 256 ≡ 0
      → src % 4 ≡ 0
      → dest % 256 ≡ 0
      → dest + len ≤ 0x80000
      → (dest + len ≤ src) ⊎ (src + len ≤ dest)
      → ((j : ℕ) → dest ≤ 4 * j → 4 * j < dest + len → word f j ≡ erased_word)
      → dest ≤ 4 * k
      → 4 * k < dest + len
      → word (copy_flash_region iap stack src dest len khz f) k
        ≡ word f ((src + (4 * k - dest)) / 4)
  unfolding copy_flash_region
  copy_flash_region-copies rom stack aligned src dest len khz f k l256 s4 d256 fits apart blank lo
        hi =
      let whole : (len % 256 == 0) ≡ true = ground arith in
      rw whole (
        copy_pages-copies iap rom stack aligned (len / 256) src dest khz f k s4 d256 (omega arith)
          (omega arith) (λ j p q. blank j p (omega arith)) lo (omega arith))

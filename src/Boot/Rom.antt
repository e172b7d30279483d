-- ===== src/Boot/Rom.antt =====
-- What the user manual of the LPC17xx says of the flash commands of its boot ROM, as far as the
-- bootloader relies on it.
use rffe_uc_fw.Base.{ℕ, ◌+◌, ◌-◌, ◌*◌, ◌%◌, ◌<◌, ◌≤◌, ◌≡◌, ◌⊎◌, Bool, true, [], ◌∷◌}
use rffe_uc_fw.Boot.{Iap, no_buffer}
use rffe_uc_fw.Boot.Sectors.{sector_start}

abbrev pub erased_word : ℕ
erased_word = 0xFFFFFFFF

-- A number of bytes that can be copied at once.
abbrev pub IsCopySize : ℕ → Type 0
IsCopySize len = (len ≡ 256) ⊎ (len ≡ 512) ⊎ (len ≡ 1024) ⊎ (len ≡ 4096)

-- No command changes a word outside the sectors or the page that it names.
pub record IsConfined {F : Type 0} (iap : Iap F) : Type 0 where
  pub prepare_confined :
      (s e : ℕ) (f : F) (k : ℕ)
      → iap.word (iap.iap_entry (50 ∷ s ∷ e ∷ 0 ∷ 0 ∷ []) no_buffer f).1 k ≡ iap.word f k
  pub erase_confined :
      (s e khz : ℕ) (f : F) (k : ℕ)
      → (4 * k < sector_start s) ⊎ (sector_start (e + 1) ≤ 4 * k)
      → iap.word (iap.iap_entry (52 ∷ s ∷ e ∷ khz ∷ 0 ∷ []) no_buffer f).1 k ≡ iap.word f k
  pub copy_confined :
      (dest src len khz : ℕ) (ram : ℕ → ℕ) (f : F) (k : ℕ)
      → (4 * k < dest) ⊎ (dest + len ≤ 4 * k)
      → iap.word (iap.iap_entry (51 ∷ dest ∷ src ∷ len ∷ khz ∷ []) ram f).1 k ≡ iap.word f k

-- A sector has to be prepared before it is erased or written; a page is written into erased flash.
pub record IsFlash {F : Type 0} (iap : Iap F) : Type 0 where
  pub confined : IsConfined iap
  pub prepared : F → ℕ → Bool
  pub prepare_lem :
      (s e : ℕ) (f : F) (n : ℕ)
      → e < 30
      → s ≤ n
      → n ≤ e
      → prepared (iap.iap_entry (50 ∷ s ∷ e ∷ 0 ∷ 0 ∷ []) no_buffer f).1 n ≡ true
  pub erase_lem :
      (s e khz : ℕ) (f : F) (k : ℕ)
      → e < 30
      → ((n : ℕ) → s ≤ n → n ≤ e → prepared f n ≡ true)
      → sector_start s ≤ 4 * k
      → 4 * k < sector_start (e + 1)
      → iap.word (iap.iap_entry (52 ∷ s ∷ e ∷ khz ∷ 0 ∷ []) no_buffer f).1 k ≡ erased_word
  pub copy_lem :
      (dest src len khz : ℕ) (ram : ℕ → ℕ) (f : F) (n k : ℕ)
      → dest % 256 ≡ 0
      → src % 4 ≡ 0
      → IsCopySize len
      → n < 30
      → prepared f n ≡ true
      → sector_start n ≤ dest
      → dest + len ≤ sector_start (n + 1)
      → ((j : ℕ) → dest ≤ 4 * j → 4 * j < dest + len → iap.word f j ≡ erased_word)
      → dest ≤ 4 * k
      → 4 * k < dest + len
      → iap.word (iap.iap_entry (51 ∷ dest ∷ src ∷ len ∷ khz ∷ []) ram f).1 k
        ≡ ram (src + (4 * k - dest))

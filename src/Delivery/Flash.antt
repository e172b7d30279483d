-- ===== src/Delivery/Flash.antt =====
-- What the two flash calls of NuttX are documented to do, and what it makes of pages and of the
-- actions of the server.
use rffe_uc_fw.Base.{ℕ, ◌+◌, ◌*◌, ◌<◌, ◌≤◌, ◌≡◌, ◌⊎◌, refl, List, [], ◌∷◌, ◌++◌, length}
use rffe_uc_fw.Boot.{Iap}
use rffe_uc_fw.Boot.Rom.{erased_word}
use rffe_uc_fw.FwUpdate.{Action, erase_block, progmem_write, reply, board_reset, close_socket}
use rffe_uc_fw.Delivery.{Progmem, perform, word_at}

-- A block is a sector of the upper half of the flash. A page is written into erased flash, and
-- nothing outside of a block or a page changes.
pub record IsProgmem {F : Type 0} (iap : Iap F) (pm : Progmem F) : Type 0 where
  pub erase_blank :
      (i : ℕ) (f : F) (k : ℕ)
      → 0x48000 + 0x8000 * i ≤ 4 * k
      → 4 * k < 0x48000 + 0x8000 * (i + 1)
      → iap.word (pm.up_progmem_eraseblock i f) k ≡ erased_word
  pub erase_other :
      (i : ℕ) (f : F) (k : ℕ)
      → (4 * k < 0x48000 + 0x8000 * i) ⊎ (0x48000 + 0x8000 * (i + 1) ≤ 4 * k)
      → iap.word (pm.up_progmem_eraseblock i f) k ≡ iap.word f k
  pub write_page :
      (p : ℕ) (bs : List ℕ) (f : F) (j : ℕ)
      → length bs ≡ 256
      → ((k : ℕ) → 64 * p ≤ k → k < 64 * p + 64 → iap.word f k ≡ erased_word)
      → j < 64
      → iap.word (pm.up_progmem_write (256 * p) bs f) (64 * p + j) ≡ word_at bs j
  pub write_other :
      (addr : ℕ) (bs : List ℕ) (f : F) (k : ℕ)
      → (4 * k + 4 ≤ addr) ⊎ (addr + length bs ≤ 4 * k)
      → iap.word (pm.up_progmem_write addr bs f) k ≡ iap.word f k

pub perform-append :
    {F : Type 0} (pm : Progmem F) (xs ys : List Action) (f : F)
    → perform pm (xs ++ ys) f ≡ perform pm ys (perform pm xs f)
perform-append pm [] ys f = refl
perform-append pm (erase_block i ∷ xs) ys f = perform-append pm xs ys (pm.up_progmem_eraseblock i f)
perform-append pm (progmem_write a bs ∷ xs) ys f =
    perform-append pm xs ys (pm.up_progmem_write a bs f)
perform-append pm (reply c ∷ xs) ys f = perform-append pm xs ys f
perform-append pm (board_reset ∷ xs) ys f = perform-append pm xs ys f
perform-append pm (close_socket ∷ xs) ys f = perform-append pm xs ys f

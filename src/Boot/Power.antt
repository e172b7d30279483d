-- ===== src/Boot/Power.antt =====
-- Power that fails between two flash commands of the bootloader: the same code, over a boot ROM
-- that works off a number of commands and then does nothing.
use mathlib.Core.Path.{subst}
use rffe_uc_fw.Base.{
  ℕ, zero, suc, ◌≡◌, ◌⊎◌, inl, inr, refl, ap, ◌∙◌, List, [], ◌+◌, ◌%◌, ◌/◌, ◌==◌, Bool, true, false,
  if◌then◌else◌,
}
use rffe_uc_fw.Boot.{
  Iap, lpc17_iap_prepare_sectors, lpc17_iap_copy_ram_flash, lpc17_iap_erase_sectors, copy_page,
  copy_pages, copy_flash_region, install_app,
}
use rffe_uc_fw.Boot.Rom.{IsConfined}

pub record Supply (F : Type 0) : Type 0 where
  pub flash : F
  -- The commands until the power fails.
  pub left : ℕ

abbrev pub supply : {F : Type 0} → F → ℕ → Supply F
supply f n = record { flash = f; left = n }

-- The outcome `r` of a command on `f`, if there is power for it.
abbrev pub powered : {F : Type 0} → List ℕ × F → F → ℕ → List ℕ × Supply F
powered r f zero = ([], supply f 0)
powered r f (suc n) = (r.0, supply r.1 n)

abbrev pub cut : {F : Type 0} → Iap F → Iap (Supply F)
cut iap = record {
  iap_entry = λ inout ram s. powered (iap.iap_entry inout ram s.flash) s.flash s.left;
  word = λ s k. iap.word s.flash k;
}

module _ {F : Type 0} (iap : Iap F) (rom : IsConfined iap) where
  powered_same :
      (r : List ℕ × F) (f : F) (n k : ℕ)
      → iap.word r.1 k ≡ iap.word f k
      → iap.word (powered r f n).1.flash k ≡ iap.word f k
  powered_same r f zero k e = refl
  powered_same r f (suc n) k e = e

  pub cut-IsConfined : IsConfined (cut iap)
  cut-IsConfined = record {
    prepare_confined =
        λ s e f k. powered_same _ f.flash f.left k (rom.prepare_confined s e f.flash k);
    erase_confined = λ s e khz f k out.
        powered_same _ f.flash f.left k (rom.erase_confined s e khz f.flash k out);
    copy_confined = λ dest src len khz ram f k out.
        powered_same _ f.flash f.left k (rom.copy_confined dest src len khz ram f.flash k out);
  }

-- The power is gone, or the flash is that of a run with power.
abbrev pub Agrees : {F : Type 0} → Supply F → F → Type 0
Agrees s f = (s.left ≡ 0) ⊎ (s.flash ≡ f)

pub record Follows {F : Type 0} (run : Supply F → Supply F) (full : F → F) : Type 0 where
  pub dead : (f : F) → (run (supply f 0)).left ≡ 0
  pub alive : (f : F) (n : ℕ) → Agrees (run (supply f n)) (full f)

module _ {F : Type 0} where
  dead_at :
      {run : Supply F → Supply F} {full : F → F}
      → Follows run full
      → (s : Supply F) → s.left ≡ 0
      → (run s).left ≡ 0
  dead_at {run} r s e = ap (λ n. (run (supply s.flash n)).left) e ∙ r.dead s.flash

  pub and_then :
      {run run' : Supply F → Supply F} {full full' : F → F}
      → Follows run full
      → Follows run' full'
      → Follows (λ s. run' (run s)) (λ f. full' (full f))
  and_then {run} {run'} {full} {full'} a b = record {
    dead = λ f. dead_at b (run (supply f 0)) (a.dead f);
    alive = λ f n. step (run (supply f n)) (full f) (a.alive f n);
  }
    where
      step : (s : Supply F) (f : F) → Agrees s f → Agrees (run' s) (full' f)
      step s f (inl gone) = inl (dead_at b s gone)
      step s f (inr same) = subst (λ g. Agrees (run' s) (full' g)) same (b.alive s.flash s.left)

module _ {F : Type 0} where
  guarded :
      (b : Bool) {run : Supply F → Supply F} {full : F → F}
      → Follows run full
      → Follows (λ s. if b then run s else s) (λ f. if b then full f else f)
  guarded true r = r
  guarded false r = record { dead = λ f. refl; alive = λ f n. inr refl }

module _ {F : Type 0} (iap : Iap F) where
  pub prepare-Follows :
      (a b : ℕ)
      → Follows
          (λ s. (lpc17_iap_prepare_sectors (cut iap) a b s).1)
          (λ f. (lpc17_iap_prepare_sectors iap a b f).1)
  unfolding lpc17_iap_prepare_sectors
  prepare-Follows a b = record { dead = λ f. refl; alive = elims }
    where
      elims :
          (f : F) (n : ℕ)
          → Agrees
              (lpc17_iap_prepare_sectors (cut iap) a b (supply f n)).1
              (lpc17_iap_prepare_sectors iap a b f).1
      elims f zero = inl refl
      elims f (suc n) = inr refl

  pub erase-Follows :
      (a b khz : ℕ)
      → Follows
          (λ s. (lpc17_iap_erase_sectors (cut iap) a b khz s).1)
          (λ f. (lpc17_iap_erase_sectors iap a b khz f).1)
  unfolding lpc17_iap_erase_sectors
  erase-Follows a b khz = record { dead = λ f. refl; alive = elims }
    where
      elims :
          (f : F) (n : ℕ)
          → Agrees
              (lpc17_iap_erase_sectors (cut iap) a b khz (supply f n)).1
              (lpc17_iap_erase_sectors iap a b khz f).1
      elims f zero = inl refl
      elims f (suc n) = inr refl

  copy_page-Follows :
      (stack src dest khz : ℕ)
      → Follows (copy_page (cut iap) stack src dest khz) (copy_page iap stack src dest khz)
  unfolding copy_page lpc17_iap_prepare_sectors lpc17_iap_copy_ram_flash
  copy_page-Follows stack src dest khz = record { dead = λ f. refl; alive = elims }
    where
      elims :
          (f : F) (n : ℕ)
          → Agrees
              (copy_page (cut iap) stack src dest khz (supply f n))
              (copy_page iap stack src dest khz f)
      elims f zero = inl refl
      elims f (suc zero) = inl refl
      elims f (suc (suc n)) = inr refl

  copy_pages-Follows :
      (rounds stack src dest khz : ℕ)
      → Follows
          (copy_pages (cut iap) rounds stack src dest khz)
          (copy_pages iap rounds stack src dest khz)
  unfolding copy_pages
  copy_pages-Follows zero stack src dest khz = record { dead = λ f. refl; alive = λ f n. inr refl }
  copy_pages-Follows (suc rounds) stack src dest khz =
      and_then (copy_page-Follows stack src dest khz)
        (copy_pages-Follows rounds stack (src + 256) (dest + 256) khz)

  copy_flash_region-Follows :
      (stack src dest len khz : ℕ)
      → Follows
          (copy_flash_region (cut iap) stack src dest len khz)
          (copy_flash_region iap stack src dest len khz)
  unfolding copy_flash_region
  copy_flash_region-Follows stack src dest len khz =
      guarded (len % 256 == 0) (copy_pages-Follows (len / 256) stack src dest khz)

  pub install_app-Follows :
      (stack khz : ℕ) → Follows (install_app (cut iap) stack khz) (install_app iap stack khz)
  unfolding install_app
  install_app-Follows stack khz = and_then (prepare-Follows 16 22) (
      and_then (erase-Follows 16 22 khz) (
        and_then (copy_flash_region-Follows stack 0x48000 0x10000 0x38000 khz)
          (prepare-Follows 29 29)))

-- ===== src/Boot/Ends.antt =====
-- start_app.c: what every boot ends with.
use rffe_uc_fw.Base.{ℕ, ◌≡◌, ◌≢◌, refl, inl, inr, Bool-cases, ◌==◌, arith}
use rffe_uc_fw.Boot.{Iap, start_app, update_app, update_bootloader, main, magic, fw_type}

module _ {F : Type 0} (iap : Iap F) (stack : ℕ) where
  -- Whatever a boot does to the flash, it starts the application that is there at its end.
  pub main-start_app : (f : F) → (main iap stack f).0 ≡ start_app iap 0x10000 (main iap stack f).1
  unfolding main update_app update_bootloader
  main-start_app f = elim (Bool-cases (magic iap f == 0xAAAAAAAA)) [
    | inl set ↦ elim (Bool-cases (fw_type iap f == 1)) [
      | inl app ↦ rw (set, app) refl
      | inr other ↦ elim (Bool-cases (fw_type iap f == 2)) [
        | inl boot ↦ rw (set, other, boot) refl
        | inr none ↦ rw (set, other, none) refl
      ]
    ]
    | inr unset ↦ rw unset refl
  ]

  -- The stack pointer and the entry of the application.
  pub start_app_words :
      (f : F)
      → start_app iap 0x10000 f
        ≡ record { vtor = 0x10000; sp = iap.word f 0x4000; pc = iap.word f 0x4001 }
  unfolding start_app
  start_app_words f = refl

  -- Without an order a boot leaves the flash as it is.
  pub main_unordered : (f : F) → magic iap f ≢ 0xAAAAAAAA → (main iap stack f).1 ≡ f
  unfolding main
  main_unordered f ne = elim (Bool-cases (magic iap f == 0xAAAAAAAA)) [
    | inl set ↦ absurd (ne (grind arith))
    | inr unset ↦ rw unset refl
  ]

  -- With an order for the bootloader a boot installs it.
  pub main_for_bootloader :
      (f : F)
      → magic iap f ≡ 0xAAAAAAAA
      → fw_type iap f ≡ 2
      → (main iap stack f).1 ≡ (update_bootloader iap stack 72000 f).1
  unfolding main
  main_for_bootloader f set boot = rw (set, boot) refl

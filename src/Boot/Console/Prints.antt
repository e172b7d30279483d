-- ===== src/Boot/Console/Prints.antt =====
-- main of bootloader/src/main.c: a boot returns, whatever it prints, and does what main does to the
-- flash.
use rffe_uc_fw.Base.{
  ℕ, ◌≡◌, refl, ap, ◌∙◌, inl, inr, sym, List, [], ◌++◌, Option, some, true, false, Bool-cases, ◌==◌,
  if◌then◌else◌, append_assoc,
}
use mathlib.Core.List.{append-nil}
use rffe_uc_fw.Base.Text.{codes}
use rffe_uc_fw.Uart.{Transmitter}
use rffe_uc_fw.Uart.Sends.{IsTransmitter, writes_return}
use rffe_uc_fw.Boot.{Iap, Started, fw_type, magic, start_app, main}
use rffe_uc_fw.Boot.Console.{
  Chip, warning, set_up, app_message, unknown_message, say, after_message, say_twice, announced,
  boot,
}

module _ {F H : Type 0} (iap : Iap F) (tx : Transmitter H) where
  -- What a boot prints.
  abbrev announcement : F → List ℕ
  announcement f =
      if fw_type iap f == 1
      then app_message iap f
      else if fw_type iap f == 2
      then codes
          "[BOOTLOADER] New bootloader firmware update found!\r\n[BOOTLOADER] Updating...\r\n"
      else unknown_message iap f

  abbrev pub printed : F → List ℕ
  printed f = if magic iap f == 0xAAAAAAAA then warning ++ announcement f else []

  module _ (polls : ℕ) (laws : IsTransmitter tx polls) (stack : ℕ) where
    open laws use {sent}

    say_lem :
        (text : List ℕ) (h : H)
        → (h1 : H) × (say tx polls text h ≡ some h1) × (sent h1 ≡ sent h ++ text)
    unfolding say
    say_lem text h =
        let (h1, run, all) = (writes_return tx polls laws text h).1 in (h1, rw (run, say) refl, all)

    say_twice_lem :
        (text text' : List ℕ) (h : H)
        → (h2 : H) × (say_twice tx polls text text' h ≡ some h2)
          × (sent h2 ≡ sent h ++ (text ++ text'))
    unfolding say_twice
    say_twice_lem text text' h =
        let (h1, run, one) = say_lem text h in
        let (h2, run', two) = say_lem text' h1 in
        (
          h2,
          rw (run, say_twice) run',
          two ∙ ap (λ l. l ++ text') one ∙ append_assoc (sent h) text text',
        )

    -- What the update of a boot is, after the warning.
    abbrev Ends : H → Chip F H → Option (Started × Chip F H) → List ℕ → Type 0
    Ends h c result text =
        (h' : H) × (result
          ≡ some (
            (main iap stack c.flash).0,
            record c { flash = (main iap stack c.flash).1; line = h' },
          ))
        × (sent h' ≡ sent h ++ text)

    announced_lem :
        (h : H) (c : Chip F H)
        → (magic iap c.flash == 0xAAAAAAAA) ≡ true
        → Ends h c (announced iap tx polls stack h c) (announcement c.flash)
    unfolding announced main after_message
    announced_lem h c set = elim (Bool-cases (fw_type iap c.flash == 1)) [
      | inl app ↦
          let (h1, run, all) = say_lem (app_message iap c.flash) h in
          rw (set, app) (h1, rw run refl, all)
      | inr other ↦ elim (Bool-cases (fw_type iap c.flash == 2)) [
        | inl for_boot ↦
            let (h1, run, all) =
              say_twice_lem (codes "[BOOTLOADER] New bootloader firmware update found!\r\n")
                (codes "[BOOTLOADER] Updating...\r\n") h in
            rw (set, other, for_boot) (h1, rw run refl, all)
        | inr unknown ↦
            let (h1, run, all) = say_lem (unknown_message iap c.flash) h in
            rw (set, other, unknown) (h1, rw run refl, all)
      ]
    ]

    main_unset :
        (f : F)
        → (magic iap f == 0xAAAAAAAA) ≡ false
        → main iap stack f ≡ (start_app iap 0x10000 f, f)
    unfolding main
    main_unset f unset = rw unset refl

    -- If the transmitter is free again after a bounded number of reads of its status, a boot returns:
    -- it has set up the registers, printed the messages for the order that it found, and done to the
    -- flash, and started, what main does without them.
    pub boot_returns :
        (c : Chip F H)
        → (h' : H) × (boot iap tx polls stack c
            ≡ some (
              (main iap stack c.flash).0,
              record (set_up c) { flash = (main iap stack c.flash).1; line = h' },
            ))
          × (sent h' ≡ sent c.line ++ printed c.flash)
    unfolding boot
    boot_returns c = elim (Bool-cases (magic iap c.flash == 0xAAAAAAAA)) [
      | inl set ↦
          let (h1, run, all) = say_lem warning c.line in
          let (h2, run', all') = announced_lem h1 (set_up c) set in
          (
            h2,
            rw (set, run, boot) run',
            rw set (
                all'
                ∙ ap (λ l. l ++ announcement c.flash) all
                ∙ append_assoc (sent c.line) warning _),
          )
      | inr unset ↦
          rw (unset, main_unset c.flash unset) (c.line, refl, sym (append-nil (sent c.line)))
    ]

-- ===== src/Boot/Console.antt =====
-- main of bootloader/src/main.c as a whole: the set-up of the flash accelerator, the PLL, the pins and
-- the UART, the messages, and the update.
pub mod Prints
use rffe_uc_fw.Base.{
  ℕ, zero, suc, ◌+◌, ◌-◌, ◌/◌, ◌%◌, ◌^◌, ◌≡◌, refl, ap, ◌∙◌, inl, inr, sym, List, [], ◌∷◌, ◌++◌, ℤ,
  pos, Option, none, some, true, Bool-cases, ltb, ◌==◌, if◌then◌else◌, bit_and, bit_or, ◌<<◌,
  append_assoc,
}
use rffe_uc_fw.Base.Text.{codes}
use rffe_uc_fw.Clock.{Write, pll0_irc_src, lpc17_set_pll0}
use rffe_uc_fw.Pincfg.{PinConnect, pin_mode_none, pin_func_alt1, lp17_pincfg}
use rffe_uc_fw.Uart.{Transmitter, UartRegs, lpc17_uart0_init, lpc17_uart0_write_str_blocking}
use rffe_uc_fw.Boot.{
  Iap, Started, load, fw_header, fw_type, magic, start_app, update_app, update_bootloader,
}

-- What main changes: the flash, the line behind the transmitter, and the registers. `pll` are the
-- writes to the registers of the PLL, in their order, and `pll0con` is what PLL0CON holds before.
pub record Chip (F H : Type 0) : Type 0 where
  pub flash : F
  pub line : H
  pub flashcfg : ℕ
  pub pll0con : ℕ
  pub pll : List Write
  pub pins : PinConnect
  pub uart : UartRegs

-- `%d` of a byte.
abbrev pub digit : ℕ → ℕ
digit d = 48 + d

abbrev pub decimal : ℕ → List ℕ
decimal n =
    if ltb n 10
    then digit n ∷ []
    else if ltb n 100
    then digit (n / 10) ∷ digit (n % 10) ∷ []
    else digit (n / 100) ∷ digit (n / 10 % 10) ∷ digit (n % 10) ∷ []

abbrev pub warning : List ℕ
warning = codes "[BOOTLOADER] DO NOT TURN OFF WHILE UPDATING!\r\n"

abbrev pub set_up : {F H : Type 0} → Chip F H → Chip F H
set_up c = record c {
  flashcfg = bit_or (bit_and c.flashcfg (2 ^ 32 - 1 - 0xF000)) (3 << 12);
  pll = c.pll ++ (lpc17_set_pll0 1 18 2 pll0_irc_src c.pll0con).1;
  pins =
      lp17_pincfg 0 3 pin_mode_none pin_func_alt1
        (lp17_pincfg 0 2 pin_mode_none pin_func_alt1 c.pins);
  uart = (lpc17_uart0_init 115200 72000000 c.uart).1;
}

module _ {F : Type 0} (iap : Iap F) where
  -- The bytes of `version`.
  abbrev pub version_byte : F → ℕ → ℕ
  version_byte f i = load iap f fw_header / 256 ^ i % 256

  abbrev pub app_message : F → List ℕ
  app_message f =
      codes "[BOOTLOADER] New app firmware update found!\r\nUpdating to "
      ++ (decimal (version_byte f 0)
          ++ (codes "."
              ++ (decimal (version_byte f 1)
                  ++ (codes "." ++ (decimal (version_byte f 2) ++ codes " ...\r\n")))))

  abbrev pub unknown_message : F → List ℕ
  unknown_message f =
      codes "[BOOTLOADER] ERROR: Unknown fw_type "
      ++ (decimal (fw_type iap f) ++ codes " !\r\n Jumping to application code...\r\n")

-- What follows a message.
pub after_message : {F H : Type 0} → Option H → Started × F → Chip F H → Option (Started × Chip F H)
after_message none done c = none
after_message (some h) (start, f) c = some (start, record c { flash = f; line = h })

module _ {H : Type 0} (tx : Transmitter H) where
  -- lpc17_uart0_write_str_blocking, whose result main does not look at.
  pub say : (polls : ℕ) → List ℕ → H → Option H
  say polls text h = elim (lpc17_uart0_write_str_blocking tx polls text h) [
    | none ↦ none
    | some (len, h1) ↦ some h1
  ]

  pub say_twice : (polls : ℕ) → List ℕ → List ℕ → H → Option H
  unfolding say
  say_twice polls text text' h = elim (say polls text h) [
    | none ↦ none
    | some h1 ↦ say polls text' h1
  ]

module _ {F H : Type 0} (iap : Iap F) (tx : Transmitter H) where
  -- The update, with the messages of each kind.
  pub announced : (polls stack : ℕ) → H → Chip F H → Option (Started × Chip F H)
  unfolding say after_message say_twice
  announced polls stack h c =
      let f = c.flash in
      if fw_type iap f == 1
      then after_message (say tx polls (app_message iap f) h) (update_app iap stack 72000 f) c
      else if fw_type iap f == 2
      then after_message
          (say_twice tx polls (codes "[BOOTLOADER] New bootloader firmware update found!\r\n")
            (codes "[BOOTLOADER] Updating...\r\n") h)
          (update_bootloader iap stack 72000 f) c
      else after_message (say tx polls (unknown_message iap f) h) (start_app iap 0x10000 f, f) c

  pub boot : (polls stack : ℕ) → Chip F H → Option (Started × Chip F H)
  unfolding announced
  boot polls stack c =
      let c1 = set_up c in
      if magic iap c1.flash == 0xAAAAAAAA
      then (elim (say tx polls warning c1.line) [
        | none ↦ none
        | some h ↦ announced polls stack h c1
      ])
      else some (start_app iap 0x10000 c1.flash, c1)

-- ===== src/Boot/Tests.antt =====
-- The theorems about the bootloader at a flash that holds an order, and runs of the number of a
-- sector.
use rffe_uc_fw.Base.{ℕ, ◌≡◌, refl, [], ◌∷◌, ◌==◌, ltb, some, ◌++◌, if◌then◌else◌, true}
use rffe_uc_fw.Boot.{get_sector_number, update_app, start_app, main}
use rffe_uc_fw.Boot.Rom.{erased_word}
use rffe_uc_fw.Boot.Update.{IsAppUpdated, update_app-IsAppUpdated}
use rffe_uc_fw.Boot.Resume.{IsOrdered, interrupted_boots, resume}
use rffe_uc_fw.Base.Text.{codes}
use rffe_uc_fw.Uart.Sim.{Line, slow, slow-IsTransmitter, line, regs}
use rffe_uc_fw.Boot.Console.{Chip, set_up, app_message, boot}
use rffe_uc_fw.Boot.Console.Prints.{printed, boot_returns}
use rffe_uc_fw.Boot.Sim.{SimFlash, sim, sim-IsFlash}

-- Version 1.2.3 of the application waits.
abbrev waiting : SimFlash
waiting = record {
  words = λ k. if k == 0x1FFFF then 0xAAAAAAAA else if k == 0x1FFFE then 0x01030201 else k;
  ready = λ n. true;
}

abbrev blank : SimFlash
blank = record { words = λ k. if ltb k 0x4000 then erased_word else k; ready = λ n. true }

abbrev stack : ℕ
stack = 0x10000000

sector_numbers :
    (get_sector_number 0xFFFF ≡ 15)
    × (get_sector_number 0x10000 ≡ 16)
    × (get_sector_number 0x47FFF ≡ 22)
    × (get_sector_number 0x48000 ≡ 23)
    × (get_sector_number 0x7FFFF ≡ 29)
unfolding get_sector_number
sector_numbers = (refl, refl, refl, refl, refl)

update_app-IsAppUpdated_example :
    IsAppUpdated sim waiting (update_app sim stack 72000 waiting).1
    × ((update_app sim stack 72000 waiting).0
        ≡ start_app sim 0x10000 (update_app sim stack 72000 waiting).1)
update_app-IsAppUpdated_example = update_app-IsAppUpdated sim sim-IsFlash stack refl 72000 waiting

waiting-IsOrdered : IsOrdered sim waiting
waiting-IsOrdered = record { magic_set = refl; for_app = refl }

resume_example :
    IsAppUpdated sim waiting
      (main sim stack (interrupted_boots sim stack (1 ∷ 900 ∷ 3 ∷ []) waiting)).1
resume_example = resume sim sim-IsFlash stack refl (1 ∷ 900 ∷ 3 ∷ []) waiting waiting-IsOrdered

abbrev chip : Chip SimFlash Line
chip = record {
  flash = waiting;
  line = line;
  flashcfg = 0;
  pll0con = 0;
  pll = [];
  pins = record { pinsel = λ q. 0; pinmode = λ q. 0 };
  uart = regs;
}

boot_returns_example :
    (h' : Line) × (boot sim slow 2 stack chip
      ≡ some (
        (main sim stack waiting).0,
        record (set_up chip) { flash = (main sim stack waiting).1; line = h' },
      ))
    × (h'.out ≡ [] ++ printed sim slow waiting)
boot_returns_example = boot_returns sim slow 2 slow-IsTransmitter stack chip

-- The version in the order that waits.
app_printed :
    app_message sim waiting
    ≡ codes "[BOOTLOADER] New app firmware update found!\r\nUpdating to 1.2.3 ...\r\n"
app_printed = refl

-- ===== src/Boot/Sectors.antt =====
-- The sectors of the LPC1769: sixteen of 4 KiB, then fourteen of 32 KiB, up to 0x80000.
use rffe_uc_fw.Base.{ℕ, ◌+◌, ◌-◌, ◌*◌, ◌%◌, ◌<◌, ◌≤◌, ◌≡◌, ltb, if◌then◌else◌, arith}
use rffe_uc_fw.Boot.{get_sector_number}

-- The first address of a sector; that of sector 30 is the end of the flash.
abbrev pub sector_start : ℕ → ℕ
sector_start n = if ltb n 16 then n * 0x1000 else 0x10000 + (n - 16) * 0x8000

-- An address in the flash lies in the sector of its number, and so does the page that it begins.
pub get_sector_number_lem :
    (a : ℕ)
    → a < 0x80000
    → (sector_start (get_sector_number a) ≤ a)
      × (a < sector_start (get_sector_number a + 1))
      × (get_sector_number a < 30)
unfolding get_sector_number
get_sector_number_lem a h = ground arith

pub page_in_sector :
    (a : ℕ) → a < 0x80000 → a % 256 ≡ 0 → a + 256 ≤ sector_start (get_sector_number a + 1)
unfolding get_sector_number
page_in_sector a h e = ground arith

-- ===== src/Boot.antt =====
-- bootloader/src: the flash calls of lpc17_iap.c, and the part of main.c that installs an update
-- and starts the application. The code of the boot ROM is a parameter, `Iap`.
pub mod Sectors
pub mod Rom
pub mod Copy
pub mod Update
pub mod Power
pub mod Resume
pub mod Ends
pub mod Console
pub mod Sim
mod Tests
use rffe_uc_fw.Base.{
  ℕ, zero, suc, ◌+◌, ◌-◌, ◌*◌, ◌/◌, ◌%◌, ◌^◌, List, [], ◌∷◌, get_or, ltb, ◌==◌, if◌then◌else◌, u8,
  ◌>>◌,
}

-- `F` is the state of the flash and its controller.
pub record Iap (F : Type 0) : Type 0 where
  -- The entry at 0x1FFF1FF1: the table of parameters, the memory that a command may read from, by
  -- address, and the flash. It returns the table of results.
  pub iap_entry : List ℕ → (ℕ → ℕ) → F → List ℕ × F
  -- The 32-bit word at the address `4 * k`.
  pub word : F → ℕ → ℕ

-- enum iap_cmds
abbrev pub iap_prepare_sectors_write : ℕ
iap_prepare_sectors_write = 50

abbrev pub iap_copy_ram_flash : ℕ
iap_copy_ram_flash = 51

abbrev pub iap_erase_sectors : ℕ
iap_erase_sectors = 52

abbrev pub iap_blank_check_sectors : ℕ
iap_blank_check_sectors = 53

-- The commands on sectors read no memory.
abbrev pub no_buffer : ℕ → ℕ
no_buffer a = 0

abbrev pub flash_end_addr : ℕ
flash_end_addr = 0x80000

abbrev pub app_start_addr : ℕ
app_start_addr = 0x10000

abbrev pub boot_start_addr : ℕ
boot_start_addr = 0

abbrev pub update_start_addr : ℕ
update_start_addr = 0x48000

abbrev pub app_size : ℕ
app_size = update_start_addr - app_start_addr

abbrev pub boot_size : ℕ
boot_size = app_start_addr

abbrev pub boot_start_sec : ℕ
boot_start_sec = 0

abbrev pub boot_end_sec : ℕ
boot_end_sec = 15

abbrev pub app_start_sec : ℕ
app_start_sec = 16

abbrev pub update_start_sec : ℕ
update_start_sec = 23

abbrev pub magic_word_sec : ℕ
magic_word_sec = 29

-- sizeof(fw_info)
abbrev pub fw_info_size : ℕ
fw_info_size = 8

abbrev pub fw_header : ℕ
fw_header = flash_end_addr - fw_info_size

pub get_sector_number : ℕ → ℕ
get_sector_number flash =
    if ltb flash 0x10000 then u8 (flash / 0x1000) else u8 ((flash - 0x10000) / 0x8000 + 16)

-- Where the processor goes on: the vector table, and the stack pointer and the entry that it holds.
pub record Started : Type 0 where
  pub vtor : ℕ
  pub sp : ℕ
  pub pc : ℕ

module _ {F : Type 0} (iap : Iap F) where
  open iap use {iap_entry, word}

  -- A word that a pointer names.
  abbrev pub load : F → ℕ → ℕ
  load f p = word f (p / 4)

  pub lpc17_iap_prepare_sectors : (start_sector end_sector : ℕ) → F → ℕ × F
  lpc17_iap_prepare_sectors start_sector end_sector f =
      let (inout, f') =
        iap_entry (iap_prepare_sectors_write ∷ start_sector ∷ end_sector ∷ 0 ∷ 0 ∷ []) no_buffer
          f in
      (get_or inout 0 0, f')

  pub lpc17_iap_copy_ram_flash : (ram : ℕ → ℕ) (src_ram dest_flash len cpu_clk_khz : ℕ) → F → ℕ × F
  lpc17_iap_copy_ram_flash ram src_ram dest_flash len cpu_clk_khz f =
      let (inout, f') =
        iap_entry (iap_copy_ram_flash ∷ dest_flash ∷ src_ram ∷ len ∷ cpu_clk_khz ∷ []) ram f in
      (get_or inout 0 0, f')

  pub lpc17_iap_erase_sectors : (start_sector end_sector cpu_clk_khz : ℕ) → F → ℕ × F
  lpc17_iap_erase_sectors start_sector end_sector cpu_clk_khz f =
      let (inout, f') =
        iap_entry (iap_erase_sectors ∷ start_sector ∷ end_sector ∷ cpu_clk_khz ∷ 0 ∷ []) no_buffer
          f in
      (get_or inout 0 0, f')

  pub lpc17_iap_blank_check : (start_sector end_sector : ℕ) → F → ℕ × F
  lpc17_iap_blank_check start_sector end_sector f =
      let (inout, f') =
        iap_entry (iap_blank_check_sectors ∷ start_sector ∷ end_sector ∷ 0 ∷ 0 ∷ []) no_buffer f in
      (get_or inout 0 0, f')

  -- The memory while `buffer`, at the address `stack`, holds the 64 words from `src`.
  abbrev pub buffer_ram : (stack src : ℕ) → F → ℕ → ℕ
  buffer_ram stack src f a = load f (src + 4 * ((a - stack) / 4))

  -- One round of the loop of `copy_flash_region`.
  pub copy_page : (stack src dest cpu_clk_khz : ℕ) → F → F
  copy_page stack src dest cpu_clk_khz f =
      let ram = buffer_ram stack src f in
      let sector = get_sector_number dest in
      let (_, f1) = lpc17_iap_prepare_sectors sector sector f in
      let (_, f2) = lpc17_iap_copy_ram_flash ram stack dest 256 cpu_clk_khz f1 in f2

  pub copy_pages : (rounds stack src dest cpu_clk_khz : ℕ) → F → F
  copy_pages zero stack src dest cpu_clk_khz f = f
  copy_pages (suc rounds) stack src dest cpu_clk_khz f =
      copy_pages rounds stack (src + 256) (dest + 256) cpu_clk_khz
        (copy_page stack src dest cpu_clk_khz f)

  pub copy_flash_region : (stack src dest len cpu_clk_khz : ℕ) → F → F
  copy_flash_region stack src dest len cpu_clk_khz f =
      if len % 256 == 0 then copy_pages (len / 256) stack src dest cpu_clk_khz f else f

  pub start_app : ℕ → F → Started
  start_app vtor f = record { vtor = vtor; sp = load f vtor; pc = load f (vtor + 4) }

  -- `update_app` up to the last command, which removes the order to update.
  pub install_app : (stack cpu_clk_khz : ℕ) → F → F
  install_app stack cpu_clk_khz f =
      let (_, f1) = lpc17_iap_prepare_sectors app_start_sec (update_start_sec - 1) f in
      let (_, f2) = lpc17_iap_erase_sectors app_start_sec (update_start_sec - 1) cpu_clk_khz f1 in
      let f3 = copy_flash_region stack update_start_addr app_start_addr app_size cpu_clk_khz f2 in
      let (_, f4) = lpc17_iap_prepare_sectors magic_word_sec magic_word_sec f3 in f4

  pub update_app : (stack cpu_clk_khz : ℕ) → F → Started × F
  update_app stack cpu_clk_khz f =
      let f4 = install_app stack cpu_clk_khz f in
      let (_, f5) = lpc17_iap_erase_sectors magic_word_sec magic_word_sec cpu_clk_khz f4 in
      (start_app 0x10000 f5, f5)

  pub update_bootloader : (stack cpu_clk_khz : ℕ) → F → Started × F
  update_bootloader stack cpu_clk_khz f =
      let (_, f1) = lpc17_iap_prepare_sectors boot_start_sec boot_end_sec f in
      let (_, f2) = lpc17_iap_erase_sectors boot_start_sec boot_end_sec cpu_clk_khz f1 in
      let f3 = copy_flash_region stack update_start_addr boot_start_addr boot_size cpu_clk_khz f2 in
      let (_, f4) = lpc17_iap_prepare_sectors magic_word_sec magic_word_sec f3 in
      let (_, f5) = lpc17_iap_erase_sectors magic_word_sec magic_word_sec cpu_clk_khz f4 in
      (start_app 0x10000 f5, f5)

  -- The fields of the header: `fw_type` is the fourth byte, `magic` the second word.
  abbrev pub fw_type : F → ℕ
  fw_type f = load f fw_header >> 24

  abbrev pub magic : F → ℕ
  magic f = load f (fw_header + 4)

  -- `main` after the set-up of the clock and the console, without the messages.
  pub main : (stack : ℕ) → F → Started × F
  main stack f =
      if magic f == 0xAAAAAAAA
      then (if fw_type f == 1
          then update_app stack 72000 f
          else if fw_type f == 2
          then update_bootloader stack 72000 f
          else (start_app 0x10000 f, f))
      else (start_app 0x10000 f, f)

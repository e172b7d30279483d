-- ===== src/Delivery.antt =====
-- An update from the host to the application: the host's RFFEFWUpdate.reprogram
-- (utils/rffe_nuttx_lib.py), which sends a file, the server of rffe-app/fw_update.c, which stores it,
-- and the bootloader, which installs it after the reset. The last two work on one flash. The calls
-- up_progmem_eraseblock and up_progmem_write of NuttX, which the server makes, are a parameter.
pub mod Image
pub mod Flash
pub mod Pages
pub mod Stored
pub mod Install
pub mod Untouched
mod Tests
use rffe_uc_fw.Base.{
  ℕ, zero, suc, ◌+◌, ◌-◌, ◌*◌, Bool, true, false, List, [], ◌∷◌, ◌++◌, length, get_or, take, drop,
  replicate, word_of_bytes,
}
use rffe_uc_fw.FwUpdate.{Action, erase_block, progmem_write, reply, board_reset, close_socket, Recv}
use rffe_uc_fw.FwUpdate.Upload.{Page}
use rffe_uc_fw.FwUpdate.Script.{update_input}

pub record Progmem (F : Type 0) : Type 0 where
  pub up_progmem_eraseblock : ℕ → F → F
  pub up_progmem_write : ℕ → List ℕ → F → F

module _ {F : Type 0} (pm : Progmem F) where
  -- What the actions of the server do to the flash.
  abbrev pub perform : List Action → F → F
  perform [] f = f
  perform (erase_block i ∷ acts) f = perform acts (pm.up_progmem_eraseblock i f)
  perform (progmem_write addr bs ∷ acts) f = perform acts (pm.up_progmem_write addr bs f)
  perform (reply c ∷ acts) f = perform acts f
  perform (board_reset ∷ acts) f = perform acts f
  perform (close_socket ∷ acts) f = perform acts f

-- The word `j` of a file, with the low byte first; there is 0xFF behind the end.
abbrev pub word_at : List ℕ → ℕ → ℕ
word_at bs j =
    word_of_bytes (get_or bs (4 * j) 0xFF) (get_or bs (4 * j + 1) 0xFF) (get_or bs (4 * j + 2) 0xFF)
      (get_or bs (4 * j + 3) 0xFF)

-- `pad.extend(b'\377' * (256 - len(pad)))`
abbrev pub padded : List ℕ → List ℕ
padded chunk = chunk ++ replicate (256 - length chunk) 0xFF

-- The loop of reprogram, from the page with this number of the flash. A round takes a byte at least,
-- so the length of the file is enough fuel.
abbrev pub file_pages : (fuel p : ℕ) → List ℕ → List Page
file_pages zero p file = []
file_pages (suc fuel) p [] = []
file_pages (suc fuel) p (b ∷ bs) =
    record { addr = 256 * p; bytes = padded (take 256 (b ∷ bs)) }
    ∷ file_pages fuel (1 + p) (drop 256 (b ∷ bs))

pub record Version : Type 0 where
  pub major : ℕ
  pub minor : ℕ
  pub patch : ℕ

abbrev pub fw_kind : (bootloader : Bool) → ℕ
fw_kind true = 2
fw_kind false = 1

-- `boot_sec`: the page with the order to install, which has the fields of fw_info at its end.
abbrev pub boot_sec : Version → (bootloader : Bool) → List ℕ
boot_sec v bootloader =
    replicate 248 0xFF
    ++ (v.major ∷ v.minor ∷ v.patch ∷ fw_kind bootloader ∷ 0xAA ∷ 0xAA ∷ 0xAA ∷ 0xAA ∷ [])

abbrev pub boot_page : Version → (bootloader : Bool) → Page
boot_page v bootloader = record { addr = 256 * 0x7FF; bytes = boot_sec v bootloader }

abbrev pub update_pages : List ℕ → Version → (bootloader : Bool) → List Page
update_pages file v bootloader =
    file_pages (length file) 0x480 file ++ (boot_page v bootloader ∷ [])

-- What RFFEFWUpdate.reprogram sends.
abbrev pub reprogram : List ℕ → Version → (bootloader : Bool) → List Recv
reprogram file v bootloader = update_input (update_pages file v bootloader)

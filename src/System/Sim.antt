-- ===== src/System/Sim.antt =====
-- A memory behind the descriptor 3, and nothing behind the others: the FERAM beside the DAC.
use rffe_uc_fw.Base.{
  ℕ, ◌≡◌, ◌≤◌, ◌+◌, refl, sym, ap, ℤ, pos, negsuc, Bool, true, false, List, length, splice, ◌==◌,
  ◌&&◌, arith, if◌then◌else◌,
}
use rffe_uc_fw.Device.Sim.{Memory, sim, read_result}
use rffe_uc_fw.Device.Os.{Os, IsDevice}
use rffe_uc_fw.Config.Transfers.{IsPresent}
use rffe_uc_fw.Commands.{cfg_file}
use rffe_uc_fw.Commands.Settings.{IsBoard}
use rffe_uc_fw.Commands.Sim.{idle}

abbrev is_feram : ℤ → Bool
is_feram (pos n) = n == 3
is_feram (negsuc n) = false

abbrev pub two_files : Os Memory
two_files = record sim {
  write_file = λ fd bs w. if is_feram fd then sim.write_file fd bs w else (pos (length bs), w);
}

pub feram_write :
    (fd : ℤ) (bs : List ℕ) (w : Memory)
    → (is_feram fd && w.write_access) ≡ true
    → w.at + length bs ≤ length w.bytes
    → ((two_files.write_file fd bs w).0 ≡ pos (length bs))
      × ((two_files.write_file fd bs w).1.bytes ≡ splice w.at bs w.bytes)
      × (true ≡ true)
      × ((is_feram fd && (two_files.write_file fd bs w).1.write_access) ≡ true)
feram_write fd bs w e h = ground arith

abbrev pub two_files-IsDevice : IsDevice two_files cfg_file
two_files-IsDevice = record {
  contents = λ w. w.bytes;
  offset = λ w fd. w.at;
  readable = λ w fd. true;
  writable = λ w fd. is_feram fd && w.write_access;
  open-contents = λ m w. refl;
  open-offset = λ m w fd e. refl;
  open_reads = λ w fd e. refl;
  open_writes = λ w fd e. (refl, ap (λ n. is_feram n && true) (sym e));
  lseek_lem = λ fd n w. (refl, refl, refl);
  lseek-offset = λ fd n w e. refl;
  read_lem = λ fd n w e h. (read_result w n h, refl, refl, refl, refl);
  write_lem = λ fd bs w r e h. feram_write fd bs w e h;
  close-contents = λ fd w. refl;
}

abbrev pub two_files-IsPresent : IsPresent two_files cfg_file
two_files-IsPresent = λ m w. (3, refl)

abbrev pub two_files-IsBoard : IsBoard two_files idle two_files-IsDevice
two_files-IsBoard = record {
  open_any = λ path m w. refl;
  read_any = λ fd n w. refl;
  set_att-contents = λ fd att w. refl;
}

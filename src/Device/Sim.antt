-- ===== src/Device/Sim.antt =====
-- A memory of bytes behind one descriptor, on which the device laws hold: what the theorems
-- about the configuration are applied to.
use rffe_uc_fw.Base.{
  ℕ, ◌-◌, ◌+◌, ◌≤◌, ◌≡◌, ap, ℤ, refl, String, Bool, true, false, List, pos, negsuc, length, slice,
  splice, arith, if◌then◌else◌, length-slice,
}
use Prim.Native.Nat.{min}
use rffe_uc_fw.Device.Os.{Access, read_write, Os, IsDevice}

pub record Memory : Type 0 where
  pub bytes : List ℕ
  pub at : ℕ
  pub write_access : Bool

abbrev allows_write : Access → Bool
allows_write read_write = true
allows_write _ = false

abbrev pub sim : Os Memory
sim = record {
  open_file = λ path m w. (pos 3, record w { at = 0; write_access = allows_write m });
  lseek = λ fd n w. record w { at = n };
  read_file =
      λ fd n w. (pos (length (slice w.at n w.bytes)), slice w.at n w.bytes, record w { at = w.at });
  write_file = λ fd bs w.
      if w.write_access
      then (
        pos (min (length bs) (length w.bytes - w.at)),
        record w { bytes = splice w.at bs w.bytes },
      )
      else (negsuc 8, w);
  close = λ fd w. w;
}

pub read_result :
    (w : Memory) (n : ℕ) → w.at + n ≤ length w.bytes → pos (length (slice w.at n w.bytes)) ≡ pos n
read_result w n h = ap pos (length-slice w.at n w.bytes h)

pub write_result :
    (fd : ℤ) (bs : List ℕ) (w : Memory)
    → w.write_access ≡ true
    → w.at + length bs ≤ length w.bytes
    → ((sim.write_file fd bs w).0 ≡ pos (length bs))
      × ((sim.write_file fd bs w).1.bytes ≡ splice w.at bs w.bytes)
      × (true ≡ true)
      × ((sim.write_file fd bs w).1.write_access ≡ true)
write_result fd bs w e h = ground arith

abbrev pub sim-IsDevice : (path : String) → IsDevice sim path
sim-IsDevice path = record {
  contents = λ w. w.bytes;
  offset = λ w fd. w.at;
  readable = λ w fd. true;
  writable = λ w fd. w.write_access;
  open-contents = λ m w. refl;
  open-offset = λ m w fd e. refl;
  open_reads = λ w fd e. refl;
  open_writes = λ w fd e. (refl, refl);
  lseek_lem = λ fd n w. (refl, refl, refl);
  lseek-offset = λ fd n w e. refl;
  read_lem = λ fd n w e h. (read_result w n h, refl, refl, refl, refl);
  write_lem = λ fd bs w r e h. write_result fd bs w e h;
  close-contents = λ fd w. refl;
}

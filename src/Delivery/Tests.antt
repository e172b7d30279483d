-- ===== src/Delivery/Tests.antt =====
-- The theorems about updates with the flash of Boot.Sim and a file of two pages, the second in part.
use rffe_uc_fw.Base.{
  ℕ, ◌+◌, ◌-◌, ◌*◌, ◌/◌, ◌<◌, ◌≤◌, ◌≡◌, refl, List, [], ◌∷◌, length, replicate, ℤ, pos, true, false,
  leb, ltb, ◌&&◌, if◌then◌else◌, arith,
}
use rffe_uc_fw.Boot.{main}
use rffe_uc_fw.Boot.Rom.{erased_word}
use rffe_uc_fw.Boot.Resume.{interrupted_boots}
use rffe_uc_fw.Boot.Sim.{SimFlash, sim, sim-IsFlash}
use rffe_uc_fw.FwUpdate.{
  Recv, got, failed, erase_blocks, dispatch, start_addr, write_page, step, after_step, run,
  after_session, serve, fw_update_server,
}
use rffe_uc_fw.Delivery.{Progmem, perform, word_at, Version}
use rffe_uc_fw.Delivery.Flash.{IsProgmem}
use rffe_uc_fw.Delivery.Stored.{sent}
use rffe_uc_fw.Delivery.Install.{
  IsVersion, IsInstalled, started, sent-IsInstalled, sent-IsBootloaderInstalled,
}
use rffe_uc_fw.Delivery.Untouched.{HasNoOrder, unfinished_kept}

abbrev progmem : Progmem SimFlash
progmem = record {
  up_progmem_eraseblock = λ i f. record f {
    words = λ k.
        if leb (0x48000 + 0x8000 * i) (4 * k) && ltb (4 * k) (0x48000 + 0x8000 * (i + 1))
        then erased_word
        else f.words k;
  };
  up_progmem_write = λ addr bs f. record f {
    words = λ k.
        if leb addr (4 * k) && ltb (4 * k) (addr + length bs)
        then word_at bs (k - addr / 4)
        else f.words k;
  };
}

written_word :
    (p : ℕ) (bs : List ℕ) (f : SimFlash) (j : ℕ)
    → length bs ≡ 256
    → j < 64
    → sim.word (progmem.up_progmem_write (256 * p) bs f) (64 * p + j) ≡ word_at bs j
written_word p bs f j size h =
    let k = 64 * p + j in
    let inside : (leb (256 * p) (4 * k) && ltb (4 * k) (256 * p + length bs)) ≡ true =
      ground (arith, size) in
    let index : k - 256 * p / 4 ≡ j = omega arith in rw (inside, index) refl

progmem-IsProgmem : IsProgmem sim progmem
progmem-IsProgmem = record {
  erase_blank = λ i f k lo hi. ground arith;
  erase_other = λ i f k out. ground arith;
  write_page = λ p bs f j size blank h. written_word p bs f j size h;
  write_other = λ addr bs f k out. ground arith;
}

-- A stack pointer of 0x10008000, an entry of 0x10101, and zeros.
abbrev image : List ℕ
image = 0 ∷ 0x80 ∷ 0 ∷ 0x10 ∷ 1 ∷ 1 ∷ 1 ∷ 0 ∷ replicate 300 0

abbrev version : Version
version = record { major = 1; minor = 4; patch = 0 }

version-IsVersion : IsVersion version
version-IsVersion = record {
  major_byte = omega arith;
  minor_byte = omega arith;
  patch_byte = omega arith;
}

abbrev buffer : List ℕ
buffer = replicate 256 0

abbrev old : SimFlash
old = record { words = λ k. k; ready = λ n. false }

-- The first boot has no power, the second loses it while it copies.
sent-IsInstalled_example :
    let boot =
      main sim 0
        (interrupted_boots sim 0 (0 ∷ 9 ∷ []) (sent sim progmem image version false buffer old)) in
    (boot.0 ≡ started (word_at image 0) (word_at image 1)) × IsInstalled sim image old boot.1
sent-IsInstalled_example =
    sent-IsInstalled sim sim-IsFlash progmem progmem-IsProgmem 0 refl image version buffer old
      (0 ∷ 9 ∷ []) (omega arith) version-IsVersion refl

image_start : started (word_at image 0) (word_at image 1) ≡ started 0x10008000 0x10101
image_start = refl

sent-IsBootloaderInstalled_example :
    let boot = main sim 0 (sent sim progmem image version true buffer old) in
    (boot.0 ≡ started 0x4000 0x4001)
    × ((j : ℕ) → 4 * j < 0x10000 → sim.word boot.1 j ≡ word_at image j)
    × ((k : ℕ) → 0x10000 ≤ 4 * k → 4 * k < 0x48000 → sim.word boot.1 k ≡ k)
sent-IsBootloaderInstalled_example =
    sent-IsBootloaderInstalled sim sim-IsFlash progmem progmem-IsProgmem 0 refl image version buffer
      old (omega arith) version-IsVersion refl

-- A client that erases and sends a page, and whose connection fails in the second.
abbrev broken_update : List Recv
broken_update =
    got (b'e' ∷ [])
    ∷ got (b'w' ∷ [])
    ∷ got (0 ∷ 0x80 ∷ 4 ∷ 0 ∷ [])
    ∷ got (replicate 256 0)
    ∷ got (b'w' ∷ [])
    ∷ got (0 ∷ 0x81 ∷ 4 ∷ 0 ∷ [])
    ∷ failed 11
    ∷ failed 11
    ∷ []

abbrev broken_connection : List (ℤ × List Recv)
broken_connection = (pos 4, broken_update) ∷ []

broken_connection-HasNoOrder :
    HasNoOrder (fw_update_server (pos 3) (pos 0) (pos 0) buffer broken_connection)
unfolding fw_update_server serve run step after_step after_session dispatch start_addr write_page
    erase_blocks
broken_connection-HasNoOrder = (omega arith, tt)

unfinished_kept_example :
    let boot =
      main sim 0
        (perform progmem (fw_update_server (pos 3) (pos 0) (pos 0) buffer broken_connection) old) in
    (boot.0 ≡ started 0x4000 0x4001) × ((k : ℕ) → 4 * k < 0x48000 → sim.word boot.1 k ≡ k)
unfinished_kept_example =
    unfinished_kept sim progmem progmem-IsProgmem (pos 3) (pos 0) (pos 0) buffer broken_connection 0
      old refl broken_connection-HasNoOrder (omega arith)

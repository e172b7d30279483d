-- ===== src/Device/Os.antt =====
-- The file calls that the firmware makes on a device node: open, lseek, read, write and close.
-- The driver behind them is not part of the repository, so the calls are a parameter, `Os`.

use rffe_uc_fw.Base.{ℕ, String, ◌≡◌, Bool, true, List, ◌+◌, ◌≤◌, ℤ, pos, length, slice, splice}

-- The access modes O_RDONLY, O_WRONLY and O_RDWR.
pub data Access : Type 0 where
  read_only write_only read_write : Access

-- `W` is the state of the world outside the firmware's own memory.
pub record Os (W : Type 0) : Type 0 where
  -- The descriptor, or a negative number.
  pub open_file : String → Access → W → ℤ × W
  -- With SEEK_SET.
  pub lseek : ℤ → ℕ → W → W
  -- The result, and the bytes that were stored at the start of the caller's buffer.
  pub read_file : ℤ → ℕ → W → ℤ × List ℕ × W
  pub write_file : ℤ → List ℕ → W → ℤ × W
  pub close : ℤ → W → W

-- What POSIX documents of these calls for a device at `path` that holds a fixed number of bytes
-- and has no fault: a transfer within its size is complete, and starts at the descriptor's offset.
pub record IsDevice {W : Type 0} (os : Os W) (path : String) : Type 0 where
  pub contents : W → List ℕ
  pub offset : W → ℤ → ℕ
  pub readable : W → ℤ → Bool
  pub writable : W → ℤ → Bool
  pub open-contents : (m : Access) (w : W) → contents (os.open_file path m w).1 ≡ contents w
  pub open-offset :
      (m : Access) (w : W) (fd : ℕ)
      → (os.open_file path m w).0 ≡ pos fd
      → offset (os.open_file path m w).1 (pos fd) ≡ 0
  pub open_reads :
      (w : W) (fd : ℕ)
      → (os.open_file path Access.read_only w).0 ≡ pos fd
      → readable (os.open_file path Access.read_only w).1 (pos fd) ≡ true
  pub open_writes :
      (w : W) (fd : ℕ)
      → (os.open_file path Access.read_write w).0 ≡ pos fd
      → (readable (os.open_file path Access.read_write w).1 (pos fd) ≡ true)
        × (writable (os.open_file path Access.read_write w).1 (pos fd) ≡ true)
  pub lseek_lem :
      (fd : ℤ) (n : ℕ) (w : W)
      → (contents (os.lseek fd n w) ≡ contents w)
        × (readable (os.lseek fd n w) fd ≡ readable w fd)
        × (writable (os.lseek fd n w) fd ≡ writable w fd)
  pub lseek-offset :
      (fd : ℤ) (n : ℕ) (w : W) → readable w fd ≡ true → offset (os.lseek fd n w) fd ≡ n
  pub read_lem :
      (fd : ℤ) (n : ℕ) (w : W)
      → readable w fd ≡ true
      → offset w fd + n ≤ length (contents w)
      → ((os.read_file fd n w).0 ≡ pos n)
        × ((os.read_file fd n w).1 ≡ slice (offset w fd) n (contents w))
        × (contents (os.read_file fd n w).2 ≡ contents w)
        × (readable (os.read_file fd n w).2 fd ≡ true)
        × (writable (os.read_file fd n w).2 fd ≡ writable w fd)
  pub write_lem :
      (fd : ℤ) (bs : List ℕ) (w : W)
      → readable w fd ≡ true
      → writable w fd ≡ true
      → offset w fd + length bs ≤ length (contents w)
      → ((os.write_file fd bs w).0 ≡ pos (length bs))
        × (contents (os.write_file fd bs w).1 ≡ splice (offset w fd) bs (contents w))
        × (readable (os.write_file fd bs w).1 fd ≡ true)
        × (writable (os.write_file fd bs w).1 fd ≡ true)
  pub close-contents : (fd : ℤ) (w : W) → contents (os.close fd w) ≡ contents w

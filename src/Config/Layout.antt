-- ===== src/Config/Layout.antt =====
-- config_file.c: the offsets of the fields, and the call sequence of every accessor, which opens
-- the device, seeks, transfers and closes. A value is its bytes in memory.
use rffe_uc_fw.Base.{
  ℕ, ◌+◌, ◌≤◌, ◌≡◌, String, List, ℤ, pos, negsuc, is_neg, length, overlay, slice, splice, ap, ◌∙◌,
  if◌then◌else◌, true,
}
use mathlib.Core.Path.{ap₂}
use rffe_uc_fw.Device.Os.{read_only, read_write, Os, IsDevice}

abbrev pub mac_addr_offset : ℕ
mac_addr_offset = 0

abbrev pub config_version_offset : ℕ
config_version_offset = 0x0F

abbrev pub ip_addr_offset : ℕ
ip_addr_offset = 0x10

abbrev pub mask_addr_offset : ℕ
mask_addr_offset = 0x20

abbrev pub gateway_addr_offset : ℕ
gateway_addr_offset = 0x30

abbrev pub attenuation_offset : ℕ
attenuation_offset = 0x40

abbrev pub eth_addr_offset : ℕ
eth_addr_offset = 0x50

abbrev pub temp_ctrl_mode_offset : ℕ
temp_ctrl_mode_offset = 0x51

abbrev pub pid_ac_kc_offset : ℕ
pid_ac_kc_offset = 0x60

abbrev pub pid_ac_ti_offset : ℕ
pid_ac_ti_offset = 0x64

abbrev pub pid_ac_td_offset : ℕ
pid_ac_td_offset = 0x68

abbrev pub pid_bd_kc_offset : ℕ
pid_bd_kc_offset = 0x6C

abbrev pub pid_bd_ti_offset : ℕ
pid_bd_ti_offset = 0x70

abbrev pub pid_bd_td_offset : ℕ
pid_bd_td_offset = 0x74

abbrev pub pid_ac_set_point_offset : ℕ
pid_ac_set_point_offset = 0x78

abbrev pub pid_bd_set_point_offset : ℕ
pid_bd_set_point_offset = 0x7C

-- `if (ret > 0) ret = 0;`
abbrev pub clear_positive : ℤ → ℤ
clear_positive (pos n) = pos 0
clear_positive (negsuc n) = negsuc n

module _ {W : Type 0} (os : Os W) (path : String) where
  -- The body of a getter: `out` is what the caller's buffer holds before.
  unfoldable pub read_at : (off n : ℕ) → List ℕ → W → ℤ × List ℕ × W
  read_at off n out w =
      let (fd, w1) = os.open_file path read_only w in
      let (ret, got, w2) = os.read_file fd n (os.lseek fd off w1) in
      if is_neg fd then (fd, out, w1) else (clear_positive ret, overlay got out, os.close fd w2)

  -- The body of a setter.
  unfoldable pub write_at : ℕ → List ℕ → W → ℤ × W
  write_at off value w =
      let (fd, w1) = os.open_file path read_write w in
      let (ret, w2) = os.write_file fd value (os.lseek fd off w1) in
      if is_neg fd then (fd, w1) else (clear_positive ret, os.close fd w2)

-- On a device without a fault a seek and a transfer are a read or a write of the range.
module _ {W : Type 0} (os : Os W) (path : String) (dev : IsDevice os path) where
  open dev use {contents, offset, readable, writable}

  pub lseek-read :
      (fd : ℤ) (off n : ℕ) (w : W)
      → readable w fd ≡ true
      → off + n ≤ length (contents w)
      → ((os.read_file fd n (os.lseek fd off w)).0 ≡ pos n)
        × ((os.read_file fd n (os.lseek fd off w)).1 ≡ slice off n (contents w))
        × (contents (os.read_file fd n (os.lseek fd off w)).2 ≡ contents w)
        × (readable (os.read_file fd n (os.lseek fd off w)).2 fd ≡ true)
  lseek-read fd off n w r h =
      let (c, r', _) = dev.lseek_lem fd off w in
      let at = dev.lseek-offset fd off w r in
      let (ret, got, same, r'', _) =
        dev.read_lem fd n (os.lseek fd off w) (r' ∙ r) (rw (at, c) h) in
      (ret, got ∙ ap₂ (λ at c. slice at n c) at c, same ∙ c, r'')

  pub lseek-write :
      (fd : ℤ) (off : ℕ) (value : List ℕ) (w : W)
      → readable w fd ≡ true
      → writable w fd ≡ true
      → off + length value ≤ length (contents w)
      → ((os.write_file fd value (os.lseek fd off w)).0 ≡ pos (length value))
        × (contents (os.write_file fd value (os.lseek fd off w)).1 ≡ splice off value (contents w))
        × (readable (os.write_file fd value (os.lseek fd off w)).1 fd ≡ true)
        × (writable (os.write_file fd value (os.lseek fd off w)).1 fd ≡ true)
  lseek-write fd off value w r m h =
      let (c, r', m') = dev.lseek_lem fd off w in
      let at = dev.lseek-offset fd off w r in
      let (ret, wrote, r'', m'') =
        dev.write_lem fd value (os.lseek fd off w) (r' ∙ r) (m' ∙ m) (rw (at, c) h) in
      (ret, wrote ∙ ap₂ (λ at c. splice at value c) at c, r'', m'')

  pub read_at_lem :
      (off n : ℕ) (out : List ℕ) (w : W) (fd : ℕ)
      → (os.open_file path read_only w).0 ≡ pos fd
      → off + n ≤ length (contents w)
      → ((read_at os path off n out w).0 ≡ pos 0)
        × ((read_at os path off n out w).1 ≡ overlay (slice off n (contents w)) out)
        × (contents (read_at os path off n out w).2 ≡ contents w)
  unfolding read_at
  read_at_lem off n out w fd e h =
      let w1 = (os.open_file path read_only w).1 in
      let c = dev.open-contents read_only w in
      let (ret, got, same, _) = lseek-read (pos fd) off n w1 (dev.open_reads w fd e) (rw c h) in
      rw e (
        ap clear_positive ret,
        ap (λ got. overlay got out) (got ∙ ap (slice off n) c),
        dev.close-contents _ _ ∙ same ∙ c,
      )

  pub write_at_lem :
      (off : ℕ) (value : List ℕ) (w : W) (fd : ℕ)
      → (os.open_file path read_write w).0 ≡ pos fd
      → off + length value ≤ length (contents w)
      → ((write_at os path off value w).0 ≡ pos 0)
        × (contents (write_at os path off value w).1 ≡ splice off value (contents w))
  unfolding write_at
  write_at_lem off value w fd e h =
      let w1 = (os.open_file path read_write w).1 in
      let c = dev.open-contents read_write w in
      let (r, m) = dev.open_writes w fd e in
      let (ret, wrote, _, _) = lseek-write (pos fd) off value w1 r m (rw c h) in
      rw e (ap clear_positive ret, dev.close-contents _ _ ∙ wrote ∙ ap (splice off value) c)

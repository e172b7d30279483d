-- ===== src/Config/Transfers.antt =====
-- config_file.c: what the bodies that the accessors share do on a device without a fault, where
-- the record fits the device. `ret` is added to in the last four, so it shows in the result.
use rffe_uc_fw.Base.{
  ℕ, ◌+◌, ◌≤◌, ◌≡◌, ap, ◌∙◌, String, List, [], ◌∷◌, ℤ, pos, ◌+int◌, length, get_or, overlay, slice,
  splice, length-splice,
}
use rffe_uc_fw.Device.Os.{Access, read_only, read_write, Os, IsDevice}
use rffe_uc_fw.Config.Layout.{
  eth_addr_offset, temp_ctrl_mode_offset, clear_positive, lseek-read, lseek-write,
}
use rffe_uc_fw.Config.{
  PidConstants, read_adding, write_adding, get_pid, set_pid, EthAddrMode, eth_mode_of_byte,
  config_get_eth_addressing, TempCtrlMode, temp_mode_of_byte, config_get_temp_control_mode,
}

-- The node exists, and a descriptor is to be had.
abbrev pub IsPresent : {W : Type 0} → Os W → String → Type 0
IsPresent {W} os path = (m : Access) (w : W) → (fd : ℕ) × ((os.open_file path m w).0 ≡ pos fd)

-- The local byte after a read of `got` into it.
abbrev pub first_byte : (junk : ℕ) → List ℕ → ℕ
first_byte junk got = get_or (overlay got (junk ∷ [])) 0 junk

module _ {W : Type 0} (os : Os W) (path : String) (dev : IsDevice os path)
    (present : IsPresent os path) where
  open dev use {contents, readable, writable}

  pub read_adding_lem :
      (off : ℕ) (ret : ℤ) (out : List ℕ) (w : W)
      → off + 4 ≤ length (contents w)
      → ((read_adding os path off ret out w).0 ≡ clear_positive (ret +int pos 4))
        × ((read_adding os path off ret out w).1 ≡ overlay (slice off 4 (contents w)) out)
        × (contents (read_adding os path off ret out w).2 ≡ contents w)
  unfolding read_adding
  read_adding_lem off ret out w h =
      let (fd, e) = present read_only w in
      let c = dev.open-contents read_only w in
      let (r, got, same, _) =
        lseek-read os path dev (pos fd) off 4 (os.open_file path read_only w).1
          (dev.open_reads w fd e) (rw c h) in
      rw e (
        ap (λ r. clear_positive (ret +int r)) r,
        ap (λ got. overlay got out) (got ∙ ap (slice off 4) c),
        dev.close-contents _ _ ∙ same ∙ c,
      )

  pub write_adding_lem :
      (off : ℕ) (ret : ℤ) (value : List ℕ) (w : W)
      → off + length value ≤ length (contents w)
      → ((write_adding os path off ret value w).0 ≡ clear_positive (ret +int pos (length value)))
        × (contents (write_adding os path off ret value w).1 ≡ splice off value (contents w))
  unfolding write_adding
  write_adding_lem off ret value w h =
      let (fd, e) = present read_write w in
      let c = dev.open-contents read_write w in
      let (rd, wr) = dev.open_writes w fd e in
      let (r, wrote, _, _) =
        lseek-write os path dev (pos fd) off value (os.open_file path read_write w).1 rd wr
          (rw c h) in
      rw e (
        ap (λ r. clear_positive (ret +int r)) r,
        dev.close-contents _ _ ∙ wrote ∙ ap (splice off value) c,
      )

  pub get_pid_lem :
      (a b d : ℕ) (ret : ℤ) (c : PidConstants) (w : W)
      → a + 4 ≤ length (contents w)
      → b + 4 ≤ length (contents w)
      → d + 4 ≤ length (contents w)
      → ((get_pid os path a b d ret c w).0 ≡ clear_positive (ret +int pos 4 +int pos 4 +int pos 4))
        × ((get_pid os path a b d ret c w).1.kc ≡ overlay (slice a 4 (contents w)) c.kc)
        × ((get_pid os path a b d ret c w).1.ti ≡ overlay (slice b 4 (contents w)) c.ti)
        × ((get_pid os path a b d ret c w).1.td ≡ overlay (slice d 4 (contents w)) c.td)
        × (contents (get_pid os path a b d ret c w).2 ≡ contents w)
  unfolding get_pid
  get_pid_lem a b d ret c w ha hb hd =
      let (fd, e) = present read_only w in
      let w1 = (os.open_file path read_only w).1 in
      let s1 = dev.open-contents read_only w in
      let (r1, g1, t2, o2) =
        lseek-read os path dev (pos fd) a 4 w1 (dev.open_reads w fd e) (rw s1 ha) in
      let w2 = (os.read_file (pos fd) 4 (os.lseek (pos fd) a w1)).2 in
      let s2 = t2 ∙ s1 in
      let (r2, g2, t3, o3) = lseek-read os path dev (pos fd) b 4 w2 o2 (rw s2 hb) in
      let w3 = (os.read_file (pos fd) 4 (os.lseek (pos fd) b w2)).2 in
      let s3 = t3 ∙ s2 in
      let (r3, g3, t4, _) = lseek-read os path dev (pos fd) d 4 w3 o3 (rw s3 hd) in
      rw e (
        rw (r1, r2, r3),
        ap (λ got. overlay got c.kc) (g1 ∙ ap (slice a 4) s1),
        ap (λ got. overlay got c.ti) (g2 ∙ ap (slice b 4) s2),
        ap (λ got. overlay got c.td) (g3 ∙ ap (slice d 4) s3),
        dev.close-contents _ _ ∙ t4 ∙ s3,
      )

  pub set_pid_lem :
      (a b d : ℕ) (ret : ℤ) (c : PidConstants) (w : W)
      → a + length c.kc ≤ length (contents w)
      → b + length c.ti ≤ length (contents w)
      → d + length c.td ≤ length (contents w)
      → contents (set_pid os path a b d ret c w).1
        ≡ splice d c.td (splice b c.ti (splice a c.kc (contents w)))
  unfolding set_pid
  set_pid_lem a b d ret c w ha hb hd =
      let (fd, e) = present read_write w in
      let w1 = (os.open_file path read_write w).1 in
      let s1 = dev.open-contents read_write w in
      let (o1, m1) = dev.open_writes w fd e in
      let (_, t2, o2, m2) = lseek-write os path dev (pos fd) a c.kc w1 o1 m1 (rw s1 ha) in
      let w2 = (os.write_file (pos fd) c.kc (os.lseek (pos fd) a w1)).1 in
      let s2 = t2 ∙ ap (splice a c.kc) s1 in
      let (_, t3, o3, m3) =
        lseek-write os path dev (pos fd) b c.ti w2 o2 m2 (rw (s2, length-splice) hb) in
      let w3 = (os.write_file (pos fd) c.ti (os.lseek (pos fd) b w2)).1 in
      let s3 = t3 ∙ ap (splice b c.ti) s2 in
      let (_, t4, _, _) =
        lseek-write os path dev (pos fd) d c.td w3 o3 m3
          (rw (s3, length-splice, length-splice) hd) in
      rw e (dev.close-contents _ _ ∙ t4 ∙ ap (splice d c.td) s3)

  pub get_eth_lem :
      (junk : ℕ) (mode : EthAddrMode) (w : W)
      → eth_addr_offset + 1 ≤ length (contents w)
      → (config_get_eth_addressing os path junk mode w).1
        ≡ eth_mode_of_byte (first_byte junk (slice eth_addr_offset 1 (contents w)))
  unfolding config_get_eth_addressing
  get_eth_lem junk mode w h =
      let (fd, e) = present read_only w in
      let c = dev.open-contents read_only w in
      let (_, got, _, _) =
        lseek-read os path dev (pos fd) eth_addr_offset 1 (os.open_file path read_only w).1
          (dev.open_reads w fd e) (rw c h) in
      rw e (ap (λ b. eth_mode_of_byte (first_byte junk b)) (got ∙ ap (slice eth_addr_offset 1) c))

  pub get_eth-contents :
      (junk : ℕ) (mode : EthAddrMode) (w : W)
      → eth_addr_offset + 1 ≤ length (contents w)
      → contents (config_get_eth_addressing os path junk mode w).2 ≡ contents w
  unfolding config_get_eth_addressing
  get_eth-contents junk mode w h =
      let (fd, e) = present read_only w in
      let c = dev.open-contents read_only w in
      let (_, _, same, _) =
        lseek-read os path dev (pos fd) eth_addr_offset 1 (os.open_file path read_only w).1
          (dev.open_reads w fd e) (rw c h) in
      rw e (dev.close-contents _ _ ∙ same ∙ c)

  pub get_temp_mode_lem :
      (ret : ℤ) (junk : ℕ) (mode : TempCtrlMode) (w : W)
      → temp_ctrl_mode_offset + 1 ≤ length (contents w)
      → (config_get_temp_control_mode os path ret junk mode w).1
        ≡ temp_mode_of_byte (first_byte junk (slice temp_ctrl_mode_offset 1 (contents w)))
  unfolding config_get_temp_control_mode
  get_temp_mode_lem ret junk mode w h =
      let (fd, e) = present read_only w in
      let c = dev.open-contents read_only w in
      let (_, got, _, _) =
        lseek-read os path dev (pos fd) temp_ctrl_mode_offset 1 (os.open_file path read_only w).1
          (dev.open_reads w fd e) (rw c h) in
      rw e (
        ap (λ b. temp_mode_of_byte (first_byte junk b))
          (got ∙ ap (slice temp_ctrl_mode_offset 1) c))

  pub get_temp_mode-contents :
      (ret : ℤ) (junk : ℕ) (mode : TempCtrlMode) (w : W)
      → temp_ctrl_mode_offset + 1 ≤ length (contents w)
      → contents (config_get_temp_control_mode os path ret junk mode w).2 ≡ contents w
  unfolding config_get_temp_control_mode
  get_temp_mode-contents ret junk mode w h =
      let (fd, e) = present read_only w in
      let c = dev.open-contents read_only w in
      let (_, _, same, _) =
        lseek-read os path dev (pos fd) temp_ctrl_mode_offset 1 (os.open_file path read_only w).1
          (dev.open_reads w fd e) (rw c h) in
      rw e (dev.close-contents _ _ ∙ same ∙ c)

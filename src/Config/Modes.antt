-- ===== src/Config/Modes.antt =====
-- config_file.c: the fields that are one byte, the addressing mode, the temperature control mode
-- and the version.
use rffe_uc_fw.Base.{
  ℕ, ◌+◌, ◌≤◌, ◌≡◌, refl, sym, ap, ◌∙◌, String, List, [], ◌∷◌, ℤ, pos, length, overlay, slice,
  splice, length-splice, slice-splice_self, slice-splice_before, arith,
}
use rffe_uc_fw.Device.Os.{read_only, read_write, Os, IsDevice}
use rffe_uc_fw.Config.Layout.{
  eth_addr_offset, temp_ctrl_mode_offset, config_version_offset, read_at_lem, write_at_lem,
  write_at,
}
use rffe_uc_fw.Config.Transfers.{
  IsPresent, first_byte, get_eth_lem, get_temp_mode_lem, write_adding_lem,
}
use rffe_uc_fw.Config.{
  EthAddrMode, TempCtrlMode, manual, eth_mode_of_byte, byte_of_eth_mode, temp_mode_of_byte,
  byte_of_temp_mode, config_get_version, config_set_version, config_get_eth_addressing,
  config_set_eth_addressing, config_get_temp_control_mode, config_set_temp_control_mode,
}
use rffe_uc_fw.Config.Fields.{record_size}

pub eth_mode-byte : (m : EthAddrMode) → eth_mode_of_byte (byte_of_eth_mode m) ≡ m
unfolding eth_mode_of_byte byte_of_eth_mode
eth_mode-byte m = ground arith

pub temp_mode-byte : (m : TempCtrlMode) → temp_mode_of_byte (byte_of_temp_mode m) ≡ m
unfolding temp_mode_of_byte byte_of_temp_mode
temp_mode-byte m = ground arith

pub temp_mode_of_byte-one : temp_mode_of_byte 1 ≡ manual
unfolding temp_mode_of_byte
temp_mode_of_byte-one = refl

module _ {W : Type 0} (os : Os W) (path : String) (dev : IsDevice os path)
    (present : IsPresent os path) where
  open dev use {contents}

  pub write_byte :
      (off b : ℕ) (w : W)
      → off + 1 ≤ length (contents w)
      → contents (write_at os path off (b ∷ []) w).1 ≡ splice off (b ∷ []) (contents w)
  write_byte off b w h =
      let (fd, e) = present read_write w in (write_at_lem os path dev off (b ∷ []) w fd e h).1

  -- A byte that was stored is what the one-byte getters decode, whatever their buffer held.
  stored_byte :
      (off junk b : ℕ) (c : List ℕ)
      → off + 1 ≤ length c
      → first_byte junk (slice off 1 (splice off (b ∷ []) c)) ≡ b
  stored_byte off junk b c h = ap (first_byte junk) (slice-splice_self off (b ∷ []) c h)

  pub set_eth-splice :
      (m : EthAddrMode) (w : W)
      → record_size ≤ length (contents w)
      → contents (config_set_eth_addressing os path m w).1
        ≡ splice eth_addr_offset (byte_of_eth_mode m ∷ []) (contents w)
  unfolding config_set_eth_addressing
  set_eth-splice m w h = write_byte eth_addr_offset (byte_of_eth_mode m) w (omega arith)

  pub set_temp_mode-splice :
      (m : TempCtrlMode) (ret : ℤ) (w : W)
      → record_size ≤ length (contents w)
      → contents (config_set_temp_control_mode os path ret m w).1
        ≡ splice temp_ctrl_mode_offset (byte_of_temp_mode m ∷ []) (contents w)
  unfolding config_set_temp_control_mode
  set_temp_mode-splice m ret w h =
      (write_adding_lem os path dev present temp_ctrl_mode_offset ret (byte_of_temp_mode m ∷ []) w
        (omega arith)).1

  -- The mode of addressing, also "none", is read back as it was set.
  pub get_eth-set_eth :
      (m old : EthAddrMode) (junk : ℕ) (w : W)
      → record_size ≤ length (contents w)
      → (config_get_eth_addressing os path junk old (config_set_eth_addressing os path m w).1).1 ≡ m
  get_eth-set_eth m old junk w h =
      let wrote = set_eth-splice m w h in
      get_eth_lem os path dev present junk old _ (rw (wrote, length-splice) (omega arith))
      ∙ ap (λ c. eth_mode_of_byte (first_byte junk (slice eth_addr_offset 1 c))) wrote
      ∙ ap eth_mode_of_byte (stored_byte eth_addr_offset junk _ (contents w) (omega arith))
      ∙ eth_mode-byte m

  -- The mode of the temperature control is read back as it was set.
  pub get_temp_mode-set_temp_mode :
      (m old : TempCtrlMode) (ret ret' : ℤ) (junk : ℕ) (w : W)
      → record_size ≤ length (contents w)
      → (config_get_temp_control_mode os path ret' junk old
          (config_set_temp_control_mode os path ret m w).1).1
        ≡ m
  get_temp_mode-set_temp_mode m old ret ret' junk w h =
      let wrote = set_temp_mode-splice m ret w h in
      get_temp_mode_lem os path dev present ret' junk old _
        (rw (wrote, length-splice) (omega arith))
      ∙ ap (λ c. temp_mode_of_byte (first_byte junk (slice temp_ctrl_mode_offset 1 c))) wrote
      ∙ ap temp_mode_of_byte (stored_byte temp_ctrl_mode_offset junk _ (contents w) (omega arith))
      ∙ temp_mode-byte m

  -- `config_set_version` reports success and leaves the version as it was; what it changes is the
  -- mode of addressing, which becomes the one that the number of the version stands for.
  pub set_version_misplaced :
      (v junk : ℕ) (old : EthAddrMode) (out : List ℕ) (w : W)
      → record_size ≤ length (contents w)
      → let w' = (config_set_version os path v w).1 in
        ((config_set_version os path v w).0 ≡ pos 0)
        × ((config_get_version os path out w').1 ≡ (config_get_version os path out w).1)
        × ((config_get_eth_addressing os path junk old w').1 ≡ eth_mode_of_byte v)
  unfolding config_set_version config_get_version
  set_version_misplaced v junk old out w h =
      let (fd, e) = present read_write w in
      let (ok, wrote) = write_at_lem os path dev eth_addr_offset (v ∷ []) w fd e (omega arith) in
      let w' = (write_at os path eth_addr_offset (v ∷ []) w).1 in
      let (fd1, e1) = present read_only w' in
      let (fd2, e2) = present read_only w in
      let after =
        read_at_lem os path dev config_version_offset 1 out w' fd1 e1
          (rw (wrote, length-splice) (omega arith)) in
      let before = read_at_lem os path dev config_version_offset 1 out w fd2 e2 (omega arith) in
      let same =
        slice-splice_before eth_addr_offset config_version_offset 1 (v ∷ []) (contents w)
          (omega arith) in
      (
        ok,
        after.1
            ∙ ap (λ c. overlay (slice config_version_offset 1 c) out) wrote
            ∙ ap (λ bs. overlay bs out) same
            ∙ sym before.1,
        get_eth_lem os path dev present junk old w' (rw (wrote, length-splice) (omega arith))
            ∙ ap (λ c. eth_mode_of_byte (first_byte junk (slice eth_addr_offset 1 c))) wrote
            ∙ ap eth_mode_of_byte (stored_byte eth_addr_offset junk v (contents w) (omega arith)),
      )

-- ===== src/Config/Errors.antt =====
-- config_file.c: what the callers are told, for any driver. config_file.h says 0 for success and a
-- negative number otherwise.
use rffe_uc_fw.Base.{ℕ, ◌≡◌, String, List, ℤ, pos, negsuc, ◌≤ℤ◌, arith}
use rffe_uc_fw.Device.Os.{read_only, read_write, Os}
use rffe_uc_fw.Config.Layout.{clear_positive, read_at, write_at}
use rffe_uc_fw.Config.{
  read_adding, write_adding, config_get_mac_addr, config_set_mac_addr, config_get_ipv4_addr,
  config_set_ipv4_addr, config_get_mask_addr, config_set_mask_addr, config_get_gateway_addr,
  config_set_gateway_addr, config_get_attenuation, config_set_attenuation, config_get_setpoint_ac,
  config_set_setpoint_ac, config_get_setpoint_bd, config_set_setpoint_bd,
}
use rffe_uc_fw.Config.Fields.{
  Field, mac, ipv4, mask, gateway, attenuation, setpoint_ac, setpoint_bd, get_field, set_field,
}

clear_positive-le : (r : ℤ) → clear_positive r ≤ℤ pos 0
clear_positive-le (pos n) = omega arith
clear_positive-le (negsuc n) = omega arith

-- A call returns a result, and the rest of its outcome.
module _ {W : Type 0} (os : Os W) (path : String) where
  read_at-le : (off n : ℕ) (out : List ℕ) (w : W) → (read_at os path off n out w).0 ≤ℤ pos 0
  unfolding read_at
  read_at-le off n out w = ground (arith, clear_positive-le _)

  write_at-le : (off : ℕ) (v : List ℕ) (w : W) → (write_at os path off v w).0 ≤ℤ pos 0
  unfolding write_at
  write_at-le off v w = ground arith

  read_adding-le :
      (off : ℕ) (ret : ℤ) (out : List ℕ) (w : W) → (read_adding os path off ret out w).0 ≤ℤ pos 0
  unfolding read_adding
  read_adding-le off ret out w = ground arith

  write_adding-le :
      (off : ℕ) (ret : ℤ) (v : List ℕ) (w : W) → (write_adding os path off ret v w).0 ≤ℤ pos 0
  unfolding write_adding
  write_adding-le off ret v w = ground arith

  -- Whatever the driver answers, an accessor of a field returns 0 or a negative number.
  pub field_status :
      (f : Field) (ret : ℤ) (v : List ℕ) (w : W)
      → ((get_field os path f ret v w).0 ≤ℤ pos 0) × ((set_field os path f ret v w).0 ≤ℤ pos 0)
  unfolding config_get_mac_addr config_set_mac_addr config_get_ipv4_addr config_set_ipv4_addr
      config_get_mask_addr config_set_mask_addr config_get_gateway_addr config_set_gateway_addr
      config_get_attenuation config_set_attenuation config_get_setpoint_ac config_set_setpoint_ac
      config_get_setpoint_bd config_set_setpoint_bd
  field_status mac ret v w = (read_at-le _ _ v w, write_at-le _ v w)
  field_status ipv4 ret v w = (read_at-le _ _ v w, write_at-le _ v w)
  field_status mask ret v w = (read_at-le _ _ v w, write_at-le _ v w)
  field_status gateway ret v w = (read_at-le _ _ v w, write_at-le _ v w)
  field_status attenuation ret v w = (read_at-le _ _ v w, write_at-le _ v w)
  field_status setpoint_ac ret v w = (read_adding-le _ ret v w, write_adding-le _ ret v w)
  field_status setpoint_bd ret v w = (read_adding-le _ ret v w, write_adding-le _ ret v w)

  -- Where the device cannot be opened, an accessor returns what open returned, leaves the caller's
  -- variable alone, and makes no other call.
  field_not_opened :
      (f : Field) (ret : ℤ) (v : List ℕ) (w : W) (k k' : ℕ)
      → (os.open_file path read_only w).0 ≡ negsuc k
      → (os.open_file path read_write w).0 ≡ negsuc k'
      → (get_field os path f ret v w ≡ (negsuc k, v, (os.open_file path read_only w).1))
        × (set_field os path f ret v w ≡ (negsuc k', (os.open_file path read_write w).1))
  unfolding config_get_mac_addr config_set_mac_addr config_get_ipv4_addr config_set_ipv4_addr
      config_get_mask_addr config_set_mask_addr config_get_gateway_addr config_set_gateway_addr
      config_get_attenuation config_set_attenuation config_get_setpoint_ac config_set_setpoint_ac
      config_get_setpoint_bd config_set_setpoint_bd read_at write_at read_adding write_adding
  field_not_opened mac ret v w k k' e e' = (rw e, rw e')
  field_not_opened ipv4 ret v w k k' e e' = (rw e, rw e')
  field_not_opened mask ret v w k k' e e' = (rw e, rw e')
  field_not_opened gateway ret v w k k' e e' = (rw e, rw e')
  field_not_opened attenuation ret v w k k' e e' = (rw e, rw e')
  field_not_opened setpoint_ac ret v w k k' e e' = (rw e, rw e')
  field_not_opened setpoint_bd ret v w k k' e e' = (rw e, rw e')

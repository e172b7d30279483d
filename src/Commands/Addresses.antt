-- ===== src/Commands/Addresses.antt =====
-- scpi_rffe_cmd.c: the three addresses that commands set and query as texts.
use rffe_uc_fw.Base.{
  ℕ, suc, ◌≤◌, ◌≡◌, refl, sym, ap, ◌∙◌, true, List, pos, length, overlay, overlay_full,
}
use rffe_uc_fw.Device.Os.{Os, IsDevice}
use rffe_uc_fw.Config.Transfers.{IsPresent}
use rffe_uc_fw.Config.Fields.{
  Field, ipv4, mask, gateway, size_of, get_field, set_field, record_size, get_field-set_field_self,
}
use rffe_uc_fw.Commands.Interface.{ScpiResult, res_ok, Scpi, Board, State}
use rffe_uc_fw.Commands.Bodies.{set_address, reply_address}
use rffe_uc_fw.Commands.{
  cfg_file, rffe_set_ip_addr, rffe_get_ip_addr, rffe_set_gateway_addr, rffe_get_gateway_addr,
  rffe_set_netmask, rffe_get_netmask,
}

pub data Address : Type 0 where
  ip_addr gateway_addr netmask : Address

abbrev pub field_of : Address → Field
field_of ip_addr = ipv4
field_of gateway_addr = gateway
field_of netmask = mask

pub field_of-size : (a : Address) → size_of (field_of a) ≡ 4
field_of-size ip_addr = refl
field_of-size gateway_addr = refl
field_of-size netmask = refl

module _ {C N W : Type 0} (scpi : Scpi C N) (os : Os W) (board : Board W) where
  abbrev pub set_address_command : Address → List ℕ → State C W → ScpiResult × State C W
  set_address_command ip_addr junk = rffe_set_ip_addr scpi os board junk
  set_address_command gateway_addr junk = rffe_set_gateway_addr scpi os board junk
  set_address_command netmask junk = rffe_set_netmask scpi os board junk

  abbrev pub query_address_command : Address → List ℕ → State C W → ScpiResult × State C W
  query_address_command ip_addr junk = rffe_get_ip_addr scpi os board junk
  query_address_command gateway_addr junk = rffe_get_gateway_addr scpi os board junk
  query_address_command netmask junk = rffe_get_netmask scpi os board junk

  set_address_command-valid :
      (a : Address) (junk buf addr : List ℕ) (n : ℕ) (s : State C W) (c1 : C)
      → scpi.param_copy_text 32 s.context ≡ (true, buf, c1)
      → scpi.inet_pton buf ≡ (pos (suc n), addr)
      → set_address_command a junk s ≡ (
        res_ok,
        record s {
          world = (set_field os cfg_file (field_of a) (pos 0) (overlay addr junk) s.world).1;
          context = c1;
        },
      )
  unfolding rffe_set_ip_addr rffe_set_gateway_addr rffe_set_netmask set_address
  set_address_command-valid ip_addr junk buf addr n s c1 given valid = rw (given, valid) refl
  set_address_command-valid gateway_addr junk buf addr n s c1 given valid = rw (given, valid) refl
  set_address_command-valid netmask junk buf addr n s c1 given valid = rw (given, valid) refl

  query_address_command-reply :
      (a : Address) (junk : List ℕ) (s : State C W)
      → ((query_address_command a junk s).0 ≡ res_ok)
        × ((query_address_command a junk s).1.context
            ≡ scpi.result_characters
                (scpi.inet_ntoa (get_field os cfg_file (field_of a) (pos 0) junk s.world).1)
                s.context)
  unfolding rffe_get_ip_addr rffe_get_gateway_addr rffe_get_netmask reply_address
  query_address_command-reply ip_addr junk s = (refl, refl)
  query_address_command-reply gateway_addr junk s = (refl, refl)
  query_address_command-reply netmask junk s = (refl, refl)

  -- An address that was given as a text which `inet_pton` reads is what the query answers with,
  -- as `inet_ntoa` writes it. Both report success.
  query_address-set_address :
      (dev : IsDevice os cfg_file)
      → IsPresent os cfg_file
      → (a : Address) (junk junk' buf addr : List ℕ) (n : ℕ) (s : State C W) (c1 : C)
      → scpi.param_copy_text 32 s.context ≡ (true, buf, c1)
      → scpi.inet_pton buf ≡ (pos (suc n), addr)
      → length addr ≡ 4
      → length junk ≡ 4
      → length junk' ≡ 4
      → record_size ≤ length (dev.contents s.world)
      → let (set_result, s1) = set_address_command a junk s in
        let (result, s2) = query_address_command a junk' s1 in
        (set_result ≡ res_ok)
        × (result ≡ res_ok)
        × (s2.context ≡ scpi.result_characters (scpi.inet_ntoa addr) c1)
  query_address-set_address dev present a junk junk' buf addr n s c1 given valid k j j' h =
      let e = set_address_command-valid a junk buf addr n s c1 given valid in
      let s1 = (set_address_command a junk s).1 in
      let (ok, reply) = query_address_command-reply a junk' s1 in
      let full = overlay_full addr junk (j ∙ sym k) in
      let size = field_of-size a in
      (
        ap (λ r. r.0) e,
        ok,
        reply
            ∙ ap
                (λ r.
                  scpi.result_characters
                    (scpi.inet_ntoa (get_field os cfg_file (field_of a) (pos 0) junk' r.1.world).1)
                    r.1.context)
                e
            ∙ ap (λ x. scpi.result_characters (scpi.inet_ntoa x) c1)
                (ap
                    (λ x.
                      (get_field os cfg_file (field_of a) (pos 0) junk'
                        (set_field os cfg_file (field_of a) (pos 0) x s.world).1).1)
                    full
                  ∙ get_field-set_field_self os cfg_file dev present (field_of a) (pos 0) (pos 0)
                      addr junk' s.world h (k ∙ sym size) (j' ∙ sym size)),
      )

  -- With a text that `inet_pton` does not read, a command reports success all the same, and does
  -- nothing but take its parameter.
  set_address_invalid :
      (a : Address) (junk buf addr : List ℕ) (s : State C W) (c1 : C)
      → scpi.param_copy_text 32 s.context ≡ (true, buf, c1)
      → scpi.inet_pton buf ≡ (pos 0, addr)
      → set_address_command a junk s ≡ (res_ok, record s { context = c1 })
  unfolding rffe_set_ip_addr rffe_set_gateway_addr rffe_set_netmask set_address
  set_address_invalid ip_addr junk buf addr s c1 given invalid = rw (given, invalid) refl
  set_address_invalid gateway_addr junk buf addr s c1 given invalid = rw (given, invalid) refl
  set_address_invalid netmask junk buf addr s c1 given invalid = rw (given, invalid) refl

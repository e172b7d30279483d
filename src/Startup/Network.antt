-- ===== src/Startup/Network.antt =====
-- netconfig.c: the interface after its configuration.
use rffe_uc_fw.Base.{
  ℕ, String, ◌≡◌, ◌⊎◌, refl, inl, inr, ap, ◌∙◌, Bool, true, List, ℤ, pos, negsuc, Bool-cases,
}
use rffe_uc_fw.Startup.{
  NetifConfig, Lease, Net, is_set, take_netmask, take_router, dhcp_config, netconfig,
}

-- The state of a network interface.
pub record Iface : Type 0 where
  pub mac : List ℕ
  pub ip : List ℕ
  pub mask : List ℕ
  pub router : List ℕ
  pub up : Bool

abbrev with_ip : List ℕ → Iface → Iface
with_ip a f = record f { ip = a }

abbrev with_mask : List ℕ → Iface → Iface
with_mask a f = record f { mask = a }

abbrev with_router : List ℕ → Iface → Iface
with_router a f = record f { router = a }

abbrev raised : Iface → Iface
raised f = record f { up = true }

-- What the calls are documented to do to the interface. A request for a lease may change its IP
-- address.
pub record IsNet {W : Type 0} (net : Net W) (netdev : String) : Type 0 where
  pub iface : W → Iface
  pub iface-setmacaddr :
      (a : List ℕ) (w : W) → iface (net.setmacaddr netdev a w) ≡ record (iface w) { mac = a }
  pub iface-set_dripv4addr :
      (a : List ℕ) (w : W) → iface (net.set_dripv4addr netdev a w) ≡ record (iface w) { router = a }
  pub iface-set_ipv4addr :
      (a : List ℕ) (w : W) → iface (net.set_ipv4addr netdev a w) ≡ record (iface w) { ip = a }
  pub iface-set_ipv4netmask :
      (a : List ℕ) (w : W) → iface (net.set_ipv4netmask netdev a w) ≡ record (iface w) { mask = a }
  pub iface-ifup : (w : W) → iface (net.ifup netdev w) ≡ record (iface w) { up = true }
  pub iface-dhcpc_open : (a : List ℕ) (w : W) → iface (net.dhcpc_open netdev a w).1 ≡ iface w
  pub iface-dhcpc_request :
      (ds : Lease) (w : W) (a : List ℕ)
      → record (iface (net.dhcpc_request ds w).2) { ip = a } ≡ record (iface w) { ip = a }
  pub iface-dhcpc_close : (w : W) → iface (net.dhcpc_close w) ≡ iface w

-- The interface that a configuration describes, up.
abbrev pub iface_of : NetifConfig → Iface
iface_of conf = record {
  mac = conf.mac;
  ip = conf.ipaddr;
  mask = conf.netmask;
  router = conf.default_router;
  up = true;
}

module _ {W : Type 0} (net : Net W) (netdev : String) (laws : IsNet net netdev) where
  open laws use {iface}

  take_netmask-iface :
      (ds : Lease) (conf : NetifConfig) (w : W)
      → iface w ≡ iface_of conf
      → let (conf', w') = take_netmask net netdev ds conf w in iface w' ≡ iface_of conf'
  unfolding take_netmask
  take_netmask-iface ds conf w e = elim (Bool-cases (is_set ds.netmask)) [
    | inl t ↦ rw t (laws.iface-set_ipv4netmask _ w ∙ ap (with_mask ds.netmask) e)
    | inr t ↦ rw t e
  ]

  take_router-iface :
      (ds : Lease) (conf : NetifConfig) (w : W)
      → iface w ≡ iface_of conf
      → let (conf', w') = take_router net netdev ds conf w in iface w' ≡ iface_of conf'
  unfolding take_router
  take_router-iface ds conf w e = elim (Bool-cases (is_set ds.default_router)) [
    | inl t ↦ rw t (laws.iface-set_dripv4addr _ w ∙ ap (with_router ds.default_router) e)
    | inr t ↦ rw t e
  ]

  -- The result, the configuration, and the interface after it. The result -2 leaves the
  -- configuration as it was.
  abbrev pub IsConfigured : NetifConfig → ℤ × NetifConfig × W → Type 0
  IsConfigured before (ret, conf, w) =
      ((ret ≡ pos 0) ⊎ ((ret ≡ negsuc 1) × (conf ≡ before))) × (iface w ≡ iface_of conf)

  dhcp_config-IsConfigured :
      (conf : NetifConfig) (ds : Lease) (w : W)
      → iface w ≡ iface_of conf
      → IsConfigured conf (dhcp_config net netdev conf ds w)
  unfolding dhcp_config
  dhcp_config-IsConfigured conf ds w e =
      let (handle, w1) = net.dhcpc_open netdev conf.mac w in
      let (_, lease, w2) = net.dhcpc_request ds w1 in
      let w3 = net.set_ipv4addr netdev lease.ipaddr w2 in
      let conf1 = record conf { ipaddr = lease.ipaddr } in
      let opened = laws.iface-dhcpc_open conf.mac w ∙ e in
      let addressed =
        laws.iface-set_ipv4addr lease.ipaddr w2
        ∙ laws.iface-dhcpc_request ds w1 lease.ipaddr
        ∙ ap (with_ip lease.ipaddr) opened in
      let (conf2, w4) = take_netmask net netdev lease conf1 w3 in
      let masked = take_netmask-iface lease conf1 w3 addressed in
      let (conf3, w5) = take_router net netdev lease conf2 w4 in
      let routed = take_router-iface lease conf2 w4 masked in
      elim (Bool-cases handle) [
        | inl t ↦ rw t (inl refl, laws.iface-dhcpc_close w5 ∙ routed)
        | inr t ↦ rw t (inr (refl, refl), opened)
      ]

  -- After netconfig, in every way it can go, the interface is up with exactly the addresses of the
  -- configuration that it leaves to be printed; the result is 0, or -2 where no DHCP client is to be
  -- had, and then these are the addresses that it was given.
  pub netconfig-IsConfigured :
      (conf : NetifConfig) (use_dhcp : Bool) (ds : Lease) (w : W)
      → IsConfigured conf (netconfig net netdev conf use_dhcp ds w)
  unfolding netconfig
  netconfig-IsConfigured conf use_dhcp ds w =
      let w1 = net.setmacaddr netdev conf.mac w in
      let w2 = net.set_dripv4addr netdev conf.default_router w1 in
      let w3 = net.set_ipv4addr netdev conf.ipaddr w2 in
      let w4 = net.set_ipv4netmask netdev conf.netmask w3 in
      let routed =
        laws.iface-set_dripv4addr conf.default_router w1
        ∙ ap (with_router conf.default_router) (laws.iface-setmacaddr conf.mac w) in
      let addressed = laws.iface-set_ipv4addr conf.ipaddr w2 ∙ ap (with_ip conf.ipaddr) routed in
      let masked =
        laws.iface-set_ipv4netmask conf.netmask w3 ∙ ap (with_mask conf.netmask) addressed in
      let raised_all = laws.iface-ifup w4 ∙ ap raised masked in
      elim (Bool-cases use_dhcp) [
        | inl t ↦ rw t (dhcp_config-IsConfigured conf ds (net.ifup netdev w4) raised_all)
        | inr t ↦ rw t (inl refl, raised_all)
      ]

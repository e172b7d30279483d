-- ===== src/Startup/Main.antt =====
-- rffe_main.c: the settings in the FERAM and the network interface, when the servers are started.
use rffe_uc_fw.Base.{
  ℕ, String, ◌≡◌, ◌≤◌, refl, sym, ap, ◌∙◌, subst, false, List, [], ◌∷◌, ℤ, pos, is_neg, length,
  length-slice, overlay, slice, arith,
}
use rffe_uc_fw.Device.Os.{Access, read_only, write_only, Os, IsDevice}
use rffe_uc_fw.Config.{EthAddrMode, static, eth_mode_of_byte}
use rffe_uc_fw.Config.Layout.{eth_addr_offset}
use rffe_uc_fw.Config.Transfers.{IsPresent, first_byte, get_eth_lem, get_eth-contents}
use rffe_uc_fw.Config.Fields.{
  Field, mac, ipv4, mask, gateway, attenuation, record_size, offset_of, size_of, in_record,
  get_field, get_field-slice,
}
use rffe_uc_fw.Config.Spec.{Settings, plain_of}
use rffe_uc_fw.Config.View.{view}
use rffe_uc_fw.Config.Refine.{full_range, view_plain, first_byte-one}
use rffe_uc_fw.Commands.Interface.{Board, GitVersion}
use rffe_uc_fw.Commands.Settings.{IsBoard}
use rffe_uc_fw.Console.{Library}
use rffe_uc_fw.Startup.{
  NetifConfig, Lease, Net, Services, MainLocals, Outcome, console, failed, serving, cfg_file,
  uses_dhcp, netconfig, cdce906_init, restore_attenuation, load_config, show_leds, rffe_start,
  rffe_main,
}
use rffe_uc_fw.Startup.Network.{IsNet, iface_of, netconfig-IsConfigured}

-- The configuration of the network that settings stand for.
abbrev pub conf_of : Settings → NetifConfig
conf_of s = record {
  mac = s.mac_addr;
  ipaddr = s.ip_addr;
  netmask = s.mask_addr;
  default_router = s.gateway_addr;
  dnsaddr = 0 ∷ 0 ∷ 0 ∷ 0 ∷ [];
}

-- The locals have the sizes of their types.
pub record IsSized (l : MainLocals) : Type 0 where
  pub mac_size : length l.conf.mac ≡ 6
  pub ipaddr_size : length l.conf.ipaddr ≡ 4
  pub netmask_size : length l.conf.netmask ≡ 4
  pub router_size : length l.conf.default_router ≡ 4

-- The calls of netlib leave the FERAM alone.
pub record KeepsFeram {W : Type 0} (os : Os W) (net : Net W) (dev : IsDevice os cfg_file)
    : Type 0 where
  pub setmacaddr-contents :
      (netdev : String) (bs : List ℕ) (w : W)
      → dev.contents (net.setmacaddr netdev bs w) ≡ dev.contents w
  pub set_dripv4addr-contents :
      (netdev : String) (bs : List ℕ) (w : W)
      → dev.contents (net.set_dripv4addr netdev bs w) ≡ dev.contents w
  pub set_ipv4addr-contents :
      (netdev : String) (bs : List ℕ) (w : W)
      → dev.contents (net.set_ipv4addr netdev bs w) ≡ dev.contents w
  pub set_ipv4netmask-contents :
      (netdev : String) (bs : List ℕ) (w : W)
      → dev.contents (net.set_ipv4netmask netdev bs w) ≡ dev.contents w
  pub ifup-contents : (netdev : String) (w : W) → dev.contents (net.ifup netdev w) ≡ dev.contents w

-- The other calls of the start leave the FERAM alone, and those on files and on the LEDs the
-- interface.
pub record IsApart {W : Type 0} (os : Os W) (board : Board W) (net : Net W) (sv : Services W)
    (dev : IsDevice os cfg_file) (laws : IsNet net "eth0") : Type 0 where
  pub board_apart : IsBoard os board dev
  pub i2c_transfer-contents :
      (fd : ℤ) (addr flags frequency : ℕ) (bs : List ℕ) (w : W)
      → dev.contents (sv.i2c_transfer fd addr flags frequency bs w) ≡ dev.contents w
  pub set_leds-contents :
      (fd : ℤ) (n : ℕ) (w : W) → dev.contents (sv.set_leds fd n w) ≡ dev.contents w
  pub usleep-contents : (n : ℕ) (w : W) → dev.contents (sv.usleep n w) ≡ dev.contents w
  pub nsh_initialize-contents : (w : W) → dev.contents (sv.nsh_initialize w) ≡ dev.contents w
  pub nsh_telnetstart-contents : (w : W) → dev.contents (sv.nsh_telnetstart w) ≡ dev.contents w
  pub task_create-contents : (w : W) → dev.contents (sv.task_create w) ≡ dev.contents w
  pub open-iface :
      (path : String) (m : Access) (w : W) → laws.iface (os.open_file path m w).1 ≡ laws.iface w
  pub set_leds-iface : (fd : ℤ) (n : ℕ) (w : W) → laws.iface (sv.set_leds fd n w) ≡ laws.iface w
  pub close-iface : (fd : ℤ) (w : W) → laws.iface (os.close fd w) ≡ laws.iface w

module _ {W : Type 0} (lib : Library) (os : Os W) (board : Board W) (git : GitVersion) (net : Net W)
    (sv : Services W) (dev : IsDevice os cfg_file) (present : IsPresent os cfg_file)
    (laws : IsNet net "eth0") (apart : IsApart os board net sv dev laws) where
  open dev use {contents}
  open laws use {iface}

  read_field :
      (f : Field) (out : List ℕ) (w : W) (c : List ℕ)
      → length out ≡ size_of f
      → record_size ≤ length c
      → contents w ≡ c
      → let (_, got, w1) = get_field os cfg_file f (pos 0) out w in
        (got ≡ plain_of f (view c)) × (contents w1 ≡ c)
  read_field f out w c n h e =
      let (got, same) = get_field-slice os cfg_file dev present f (pos 0) out w (rw e h) in
      let full = full_range (offset_of f) (size_of f) c out n (omega (arith, in_record f)) in
      (
        got
            ∙ ap (λ c. overlay (slice (offset_of f) (size_of f) c) out) e
            ∙ full
            ∙ sym (view_plain f c),
        same ∙ e,
      )

  -- The reads of the configuration, from a device that holds `c`.
  load_config_lem :
      (l : MainLocals) (w : W) (c : List ℕ)
      → IsSized l
      → record_size ≤ length c
      → contents w ≡ c
      → let (conf, mode, w') = load_config lib os board git net sv l w in
        (conf ≡ conf_of (view c)) × (mode ≡ (view c).eth) × (contents w' ≡ c)
  unfolding load_config
  load_config_lem l w c sized h e =
      let (_, mac_got, w1) = get_field os cfg_file mac (pos 0) l.conf.mac w in
      let (mac_read, s1) = read_field mac l.conf.mac w c sized.mac_size h e in
      let (_, ip_got, w2) = get_field os cfg_file ipv4 (pos 0) l.conf.ipaddr w1 in
      let (ip_read, s2) = read_field ipv4 l.conf.ipaddr w1 c sized.ipaddr_size h s1 in
      let (_, mask_got, w3) = get_field os cfg_file mask (pos 0) l.conf.netmask w2 in
      let (mask_read, s3) = read_field mask l.conf.netmask w2 c sized.netmask_size h s2 in
      let (_, router_got, w4) = get_field os cfg_file gateway (pos 0) l.conf.default_router w3 in
      let (router_read, s4) =
        read_field gateway l.conf.default_router w3 c sized.router_size h s3 in
      let mode = get_eth_lem os cfg_file dev present l.byte l.dhcp_mode w4 (rw s4 (omega arith)) in
      let one = length-slice eth_addr_offset 1 c (omega arith) in
      (
        (λ i. record {
          mac = mac_read i;
          ipaddr = ip_read i;
          netmask = mask_read i;
          default_router = router_read i;
          dnsaddr = 0 ∷ 0 ∷ 0 ∷ 0 ∷ [];
        }),
        mode
            ∙ ap (λ c. eth_mode_of_byte (first_byte l.byte (slice eth_addr_offset 1 c))) s4
            ∙ ap eth_mode_of_byte (first_byte-one l.byte _ one),
        get_eth-contents os cfg_file dev present l.byte l.dhcp_mode w4 (rw s4 (omega arith)) ∙ s4,
      )

  restore_attenuation-contents :
      (junk : List ℕ) (w : W)
      → record_size ≤ length (contents w)
      → contents (restore_attenuation lib os board git net sv junk w) ≡ contents w
  unfolding restore_attenuation
  restore_attenuation-contents junk w h =
      let isolated = apart.board_apart in
      let (_, same) = get_field-slice os cfg_file dev present attenuation (pos 0) junk w h in
      dev.close-contents _ _
      ∙ isolated.set_att-contents _ _ _
      ∙ isolated.open_any "/dev/att0" read_only _
      ∙ same

  cdce906_init_lem :
      (devfile : String) (w : W)
      → is_neg (os.open_file "/dev/i2c0" read_only w).0 ≡ false
      → let (ret, w1) = cdce906_init lib os board git net sv devfile w in
        (is_neg ret ≡ false) × (contents w1 ≡ contents w)
  unfolding cdce906_init
  cdce906_init_lem devfile w opens = rw opens (
    refl,
    apart.i2c_transfer-contents _ _ _ _ _ _ ∙ apart.board_apart.open_any "/dev/i2c0" read_only w,
  )

  show_leds-iface : (n : ℕ) (w : W) → iface (show_leds lib os board git net sv n w) ≡ iface w
  unfolding show_leds
  show_leds-iface n w =
      apart.close-iface _ _
      ∙ apart.set_leds-iface _ n _
      ∙ apart.open-iface "/dev/statusleds" write_only w

  -- About to start the servers, with this configuration and an interface that has it.
  abbrev pub IsServing : NetifConfig → Outcome W → Type 0
  IsServing conf (serving conf' w') = (conf' ≡ conf) × (iface w' ≡ iface_of conf)
  IsServing conf (failed ret w') = ⊥
  IsServing conf (console r) = ⊥

  pub IsServing-same :
      (conf conf' : NetifConfig) (o : Outcome W)
      → conf ≡ conf'
      → IsServing conf o
      → IsServing conf' o
  IsServing-same conf conf' (serving c w) e (kept, up) = (kept ∙ e, up ∙ ap iface_of e)
  IsServing-same conf conf' (failed ret w) e none = absurd none
  IsServing-same conf conf' (console r) e none = absurd none

  netconfig_static :
      (conf : NetifConfig) (m : EthAddrMode) (ds : Lease) (w : W)
      → m ≡ static
      → (netconfig net "eth0" conf (uses_dhcp m) ds w).1 ≡ conf
  unfolding netconfig
  netconfig_static conf m ds w e = rw e refl

  -- Where the settings in the FERAM say a static address, a start without arguments comes to the
  -- servers with the network interface up and with exactly the MAC address, the address, the mask
  -- and the gateway of the FERAM, on a device without a fault and if the clock synthesizer's bus
  -- opens.
  pub main_static :
      (name : List ℕ) (l : MainLocals) (w : W)
      → ((w' : W) → is_neg (os.open_file "/dev/i2c0" read_only w').0 ≡ false)
      → IsSized l
      → record_size ≤ length (contents w)
      → (view (contents w)).eth ≡ static
      → IsServing (conf_of (view (contents w))) (rffe_main lib os board git net sv (name ∷ []) l w)
  unfolding rffe_main rffe_start
  main_static name l w opens sized h is_static =
      let w0 = restore_attenuation lib os board git net sv l.att w in
      let (fine, clocked) = cdce906_init_lem "/dev/i2c0" w0 (opens w0) in
      let (_, w1) = cdce906_init lib os board git net sv "/dev/i2c0" w0 in
      let same = clocked ∙ restore_attenuation-contents l.att w h in
      let (loaded, mode, _) = load_config_lem l w1 (contents w) sized h same in
      let (conf, m, w2) = load_config lib os board git net sv l w1 in
      let kept = netconfig_static conf m l.ds w2 (mode ∙ is_static) ∙ loaded in
      let (_, agrees) = netconfig-IsConfigured net "eth0" laws conf (uses_dhcp m) l.ds w2 in
      rw fine (kept, show_leds-iface 0 _ ∙ agrees ∙ ap iface_of kept)

  pub show_leds-contents :
      (n : ℕ) (w : W) → contents (show_leds lib os board git net sv n w) ≡ contents w
  unfolding show_leds
  show_leds-contents n w =
      dev.close-contents _ _
      ∙ apart.set_leds-contents _ n _
      ∙ apart.board_apart.open_any "/dev/statusleds" write_only w

  netconfig_static-contents :
      (keeps : KeepsFeram os net dev) (conf : NetifConfig) (m : EthAddrMode) (ds : Lease) (w : W)
      → m ≡ static
      → contents (netconfig net "eth0" conf (uses_dhcp m) ds w).2 ≡ contents w
  unfolding netconfig
  netconfig_static-contents keeps conf m ds w e = rw e (
      keeps.ifup-contents "eth0" _
      ∙ keeps.set_ipv4netmask-contents "eth0" conf.netmask _
      ∙ keeps.set_ipv4addr-contents "eth0" conf.ipaddr _
      ∙ keeps.set_dripv4addr-contents "eth0" conf.default_router _
      ∙ keeps.setmacaddr-contents "eth0" conf.mac w)

  -- About to start the servers, with this in the FERAM.
  abbrev pub IsStored : (List ℕ → Type 0) → Outcome W → Type 0
  IsStored P (serving conf' w') = P (contents w')
  IsStored P (failed ret w') = ⊥
  IsStored P (console r) = ⊥

  -- A start with a static address leaves the FERAM as it is.
  pub main_static-IsStored :
      (P : List ℕ → Type 0) (keeps : KeepsFeram os net dev) (name : List ℕ) (l : MainLocals) (w : W)
      → ((w' : W) → is_neg (os.open_file "/dev/i2c0" read_only w').0 ≡ false)
      → IsSized l
      → record_size ≤ length (contents w)
      → (view (contents w)).eth ≡ static
      → P (contents w)
      → IsStored P (rffe_main lib os board git net sv (name ∷ []) l w)
  unfolding rffe_main rffe_start
  main_static-IsStored P keeps name l w opens sized h is_static p =
      let w0 = restore_attenuation lib os board git net sv l.att w in
      let (fine, clocked) = cdce906_init_lem "/dev/i2c0" w0 (opens w0) in
      let (_, w1) = cdce906_init lib os board git net sv "/dev/i2c0" w0 in
      let same = clocked ∙ restore_attenuation-contents l.att w h in
      let (_, mode, unread) = load_config_lem l w1 (contents w) sized h same in
      let (conf, m, w2) = load_config lib os board git net sv l w1 in
      let kept = netconfig_static-contents keeps conf m l.ds w2 (mode ∙ is_static) in
      rw fine (subst P (sym (show_leds-contents 0 _ ∙ kept ∙ unread)) p)

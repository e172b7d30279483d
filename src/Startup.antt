-- ===== src/Startup.antt =====
-- rffe-app/rffe_main.c, netconfig.c, netconfig.h and cdce906.c: what the firmware does from its start
-- to the point where it starts its servers, which is in Startup.Servers. What is printed is left out.
pub mod Network
pub mod Main
pub mod Upgrade
pub mod Servers
pub mod Threads
pub mod Sim
mod Tests
use rffe_uc_fw.Base.{
  ℕ, zero, suc, String, List, [], ◌∷◌, ℤ, pos, negsuc, Bool, true, false, not, is_neg,
  if◌then◌else◌, ◌<<◌, bit_or,
}
use rffe_uc_fw.Base.Text.{codes, same_text}
use rffe_uc_fw.Device.Os.{read_only, write_only, Os}
use rffe_uc_fw.Config.{
  EthAddrMode, static, dhcp, none, config_get_attenuation, config_get_mac_addr,
  config_get_ipv4_addr, config_get_mask_addr, config_get_gateway_addr, config_get_eth_addressing,
}
use rffe_uc_fw.Migrate.{config_migrate_latest}
use rffe_uc_fw.Commands.Interface.{Board, GitVersion}
use rffe_uc_fw.Console.{Library, Stack, Result, rffe_console_cfg}

-- struct netifconfig
pub record NetifConfig : Type 0 where
  pub mac : List ℕ
  pub ipaddr : List ℕ
  pub netmask : List ℕ
  pub default_router : List ℕ
  pub dnsaddr : List ℕ

-- The members of struct dhcpc_state that the code reads.
pub record Lease : Type 0 where
  pub ipaddr : List ℕ
  pub netmask : List ℕ
  pub default_router : List ℕ

-- netlib and dhcpc of NuttX, by the name of the interface.
pub record Net (W : Type 0) : Type 0 where
  pub setmacaddr : String → List ℕ → W → W
  pub set_dripv4addr : String → List ℕ → W → W
  pub set_ipv4addr : String → List ℕ → W → W
  pub set_ipv4netmask : String → List ℕ → W → W
  pub ifup : String → W → W
  -- Whether the handle is not null.
  pub dhcpc_open : String → List ℕ → W → Bool × W
  -- The result, and the variable after the call from what it held before.
  pub dhcpc_request : Lease → W → ℤ × Lease × W
  pub dhcpc_close : W → W

-- Other calls of NuttX: I2CIOC_TRANSFER with one message, errno, ULEDIOC_SETALL, usleep, and the
-- shell on the console and over telnet.
pub record Services (W : Type 0) : Type 0 where
  pub i2c_transfer : ℤ → (addr flags frequency : ℕ) → List ℕ → W → W
  pub errno : W → ℕ
  pub set_leds : ℤ → ℕ → W → W
  pub usleep : ℕ → W → W
  pub nsh_initialize : W → W
  pub nsh_telnetstart : W → W
  pub task_create : W → W

-- `s_addr != 0`
abbrev pub is_set : List ℕ → Bool
is_set addr = not (same_text addr (0 ∷ 0 ∷ 0 ∷ 0 ∷ []))

-- `-x`
abbrev pub negated : ℕ → ℤ
negated zero = pos 0
negated (suc n) = negsuc n

abbrev pub cdce906_config : List ℕ
cdce906_config =
    0
    ∷ 25
    ∷ 0x1
    ∷ 9
    ∷ 25
    ∷ 0x0
    ∷ 9
    ∷ 25
    ∷ 0xE0
    ∷ 9
    ∷ 25
    ∷ (2 << 5)
    ∷ 0x0
    ∷ 0x0
    ∷ 0x0
    ∷ 0x2
    ∷ 0x1
    ∷ 0x1
    ∷ 0x1
    ∷ 0x1
    ∷ 0x1
    ∷ 0x38
    ∷ 0
    ∷ 0
    ∷ 0
    ∷ 0
    ∷ 0
    ∷ bit_or (3 << 4) 0xB
    ∷ []

module _ {W : Type 0} (net : Net W) (netdev : String) where
  -- The two `if`s on the lease.
  pub take_netmask : Lease → NetifConfig → W → NetifConfig × W
  take_netmask ds conf w =
      if is_set ds.netmask
      then (record conf { netmask = ds.netmask }, net.set_ipv4netmask netdev ds.netmask w)
      else (conf, w)

  pub take_router : Lease → NetifConfig → W → NetifConfig × W
  take_router ds conf w =
      if is_set ds.default_router
      then (
        record conf { default_router = ds.default_router },
        net.set_dripv4addr netdev ds.default_router w,
      )
      else (conf, w)

  -- The body of the `if` on DHCP; `ds` is what the variable holds before.
  pub dhcp_config : NetifConfig → (ds : Lease) → W → ℤ × NetifConfig × W
  unfolding take_netmask take_router
  dhcp_config conf ds w =
      let (handle, w1) = net.dhcpc_open netdev conf.mac w in
      let (_, ds, w2) = net.dhcpc_request ds w1 in
      let w3 = net.set_ipv4addr netdev ds.ipaddr w2 in
      let conf1 = record conf { ipaddr = ds.ipaddr } in
      let (conf2, w4) = take_netmask ds conf1 w3 in
      let (conf3, w5) = take_router ds conf2 w4 in
      if handle then (pos 0, conf3, net.dhcpc_close w5) else (negsuc 1, conf, w1)

  pub netconfig : NetifConfig → (use_dhcp : Bool) → (ds : Lease) → W → ℤ × NetifConfig × W
  unfolding dhcp_config
  netconfig conf use_dhcp ds w =
      let w1 = net.setmacaddr netdev conf.mac w in
      let w2 = net.set_dripv4addr netdev conf.default_router w1 in
      let w3 = net.set_ipv4addr netdev conf.ipaddr w2 in
      let w4 = net.set_ipv4netmask netdev conf.netmask w3 in
      let w5 = net.ifup netdev w4 in if use_dhcp then dhcp_config conf ds w5 else (pos 0, conf, w5)

abbrev pub cfg_file : String
cfg_file = "/dev/feram0"

-- What the locals of rffe_main hold before.
pub record MainLocals : Type 0 where
  pub conf : NetifConfig
  pub att : List ℕ
  pub dhcp_mode : EthAddrMode
  pub byte : ℕ
  pub ds : Lease
  pub console : Stack

-- How rffe_main goes: it is the console command, it gives up, or it is about to start its servers
-- with the network configured so.
pub data Outcome (W : Type 0) : Type 0 where
  console : Result W → Outcome W
  failed : ℤ → W → Outcome W
  serving : NetifConfig → W → Outcome W

-- Whether the call of netconfig is the one with DHCP.
abbrev pub uses_dhcp : EthAddrMode → Bool
uses_dhcp static = false
uses_dhcp dhcp = true
uses_dhcp none = true

module _ {W : Type 0} (lib : Library) (os : Os W) (board : Board W) (git : GitVersion) (net : Net W)
    (sv : Services W) where
  -- The argument is not used: the name of the device is written out.
  pub cdce906_init : String → W → ℤ × W
  cdce906_init devfile w =
      let (fd, w1) = os.open_file "/dev/i2c0" read_only w in
      if is_neg fd
      then (negated (sv.errno w1), w1)
      else (pos 0, sv.i2c_transfer fd 0x69 0 100000 cdce906_config w1)

  pub restore_attenuation : (junk : List ℕ) → W → W
  restore_attenuation junk w =
      let (_, att, w1) = config_get_attenuation os cfg_file junk w in
      let (attfd, w2) = os.open_file "/dev/att0" read_only w1 in
      os.close attfd (board.set_att attfd att w2)

  pub load_config : MainLocals → W → NetifConfig × EthAddrMode × W
  load_config l w =
      let (_, mac, w1) = config_get_mac_addr os cfg_file l.conf.mac w in
      let (_, ipaddr, w2) = config_get_ipv4_addr os cfg_file l.conf.ipaddr w1 in
      let (_, netmask, w3) = config_get_mask_addr os cfg_file l.conf.netmask w2 in
      let (_, default_router, w4) = config_get_gateway_addr os cfg_file l.conf.default_router w3 in
      let conf : NetifConfig = record {
        mac = mac;
        ipaddr = ipaddr;
        netmask = netmask;
        default_router = default_router;
        dnsaddr = 0 ∷ 0 ∷ 0 ∷ 0 ∷ [];
      } in
      let (_, mode, w5) = config_get_eth_addressing os cfg_file l.byte l.dhcp_mode w4 in
      (conf, mode, w5)

  pub show_leds : ℕ → W → W
  show_leds n w =
      let (ledfd, w1) = os.open_file "/dev/statusleds" write_only w in
      os.close ledfd (sv.set_leds ledfd n w1)

  -- The part of rffe_main that is not the console command, up to the servers.
  pub rffe_start : MainLocals → W → Outcome W
  unfolding cdce906_init restore_attenuation load_config show_leds netconfig
  rffe_start l w =
      let (ret, w1) = cdce906_init "/dev/i2c0" (restore_attenuation l.att w) in
      let (conf, mode, w2) = load_config l w1 in
      let (_, conf', w3) = netconfig net "eth0" conf (uses_dhcp mode) l.ds w2 in
      if is_neg ret then failed (negsuc 0) w1 else serving conf' (show_leds 0 w3)

  pub rffe_main : (argv : List (List ℕ)) → MainLocals → W → Outcome W
  unfolding rffe_start
  rffe_main (name ∷ word ∷ rest) l w =
      console (rffe_console_cfg lib os board git (name ∷ word ∷ rest) l.console w)
  rffe_main _ l w = rffe_start l w

  -- `confv0` is what the local of config_migrate_latest holds before.
  pub rffe_startup : (itob16 : ℕ → ℕ) (confv0 : List ℕ) → MainLocals → W → Outcome W
  unfolding rffe_main show_leds
  rffe_startup itob16 confv0 l w =
      let w1 = sv.nsh_initialize (sv.usleep 100000 w) in
      let w2 = sv.task_create (sv.nsh_telnetstart (show_leds 1 w1)) in
      let (_, w3) = config_migrate_latest os itob16 cfg_file confv0 w2 in
      rffe_main (codes "rffe" ∷ []) l w3

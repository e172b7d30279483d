-- ===== src/Startup/Tests.antt =====
-- The theorems about the start of the firmware on the target of Startup.Sim.
use rffe_uc_fw.Base.{
  ◌≡◌, List, none, pos, negsuc, refl, [], ◌∷◌, true, false, replicate, splice, u32, ◌<<◌, arith,
}
use rffe_uc_fw.Base.Text.{codes}
use rffe_uc_fw.Config.{EthAddrMode, eth_mode_of_byte}
use rffe_uc_fw.Config.Transfers.{IsPresent}
use rffe_uc_fw.Config.View.{view}
use rffe_uc_fw.Commands.Sim.{version, four}
use rffe_uc_fw.Console.Sim.{library, stack}
use rffe_uc_fw.Startup.{
  NetifConfig, Lease, MainLocals, Outcome, cfg_file, netconfig, rffe_main, rffe_startup,
}
use rffe_uc_fw.Startup.Network.{IsConfigured, netconfig-IsConfigured}
use rffe_uc_fw.Startup.Main.{conf_of, IsSized, IsServing, IsStored, main_static}
use rffe_uc_fw.Startup.Upgrade.{HoldsUpgrade, startup_upgraded}
use rffe_uc_fw.Startup.Servers.{
  runs_temp_control, runs_fw_update, runs_client, null, dac_write_back, user_data, Accept,
  rffe_serve,
}
use rffe_uc_fw.Startup.Threads.{threads_of, closed_by, rffe_serve-Goes}
use rffe_uc_fw.Startup.Sim.{
  Target, files, files-IsDevice, quiet, netlib, netlib-IsNet, services, services-IsApart,
  netlib-KeepsFeram,
}

abbrev present : IsPresent files cfg_file
present = λ m w. (3, refl)

abbrev blank : NetifConfig
blank = record {
  mac = replicate 6 0;
  ipaddr = four;
  netmask = four;
  default_router = four;
  dnsaddr = four;
}

abbrev unset : Lease
unset = record { ipaddr = four; netmask = four; default_router = four }

abbrev locals : MainLocals
locals = record {
  conf = blank;
  att = four;
  dhcp_mode = EthAddrMode.none;
  byte = 7;
  ds = unset;
  console = stack;
}

abbrev sized : IsSized locals
sized = record { mac_size = refl; ipaddr_size = refl; netmask_size = refl; router_size = refl }

-- A record of zeros, which is an old one with a static address.
abbrev target : Target
target = record {
  memory = record {
    bytes = splice 16 (10 ∷ 0 ∷ 0 ∷ 7 ∷ []) (replicate 2048 0);
    at = 0;
    write_access = false;
  };
  port = record { mac = []; ip = []; mask = []; router = []; up = false };
}

abbrev given : NetifConfig
given = record blank { ipaddr = 10 ∷ 0 ∷ 0 ∷ 7 ∷ []; default_router = 10 ∷ 0 ∷ 0 ∷ 1 ∷ [] }

netconfig-IsConfigured_example :
    IsConfigured netlib "eth0"
      (netlib-IsNet "eth0")
      given
      (netconfig netlib "eth0" given true unset target)
netconfig-IsConfigured_example =
    netconfig-IsConfigured netlib "eth0" (netlib-IsNet "eth0") given true unset target

main_static_example :
    IsServing library files quiet version netlib services files-IsDevice present
      (netlib-IsNet "eth0")
      services-IsApart
      (conf_of (view target.memory.bytes))
      (rffe_main library files quiet version netlib services (codes "rffe" ∷ []) locals target)
unfolding eth_mode_of_byte
main_static_example =
    main_static library files quiet version netlib services files-IsDevice present
      (netlib-IsNet "eth0") services-IsApart (codes "rffe") locals target (λ w. refl) sized
      (omega arith) refl

abbrev upgraded_outcome : Outcome Target
upgraded_outcome =
    rffe_startup library files quiet version netlib services (λ i. u32 (i << 16))
      (replicate 81 0xAA) locals target

startup_upgraded_example :
    IsServing library files quiet version netlib services files-IsDevice present
      (netlib-IsNet "eth0")
      services-IsApart
      (conf_of (view target.memory.bytes))
      upgraded_outcome
    × IsStored library files quiet version netlib services files-IsDevice present
        (netlib-IsNet "eth0")
        services-IsApart
        (HoldsUpgrade library files quiet version netlib services files-IsDevice present
          (netlib-IsNet "eth0")
          services-IsApart
          (λ i. u32 (i << 16))
          target.memory.bytes)
        upgraded_outcome
unfolding eth_mode_of_byte
startup_upgraded_example =
    startup_upgraded library files quiet version netlib services files-IsDevice present
      (netlib-IsNet "eth0") services-IsApart netlib-KeepsFeram (λ i. u32 (i << 16))
      (replicate 81 0xAA) locals target (λ w. refl) refl sized refl refl refl

-- Three clients: one finds room, the next does not and has no timeout, the last finds room again.
abbrev accepts : List Accept
accepts =
    record { newsockfd = pos 6; ret = pos 0; active = pos 3 }
    ∷ record { newsockfd = pos 7; ret = negsuc 0; active = pos 4 }
    ∷ record { newsockfd = pos 8; ret = pos 0; active = pos 3 }
    ∷ []

rffe_serve-Goes_example :
    let (returned, calls) = rffe_serve 100 200 204 (pos 5) (pos 0) (pos 0) accepts in
    (returned ≡ none)
    × (threads_of calls ≡ (
        (runs_temp_control, dac_write_back 200 204)
        ∷ (runs_fw_update, null)
        ∷ (runs_client, user_data (pos 6) 100 200 204)
        ∷ (runs_client, user_data (pos 8) 100 200 204)
        ∷ []))
    × (closed_by calls ≡ (pos 7 ∷ []))
rffe_serve-Goes_example = rffe_serve-Goes 100 200 204 (pos 5) (pos 0) (pos 0) accepts

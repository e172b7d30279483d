-- ===== src/Startup/Sim.antt =====
-- A memory for the FERAM and an interface that the calls of netlib set, for the examples. The DHCP
-- server leases an address and a mask, but no router.
use rffe_uc_fw.Base.{String, refl, [], ◌∷◌, pos, true}
use rffe_uc_fw.Device.Os.{Os, IsDevice}
use rffe_uc_fw.Device.Sim.{Memory, sim, sim-IsDevice}
use rffe_uc_fw.Commands.Interface.{Board}
use rffe_uc_fw.Startup.{Net, Services, cfg_file}
use rffe_uc_fw.Startup.Network.{Iface, IsNet}
use rffe_uc_fw.Startup.Main.{KeepsFeram, IsApart}

pub record Target : Type 0 where
  pub memory : Memory
  pub port : Iface

abbrev pub files : Os Target
files = record {
  open_file =
      λ path m w. let (fd, s) = sim.open_file path m w.memory in (fd, record w { memory = s });
  lseek = λ fd n w. record w { memory = sim.lseek fd n w.memory };
  read_file =
      λ fd n w. let (r, got, s) = sim.read_file fd n w.memory in (r, got, record w { memory = s });
  write_file =
      λ fd bs w. let (r, s) = sim.write_file fd bs w.memory in (r, record w { memory = s });
  close = λ fd w. record w { memory = sim.close fd w.memory };
}

abbrev inner : IsDevice sim cfg_file
inner = sim-IsDevice cfg_file

abbrev pub files-IsDevice : IsDevice files cfg_file
files-IsDevice = record {
  contents = λ w. inner.contents w.memory;
  offset = λ w. inner.offset w.memory;
  readable = λ w. inner.readable w.memory;
  writable = λ w. inner.writable w.memory;
  open-contents = λ m w. inner.open-contents m w.memory;
  open-offset = λ m w fd e. inner.open-offset m w.memory fd e;
  open_reads = λ w fd e. inner.open_reads w.memory fd e;
  open_writes = λ w fd e. inner.open_writes w.memory fd e;
  lseek_lem = λ fd n w. inner.lseek_lem fd n w.memory;
  lseek-offset = λ fd n w. inner.lseek-offset fd n w.memory;
  read_lem = λ fd n w. inner.read_lem fd n w.memory;
  write_lem = λ fd bs w. inner.write_lem fd bs w.memory;
  close-contents = λ fd w. inner.close-contents fd w.memory;
}

abbrev pub quiet : Board Target
quiet = record { set_att = λ fd att w. w; board_reset = λ w. w }

abbrev pub netlib : Net Target
netlib = record {
  setmacaddr = λ name a w. record w { port = record w.port { mac = a } };
  set_dripv4addr = λ name a w. record w { port = record w.port { router = a } };
  set_ipv4addr = λ name a w. record w { port = record w.port { ip = a } };
  set_ipv4netmask = λ name a w. record w { port = record w.port { mask = a } };
  ifup = λ name w. record w { port = record w.port { up = true } };
  dhcpc_open = λ name a w. (true, w);
  dhcpc_request = λ ds w. (
    pos 0,
    record {
      ipaddr = 10 ∷ 0 ∷ 0 ∷ 9 ∷ [];
      netmask = 255 ∷ 0 ∷ 0 ∷ 0 ∷ [];
      default_router = 0 ∷ 0 ∷ 0 ∷ 0 ∷ [];
    },
    w,
  );
  dhcpc_close = λ w. w;
}

abbrev pub netlib-IsNet : (name : String) → IsNet netlib name
netlib-IsNet name = record {
  iface = λ w. w.port;
  iface-setmacaddr = λ a w. refl;
  iface-set_dripv4addr = λ a w. refl;
  iface-set_ipv4addr = λ a w. refl;
  iface-set_ipv4netmask = λ a w. refl;
  iface-ifup = λ w. refl;
  iface-dhcpc_open = λ a w. refl;
  iface-dhcpc_request = λ ds w a. refl;
  iface-dhcpc_close = λ w. refl;
}

abbrev pub services : Services Target
services = record {
  i2c_transfer = λ fd addr flags frequency bs w. w;
  errno = λ w. 5;
  set_leds = λ fd n w. w;
  usleep = λ n w. w;
  nsh_initialize = λ w. w;
  nsh_telnetstart = λ w. w;
  task_create = λ w. w;
}

abbrev pub services-IsApart :
    IsApart files quiet netlib services files-IsDevice (netlib-IsNet "eth0")
services-IsApart = record {
  board_apart = record {
    open_any = λ path m w. refl;
    read_any = λ fd n w. refl;
    set_att-contents = λ fd att w. refl;
  };
  i2c_transfer-contents = λ fd addr flags frequency bs w. refl;
  set_leds-contents = λ fd n w. refl;
  usleep-contents = λ n w. refl;
  nsh_initialize-contents = λ w. refl;
  nsh_telnetstart-contents = λ w. refl;
  task_create-contents = λ w. refl;
  open-iface = λ path m w. refl;
  set_leds-iface = λ fd n w. refl;
  close-iface = λ fd w. refl;
}

pub netlib-KeepsFeram : KeepsFeram files netlib files-IsDevice
netlib-KeepsFeram = record {
  setmacaddr-contents = λ netdev bs w. refl;
  set_dripv4addr-contents = λ netdev bs w. refl;
  set_ipv4addr-contents = λ netdev bs w. refl;
  set_ipv4netmask-contents = λ netdev bs w. refl;
  ifup-contents = λ netdev w. refl;
}

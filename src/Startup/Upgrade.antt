-- ===== src/Startup/Upgrade.antt =====
-- rffe_main.c and config_file_migrate.c: the first start of the firmware on a board with a record of
-- the old layout.
use rffe_uc_fw.Base.{
  subst, slice, bytes_of_word, ℕ, ◌≡◌, ◌≤◌, ap, ◌∙◌, false, List, is_neg, length, length-splice,
  arith,
}
use rffe_uc_fw.Base.Text.{codes}
use rffe_uc_fw.Device.Os.{read_only, Os, IsDevice}
use rffe_uc_fw.Config.{static}
use rffe_uc_fw.Config.Transfers.{IsPresent}
use rffe_uc_fw.Config.Fields.{record_size}
use rffe_uc_fw.Config.View.{view}
use rffe_uc_fw.Migrate.{old_attenuation, asr1, config_v0_size, config_migrate_latest}
use rffe_uc_fw.Migrate.Upgrade.{feram_size}
use rffe_uc_fw.Migrate.Laws.{version_of, migrate-old}
use rffe_uc_fw.Migrate.View.{upgraded_settings, migrate_settings}
use rffe_uc_fw.Commands.Interface.{Board, GitVersion}
use rffe_uc_fw.Console.{Library}
use rffe_uc_fw.Startup.{Net, Services, MainLocals, cfg_file, show_leds, rffe_startup}
use rffe_uc_fw.Startup.Network.{IsNet}
use rffe_uc_fw.Startup.Main.{
  KeepsFeram, IsStored, show_leds-contents, main_static-IsStored, conf_of, IsSized, IsApart,
  IsServing, IsServing-same, main_static,
}

module _ {W : Type 0} (lib : Library) (os : Os W) (board : Board W) (git : GitVersion) (net : Net W)
    (sv : Services W) (dev : IsDevice os cfg_file) (present : IsPresent os cfg_file)
    (laws : IsNet net "eth0") (apart : IsApart os board net sv dev laws) where
  open dev use {contents}

  -- What the FERAM holds after the upgrade of what it held before.
  abbrev pub HoldsUpgrade : (itob16 : ℕ → ℕ) → List ℕ → List ℕ → Type 0
  HoldsUpgrade itob16 c c' =
      let v0 = slice 0 config_v0_size c in
      (view c' ≡ upgraded_settings (bytes_of_word (asr1 (itob16 (old_attenuation v0)))) (view c))
      × (slice 1792 config_v0_size c' ≡ v0)

  -- The first start on a board with an old record and a static address comes to the servers with the
  -- network interface up and with exactly the MAC address, the address, the mask and the gateway of
  -- the old record. The FERAM then holds the settings of the upgraded record, in which all but the
  -- attenuation and what is new is as it was, and a copy of the old record at 1792. The device has no
  -- fault, the bus of the clock synthesizer opens, and netlib and the other calls leave the FERAM
  -- alone.
  pub startup_upgraded :
      (keeps : KeepsFeram os net dev) (itob16 : ℕ → ℕ) (confv0 : List ℕ) (l : MainLocals) (w : W)
      → ((w' : W) → is_neg (os.open_file "/dev/i2c0" read_only w').0 ≡ false)
      → length confv0 ≡ config_v0_size
      → IsSized l
      → length (contents w) ≡ feram_size
      → version_of (contents w) ≡ 0
      → (view (contents w)).eth ≡ static
      → let outcome = rffe_startup lib os board git net sv itob16 confv0 l w in
        IsServing lib os board git net sv dev present laws apart
          (conf_of (view (contents w)))
          outcome
        × IsStored lib os board git net sv dev present laws apart
            (HoldsUpgrade itob16 (contents w))
            outcome
  unfolding rffe_startup
  startup_upgraded keeps itob16 confv0 l w opens n sized room old is_static =
      let w1 = sv.nsh_initialize (sv.usleep 100000 w) in
      let w2 = sv.task_create (sv.nsh_telnetstart (show_leds lib os board git net sv 1 w1)) in
      let same =
        apart.task_create-contents _
        ∙ apart.nsh_telnetstart-contents _
        ∙ show_leds-contents lib os board git net sv dev present laws apart 1 w1
        ∙ apart.nsh_initialize-contents _
        ∙ apart.usleep-contents 100000 w in
      let w3 = (config_migrate_latest os itob16 cfg_file confv0 w2).1 in
      let room2 = ap length same ∙ room in
      let old2 = ap version_of same ∙ old in
      let (_, wrote) = migrate-old os cfg_file dev present itob16 confv0 w2 n room2 old2 in
      let (migrated, copied) =
        migrate_settings os cfg_file dev present itob16 confv0 w2 n room2 old2 in
      let fits : record_size ≤ length (contents w3) =
        rw (wrote, length-splice, length-splice) (omega (arith, room2)) in
      let static3 = ap (λ s. s.eth) migrated ∙ ap (λ c. (view c).eth) same ∙ is_static in
      let upgraded3 : HoldsUpgrade itob16 (contents w) (contents w3) =
        subst (λ c. HoldsUpgrade itob16 c (contents w3)) same (migrated, copied) in
      (
        IsServing-same lib os board git net sv dev present laws apart (conf_of (view (contents w3)))
            (conf_of (view (contents w))) _ (ap conf_of migrated ∙ ap (λ c. conf_of (view c)) same)
            (main_static lib os board git net sv dev present laws apart (codes "rffe") l w3 opens
              sized fits static3),
        main_static-IsStored lib os board git net sv dev present laws apart
            (HoldsUpgrade itob16 (contents w)) keeps (codes "rffe") l w3 opens sized fits static3
            upgraded3,
      )

-- ===== src/Console/Reads.antt =====
-- rffe_console_cfg.c: the subcommands of "get" and the record in the FERAM.
use rffe_uc_fw.Base.{
  ℕ, String, ◌≡◌, ◌≤◌, refl, ◌∙◌, inl, inr, List, ◌∷◌, pos, length, Option, none, some, Bool-cases,
  arith,
}
use rffe_uc_fw.Base.Text.{codes}
use rffe_uc_fw.Device.Os.{read_only, Os, IsDevice}
use rffe_uc_fw.Config.Transfers.{IsPresent, get_eth-contents}
use rffe_uc_fw.Config.Fields.{mac, ipv4, mask, gateway, attenuation, record_size, get_field-slice}
use rffe_uc_fw.Commands.Interface.{Board, GitVersion}
use rffe_uc_fw.Commands.Bodies.{is_above_zero}
use rffe_uc_fw.Commands.Settings.{IsBoard}
use rffe_uc_fw.Console.{
  Library, Stack, Result, returned, null_pointer, cfg_file, Query, get_ip, get_netmask, get_gateway,
  get_mac, get_dhcp, get_temp_ac, get_temp_bd, get_attenuation, get_version, query_of, print_temp,
  console_get, console_get_word, rffe_console_cfg,
}

module _ {W : Type 0} (lib : Library) (os : Os W) (board : Board W) (git : GitVersion)
    (dev : IsDevice os cfg_file) (present : IsPresent os cfg_file)
    (isolated : IsBoard os board dev) where
  open dev use {contents}

  -- A call that returns 0 and leaves the record as it was.
  abbrev pub IsKept : W → Result W → Type 0
  IsKept w (returned ret lines w1) = (ret ≡ pos 0) × (contents w1 ≡ contents w)
  IsKept w null_pointer = ⊥

  print_temp-contents :
      (path : String) (w : W) → contents (print_temp lib os board git path w).1 ≡ contents w
  unfolding print_temp
  print_temp-contents path w =
      let opened = isolated.open_any path read_only w in
      let w1 = (os.open_file path read_only w).1 in
      elim (Bool-cases (is_above_zero (os.open_file path read_only w).0)) [
        | inl e ↦ rw e (dev.close-contents _ _ ∙ isolated.read_any _ 4 w1 ∙ opened)
        | inr e ↦ rw e opened
      ]

  console_get-contents :
      (q : Query) (l : Stack) (w : W)
      → record_size ≤ length (contents w)
      → contents (console_get lib os board git q l w).1 ≡ contents w
  unfolding console_get
  console_get-contents get_ip l w h =
      (get_field-slice os cfg_file dev present ipv4 (pos 0) l.addr w h).1
  console_get-contents get_netmask l w h =
      (get_field-slice os cfg_file dev present mask (pos 0) l.addr w h).1
  console_get-contents get_gateway l w h =
      (get_field-slice os cfg_file dev present gateway (pos 0) l.addr w h).1
  console_get-contents get_mac l w h =
      (get_field-slice os cfg_file dev present mac (pos 0) l.mac w h).1
  console_get-contents get_dhcp l w h =
      get_eth-contents os cfg_file dev present l.byte l.eth_mode w (omega arith)
  console_get-contents get_temp_ac l w h = print_temp-contents "/dev/temp_ac" w
  console_get-contents get_temp_bd l w h = print_temp-contents "/dev/temp_bd" w
  console_get-contents get_attenuation l w h =
      (get_field-slice os cfg_file dev present attenuation (pos 0) l.att w h).1
  console_get-contents get_version l w h = refl

  console_get_word-IsKept :
      (q : Option Query) (l : Stack) (w : W)
      → record_size ≤ length (contents w)
      → IsKept w (console_get_word lib os board git q l w)
  unfolding console_get_word
  console_get_word-IsKept none l w h = (refl, refl)
  console_get_word-IsKept (some q) l w h = (refl, console_get-contents q l w h)

  -- A call with "get" and any further words returns 0 and leaves the record in the FERAM as it was,
  -- on a device without a fault and with room for the record, if calls on other files leave the
  -- FERAM alone.
  pub get-IsKept :
      (name what : List ℕ) (rest : List (List ℕ)) (l : Stack) (w : W)
      → record_size ≤ length (contents w)
      → IsKept w (rffe_console_cfg lib os board git (name ∷ codes "get" ∷ what ∷ rest) l w)
  unfolding rffe_console_cfg
  get-IsKept name what rest l w h = console_get_word-IsKept (query_of what) l w h

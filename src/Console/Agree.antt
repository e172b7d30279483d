-- ===== src/Console/Agree.antt =====
-- rffe_console_cfg.c and scpi_rffe_cmd.c: the two ways to change a setting.
use rffe_uc_fw.Base.{
  ℕ, ◌≡◌, refl, ap, true, false, inl, inr, List, [], ◌∷◌, pos, length, overlay_full, Bool-cases,
}
use rffe_uc_fw.Base.Text.{codes}
use rffe_uc_fw.Device.Os.{Os}
use rffe_uc_fw.Commands.Interface.{Scpi, Board, GitVersion, State}
use rffe_uc_fw.Commands.Bodies.{is_zero, set_flag, set_address}
use rffe_uc_fw.Commands.{
  rffe_set_attenuation, rffe_set_ip_addr, rffe_set_netmask, rffe_set_gateway_addr,
  rffe_set_dhcp_mode,
}
use rffe_uc_fw.Commands.Settings.{att, Locals}
use rffe_uc_fw.Commands.Flags.{dhcp_mode}
use rffe_uc_fw.Commands.Addresses.{Address, ip_addr, gateway_addr, netmask}
use rffe_uc_fw.Commands.All.{SetCommand, number, flag, address, execute_set}
use rffe_uc_fw.Console.{
  Library, Stack, returned, change_of, change_address, change_dhcp, change_attenuation, console_set,
  console_set_word, rffe_console_cfg,
}

abbrev pub name_of : Address → List ℕ
name_of ip_addr = codes "ip"
name_of netmask = codes "netmask"
name_of gateway_addr = codes "gateway"

module _ {C N W : Type 0} (scpi : Scpi C N) (lib : Library) (os : Os W) (board : Board W)
    (git : GitVersion) where
  -- A command of the console, by its second and third word, and a SCPI command in a state have the
  -- same value: the text of an address, a word and a flag, or a number in print and as a parameter.
  pub data SameValue (l : Stack) (s : State C W) : List ℕ → List ℕ → SetCommand → Type 0 where
    address_text :
        {text : List ℕ} {c1 : C} (a : Address)
        → scpi.param_copy_text 32 s.context ≡ (true, text, c1)
        → lib.inet_pton text ≡ scpi.inet_pton text
        → SameValue l s (name_of a) text (address a)
    enable :
        {c1 : C}
        → scpi.param_bool s.context ≡ (true, true, c1)
        → SameValue l s (codes "dhcp") (codes "enable") (flag dhcp_mode)
    disable :
        {c1 : C}
        → scpi.param_bool s.context ≡ (true, false, c1)
        → SameValue l s (codes "dhcp") (codes "disable") (flag dhcp_mode)
    attenuation :
        {text num : List ℕ} {v : N} {c1 : C}
        → scpi.param_number s.context ≡ (true, v, c1)
        → lib.scan_float text ≡ (pos 1, num)
        → length l.num ≡ length num
        → lib.ftob16 num ≡ scpi.ftob16 v
        → SameValue l s (codes "attenuation") text (number att)

  -- The console's word and the text that the parser copies.
  address_agrees :
      (set : List ℕ → W → W) (l : Stack) (junk text : List ℕ) (s : State C W) (c1 : C)
      → l.addr ≡ junk
      → scpi.param_copy_text 32 s.context ≡ (true, text, c1)
      → lib.inet_pton text ≡ scpi.inet_pton text
      → change_address lib os board git set l text s.world
        ≡ ([], (set_address scpi os set junk s).1.world)
  unfolding change_address set_address
  address_agrees set l junk text s c1 same given read =
      elim (Bool-cases (is_zero (scpi.inet_pton text).0)) [
        | inl e ↦ rw (given, read, e) refl
        | inr e ↦ rw (given, read, same, e) refl
      ]

  -- The console changes the world exactly as the SCPI command of the same setting does with the same
  -- value, and prints nothing, also where the text is no address; for the three addresses, the mode
  -- of addressing and the attenuation, whatever the devices do, if the variables for the address
  -- hold the same before.
  pub console_agrees :
      (l : Stack) (locals : Locals) (s : State C W) (what text name : List ℕ) (c : SetCommand)
      (rest : List (List ℕ))
      → l.addr ≡ locals.value
      → SameValue l s what text c
      → rffe_console_cfg lib os board git (name ∷ codes "set" ∷ what ∷ text ∷ rest) l s.world
        ≡ returned (pos 0) [] (execute_set scpi os board git c locals s).1.world
  unfolding rffe_console_cfg change_of console_set_word console_set change_dhcp change_attenuation
      rffe_set_ip_addr rffe_set_netmask rffe_set_gateway_addr rffe_set_dhcp_mode
      rffe_set_attenuation set_flag
  console_agrees l locals s what text name c rest same (address_text {c1 = c1} ip_addr given read) =
      ap (λ r. returned (pos 0) r.0 r.1) (address_agrees _ l locals.value text s c1 same given read)
  console_agrees l locals s what text name c rest same (address_text {c1 = c1} netmask given read) =
      ap (λ r. returned (pos 0) r.0 r.1) (address_agrees _ l locals.value text s c1 same given read)
  console_agrees l locals s what text name c rest same
        (address_text {c1 = c1} gateway_addr given read) =
      ap (λ r. returned (pos 0) r.0 r.1) (address_agrees _ l locals.value text s c1 same given read)
  console_agrees l locals s what text name c rest same (enable given) = rw given refl
  console_agrees l locals s what text name c rest same (disable given) = rw given refl
  console_agrees l locals s what text name c rest same
        (attenuation {num = num} given read size value) =
      rw (given, read, overlay_full num l.num size, value) refl

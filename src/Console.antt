-- ===== src/Console.antt =====
-- rffe-app/rffe_console_cfg.c: the command that reads and writes the configuration from the shell.
-- A word of the command line and an address in print are the codes of their characters. `printf` is
-- a list of lines, one constructor for each call.
pub mod Reads
pub mod Agree
pub mod Sim
mod Tests
pub mod Mac
use rffe_uc_fw.Base.{
  ℕ, String, List, [], ◌∷◌, ℤ, pos, negsuc, ◌+◌, ◌++◌, ◌==◌, overlay, splice, slice, bytes_of_word,
  if◌then◌else◌, Option, none, some, Bool, false,
}
use rffe_uc_fw.Base.Text.{codes, same_text}
use rffe_uc_fw.Device.Os.{read_only, Os}
use rffe_uc_fw.Config.{
  EthAddrMode, dhcp, static, config_get_ipv4_addr, config_set_ipv4_addr, config_get_mask_addr,
  config_set_mask_addr, config_get_gateway_addr, config_set_gateway_addr, config_get_mac_addr,
  config_set_mac_addr, config_get_eth_addressing, config_set_eth_addressing, config_get_attenuation,
  config_set_attenuation,
}
use rffe_uc_fw.Commands.Interface.{Board, GitVersion}
use rffe_uc_fw.Commands.Bodies.{is_above_zero, is_zero, zero_float}

abbrev pub cfg_file : String
cfg_file = "/dev/feram0"

-- The functions of the C library and of fixedmath.h: the results, and what is stored.
pub record Library : Type 0 where
  pub inet_pton : List ℕ → ℤ × List ℕ
  pub inet_ntoa : List ℕ → List ℕ
  -- sscanf with "%x:%x:%x:%x:%x:%x": how many numbers were read, and these numbers, as unsigned int.
  pub scan_mac : List ℕ → ℤ × List ℕ
  -- sscanf with "%f".
  pub scan_float : List ℕ → ℤ × List ℕ
  pub ftob16 : List ℕ → List ℕ
  pub b16tof : List ℕ → List ℕ

-- What the locals hold that are not set: an address, the MAC address and the three bytes behind it,
-- the mode and its byte, the attenuation, a float.
pub record Stack : Type 0 where
  pub addr : List ℕ
  pub mac : List ℕ
  pub behind : List ℕ
  pub eth_mode : EthAddrMode
  pub byte : ℕ
  pub att : List ℕ
  pub num : List ℕ

pub data Line : Type 0 where
  ip netmask gateway : List ℕ → Line
  mac : List ℕ → Line
  enabled disabled neither : Line
  degrees : List ℕ → Line
  hardware_missing : Line
  decibels : List ℕ → Line
  version : GitVersion → Line
  invalid_mac : Line
  expected_mode : List ℕ → Line
  invalid_attenuation : Line
  invalid_command : List ℕ → Line

-- The second word after "get", and after "set".
pub data Query : Type 0 where
  get_ip get_netmask get_gateway get_mac get_dhcp get_temp_ac get_temp_bd get_attenuation : Query
  get_version : Query

pub data Change : Type 0 where
  set_ip set_netmask set_gateway set_mac set_dhcp set_attenuation : Change

pub query_of : List ℕ → Option Query
query_of what =
    if same_text what (codes "ip")
    then some get_ip
    else if same_text what (codes "netmask")
    then some get_netmask
    else if same_text what (codes "gateway")
    then some get_gateway
    else if same_text what (codes "mac")
    then some get_mac
    else if same_text what (codes "dhcp")
    then some get_dhcp
    else if same_text what (codes "temp_ac")
    then some get_temp_ac
    else if same_text what (codes "temp_bd")
    then some get_temp_bd
    else if same_text what (codes "attenuation")
    then some get_attenuation
    else if same_text what (codes "version")
    then some get_version
    else none

pub change_of : List ℕ → Option Change
change_of what =
    if same_text what (codes "ip")
    then some set_ip
    else if same_text what (codes "netmask")
    then some set_netmask
    else if same_text what (codes "gateway")
    then some set_gateway
    else if same_text what (codes "mac")
    then some set_mac
    else if same_text what (codes "dhcp")
    then some set_dhcp
    else if same_text what (codes "attenuation")
    then some set_attenuation
    else none

-- The line for a mode of addressing.
pub eth_mode_line : EthAddrMode → Line
eth_mode_line dhcp = enabled
eth_mode_line static = disabled
eth_mode_line EthAddrMode.none = neither

-- The six conversions store four bytes each, at one byte after the other from the start of the
-- variable; the first argument is what the memory from there on holds.
pub store_words : List ℕ → ℕ → List ℕ → List ℕ
store_words memory at [] = memory
store_words memory at (x ∷ xs) = store_words (splice at (bytes_of_word x) memory) (1 + at) xs

-- `ret == 6` and `ret == 1`
abbrev is_number : ℕ → ℤ → Bool
is_number n (pos m) = m == n
is_number n (negsuc m) = false

-- How a call ends: it returns, or a null pointer is passed on where a word is missing.
pub data Result (W : Type 0) : Type 0 where
  returned : ℤ → List Line → W → Result W
  null_pointer : Result W

module _ {W : Type 0} (lib : Library) (os : Os W) (board : Board W) (git : GitVersion) where
  -- "temp_ac" and "temp_bd"
  pub print_temp : String → W → List Line × W
  print_temp path w =
      let (fd, w1) = os.open_file path read_only w in
      let (_, got, w2) = os.read_file fd 4 w1 in
      if is_above_zero fd
      then (degrees (lib.b16tof (overlay got zero_float)) ∷ [], os.close fd w2)
      else (hardware_missing ∷ [], w1)

  pub console_get : Query → Stack → W → List Line × W
  unfolding eth_mode_line print_temp
  console_get get_ip l w =
      let (_, addr, w1) = config_get_ipv4_addr os cfg_file l.addr w in
      (ip (lib.inet_ntoa addr) ∷ [], w1)
  console_get get_netmask l w =
      let (_, addr, w1) = config_get_mask_addr os cfg_file l.addr w in
      (netmask (lib.inet_ntoa addr) ∷ [], w1)
  console_get get_gateway l w =
      let (_, addr, w1) = config_get_gateway_addr os cfg_file l.addr w in
      (gateway (lib.inet_ntoa addr) ∷ [], w1)
  console_get get_mac l w =
      let (_, got, w1) = config_get_mac_addr os cfg_file l.mac w in (mac got ∷ [], w1)
  console_get get_dhcp l w =
      let (_, mode, w1) = config_get_eth_addressing os cfg_file l.byte l.eth_mode w in
      (eth_mode_line mode ∷ [], w1)
  console_get get_temp_ac l w = print_temp "/dev/temp_ac" w
  console_get get_temp_bd l w = print_temp "/dev/temp_bd" w
  console_get get_attenuation l w =
      let (_, att, w1) = config_get_attenuation os cfg_file l.att w in
      (decibels (lib.b16tof att) ∷ [], w1)
  console_get get_version l w = (version git ∷ [], w)

  -- "ip", "netmask" and "gateway"
  pub change_address : (set : List ℕ → W → W) → Stack → (word : List ℕ) → W → List Line × W
  change_address set l word w =
      let (valid_ip, addr) = lib.inet_pton word in
      if is_zero valid_ip then ([], w) else ([], set (overlay addr l.addr) w)

  pub change_mac : Stack → (word : List ℕ) → W → List Line × W
  unfolding store_words
  change_mac l word w =
      let (ret, words) = lib.scan_mac word in
      let memory = store_words (l.mac ++ l.behind) 0 words in
      if is_number 6 ret
      then ([], (config_set_mac_addr os cfg_file (slice 0 6 memory) w).1)
      else (invalid_mac ∷ [], w)

  pub change_dhcp : (word : List ℕ) → W → List Line × W
  change_dhcp word w =
      if same_text word (codes "enable")
      then ([], (config_set_eth_addressing os cfg_file dhcp w).1)
      else if same_text word (codes "disable")
      then ([], (config_set_eth_addressing os cfg_file static w).1)
      else (expected_mode word ∷ [], w)

  pub change_attenuation : Stack → (word : List ℕ) → W → List Line × W
  change_attenuation l word w =
      let (ret, num) = lib.scan_float word in
      let att = lib.ftob16 (overlay num l.num) in
      let (fd, w1) = os.open_file "/dev/att0" read_only w in
      let w2 = os.close fd (board.set_att fd att w1) in
      if is_number 1 ret
      then ([], (config_set_attenuation os cfg_file att w2).1)
      else (invalid_attenuation ∷ [], w)

  pub console_set : Change → Stack → (word : List ℕ) → W → List Line × W
  unfolding change_address change_mac change_dhcp change_attenuation
  console_set set_ip l = change_address (λ x w. (config_set_ipv4_addr os cfg_file x w).1) l
  console_set set_netmask l = change_address (λ x w. (config_set_mask_addr os cfg_file x w).1) l
  console_set set_gateway l = change_address (λ x w. (config_set_gateway_addr os cfg_file x w).1) l
  console_set set_mac l = change_mac l
  console_set set_dhcp l = change_dhcp
  console_set set_attenuation l = change_attenuation l

  -- `argv[3]` is passed on without a test that it is there.
  pub console_set_word : Option Change → Stack → List (List ℕ) → W → Result W
  unfolding console_set
  console_set_word none l rest w = returned (pos 0) [] w
  console_set_word (some c) l [] w = null_pointer
  console_set_word (some c) l (word ∷ rest) w =
      let (lines, w1) = console_set c l word w in returned (pos 0) lines w1

  pub console_get_word : Option Query → Stack → W → Result W
  unfolding console_get
  console_get_word none l w = returned (pos 0) [] w
  console_get_word (some q) l w = let (lines, w1) = console_get q l w in returned (pos 0) lines w1

  -- The words of the command line, the name of the program first.
  pub rffe_console_cfg : List (List ℕ) → Stack → W → Result W
  unfolding query_of change_of console_get_word console_set_word
  rffe_console_cfg (name ∷ command ∷ what ∷ rest) l w =
      if same_text command (codes "get")
      then console_get_word (query_of what) l w
      else if same_text command (codes "set")
      then console_set_word (change_of what) l rest w
      else returned (negsuc 0) (invalid_command command ∷ []) w
  rffe_console_cfg _ l w = returned (pos 0) [] w

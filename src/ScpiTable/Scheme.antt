-- ===== src/ScpiTable/Scheme.antt =====
-- scpi_tables.c: the scheme that the patterns of the board's commands follow.
use rffe_uc_fw.Base.{
  ℕ, ◌≡◌, refl, Bool, true, not, ap, ◌∙◌, ◌&&◌, arith, List, [], ◌∷◌, ◌++◌, some, String,
  if◌then◌else◌,
}
use rffe_uc_fw.Base.Text.{codes, same_text}
use rffe_uc_fw.Config.Pid.{Channel, ac, bd}
use rffe_uc_fw.Device.Os.{Os}
use rffe_uc_fw.Commands.Interface.{ScpiResult, Scpi, Board, GitVersion, State}
use rffe_uc_fw.Commands.Settings.{Locals, Constant, Setting, att, temp_ac, temp_bd, pid, kc, ti, td}
use rffe_uc_fw.Commands.Flags.{Flag, dhcp_mode, temp_control}
use rffe_uc_fw.Commands.Addresses.{Address, ip_addr, gateway_addr, netmask}
use rffe_uc_fw.Commands.All.{
  SetCommand, Command, set, number, flag, output, address, query_number, query_flag, query_output,
  query_address, measure, self_test, get_version, reset, execute,
}
use rffe_uc_fw.ScpiTable.{Callback, handler, scpi_commands, find_command, answer, dispatch}

abbrev channel_word : Channel → List ℕ
channel_word ac = codes "AC"
channel_word bd = codes "BD"

abbrev constant_word : Constant → List ℕ
constant_word kc = codes "Kc"
constant_word ti = codes "Ti"
constant_word td = codes "Td"

abbrev setting_words : Setting → List ℕ
setting_words att = codes "ATTEnuation"
setting_words temp_ac = codes "TEMPerature:SETPoint:AC"
setting_words temp_bd = codes "TEMPerature:SETPoint:BD"
setting_words (pid ch c) = codes "PID:" ++ (constant_word c ++ (codes ":" ++ channel_word ch))

abbrev flag_words : Flag → List ℕ
flag_words dhcp_mode = codes "DHCPMode"
flag_words temp_control = codes "TEMPControl:AUTOmatic"

abbrev address_words : Address → List ℕ
address_words ip_addr = codes "IPAddr"
address_words gateway_addr = codes "GATEwayaddr"
address_words netmask = codes "NETMask"

-- What a command that takes a parameter sets, and the query of it asks for.
abbrev words_of : SetCommand → List ℕ
words_of (number q) = setting_words q
words_of (flag f) = flag_words f
words_of (output ch) = codes "DAC:OUTput:" ++ channel_word ch
words_of (address a) = address_words a

abbrev query_of : SetCommand → List ℕ
query_of c = codes "GET:" ++ (words_of c ++ codes "?")

abbrev pub pattern_of : Command → List ℕ
pattern_of (set c) = codes "SET:" ++ words_of c
pattern_of (query_number q) = query_of (number q)
pattern_of (query_flag f) = query_of (flag f)
pattern_of (query_output ch) = query_of (output ch)
pattern_of (query_address a) = query_of (address a)
pattern_of (measure ch) = codes "MEASure:TEMPerature:" ++ (channel_word ch ++ codes "?")
pattern_of self_test = codes "*TST?"
pattern_of get_version = codes "GET:VERsion?"
pattern_of reset = codes "SYSTem:RESet"

abbrev IsFound : Command → Type 0
IsFound c = find_command same_text (pattern_of c) scpi_commands ≡ some (handler c)

number_found : (q : Setting) → IsFound (set (number q)) × IsFound (query_number q)
number_found att = (refl, refl)
number_found temp_ac = (refl, refl)
number_found temp_bd = (refl, refl)
number_found (pid ac kc) = (refl, refl)
number_found (pid ac ti) = (refl, refl)
number_found (pid ac td) = (refl, refl)
number_found (pid bd kc) = (refl, refl)
number_found (pid bd ti) = (refl, refl)
number_found (pid bd td) = (refl, refl)

found : (c : Command) → IsFound c
found (set (number q)) = (number_found q).0
found (set (flag dhcp_mode)) = refl
found (set (flag temp_control)) = refl
found (set (output ac)) = refl
found (set (output bd)) = refl
found (set (address ip_addr)) = refl
found (set (address gateway_addr)) = refl
found (set (address netmask)) = refl
found (query_number q) = (number_found q).1
found (query_flag dhcp_mode) = refl
found (query_flag temp_control) = refl
found (query_output ac) = refl
found (query_output bd) = refl
found (query_address ip_addr) = refl
found (query_address gateway_addr) = refl
found (query_address netmask) = refl
found (measure ac) = refl
found (measure bd) = refl
found self_test = refl
found get_version = refl
found reset = refl

-- Whether a header is taken for exactly the rows with this pattern.
abbrev pub stands_for : (List ℕ → List ℕ → Bool) → List ℕ → List ℕ → List (String × Callback) → Bool
stands_for matches header p [] = true
stands_for matches header p ((text, callback) ∷ rows) =
    (if matches (codes text) header
      then same_text (codes text) p
      else not (same_text (codes text) p))
    && stands_for matches header p rows

find_command-same :
    (matches : List ℕ → List ℕ → Bool) (header p : List ℕ) (rows : List (String × Callback))
    → stands_for matches header p rows ≡ true
    → find_command matches header rows ≡ find_command same_text p rows
find_command-same matches header p [] e = refl
find_command-same matches header p ((text, callback) ∷ rows) e =
    let rest = find_command-same matches header p rows in ground arith

module _ {C N W : Type 0} (scpi : Scpi C N) (os : Os W) (board : Board W) (version : GitVersion)
    (core : String → State C W → ScpiResult × State C W)
    (undefined : State C W → ScpiResult × State C W) where
  -- A header that matches the pattern of one of the board's commands and no other pattern of the
  -- table runs that command, where the pattern of a set command is SET: and what it sets, and that of
  -- its query GET: with the same words and a question mark.
  pub dispatch-execute :
      (matches : List ℕ → List ℕ → Bool) (header : List ℕ) (c : Command) (l : Locals)
      (s : State C W)
      → stands_for matches header (pattern_of c) scpi_commands ≡ true
      → dispatch scpi os board version core undefined matches header l s
        ≡ execute scpi os board version c l s
  unfolding dispatch answer
  dispatch-execute matches header c l s fits =
      ap (λ f. answer scpi os board version core undefined f l s)
        (find_command-same matches header (pattern_of c) scpi_commands fits ∙ found c)

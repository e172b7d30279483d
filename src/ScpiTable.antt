-- ===== src/ScpiTable.antt =====
-- rffe-app/scpi_tables.c: the table of the patterns and their handlers. libscpi walks it in order
-- and takes the first row whose pattern the header of a message matches; which headers match a
-- pattern is a parameter. A handler of libscpi itself is its name.
pub mod Scheme
pub mod Sim
mod Tests
use rffe_uc_fw.Device.Os.{Os}
use rffe_uc_fw.Base.{ℕ, String, Bool, List, [], ◌∷◌, Option, none, some, if◌then◌else◌}
use rffe_uc_fw.Base.Text.{codes}
use rffe_uc_fw.Config.Pid.{ac, bd}
use rffe_uc_fw.Commands.Interface.{ScpiResult, Scpi, Board, GitVersion, State}
use rffe_uc_fw.Commands.Settings.{Locals, att, temp_ac, temp_bd, pid, kc, ti, td}
use rffe_uc_fw.Commands.Flags.{dhcp_mode, temp_control}
use rffe_uc_fw.Commands.Addresses.{ip_addr, gateway_addr, netmask}
use rffe_uc_fw.Commands.All.{
  Command, set, number, flag, output, address, query_number, query_flag, query_output,
  query_address, measure, self_test, get_version, reset, execute,
}

pub data Callback : Type 0 where
  library : String → Callback
  handler : Command → Callback

abbrev pub scpi_commands : List (String × Callback)
scpi_commands =
    ("*CLS", library "SCPI_CoreCls")
    ∷ ("*ESE", library "SCPI_CoreEse")
    ∷ ("*ESE?", library "SCPI_CoreEseQ")
    ∷ ("*ESR?", library "SCPI_CoreEsrQ")
    ∷ ("*IDN?", library "SCPI_CoreIdnQ")
    ∷ ("*OPC", library "SCPI_CoreOpc")
    ∷ ("*OPC?", library "SCPI_CoreOpcQ")
    ∷ ("*RST", library "SCPI_CoreRst")
    ∷ ("*SRE", library "SCPI_CoreSre")
    ∷ ("*SRE?", library "SCPI_CoreSreQ")
    ∷ ("*STB?", library "SCPI_CoreStbQ")
    ∷ ("*TST?", handler self_test)
    ∷ ("*WAI", library "SCPI_CoreWai")
    ∷ ("SYSTem:ERRor[:NEXT]?", library "SCPI_SystemErrorNextQ")
    ∷ ("SYSTem:ERRor:COUNt?", library "SCPI_SystemErrorCountQ")
    ∷ ("SYSTem:VERSion?", library "SCPI_SystemVersionQ")
    ∷ ("STATus:QUEStionable[:EVENt]?", library "SCPI_StatusQuestionableEventQ")
    ∷ ("STATus:QUEStionable:ENABle", library "SCPI_StatusQuestionableEnable")
    ∷ ("STATus:QUEStionable:ENABle?", library "SCPI_StatusQuestionableEnableQ")
    ∷ ("STATus:PRESet", library "SCPI_StatusPreset")
    ∷ ("MEASure:TEMPerature:AC?", handler (measure ac))
    ∷ ("MEASure:TEMPerature:BD?", handler (measure bd))
    ∷ ("SET:ATTEnuation", handler (set (number att)))
    ∷ ("GET:ATTEnuation?", handler (query_number att))
    ∷ ("SET:TEMPerature:SETPoint:AC", handler (set (number temp_ac)))
    ∷ ("SET:TEMPerature:SETPoint:BD", handler (set (number temp_bd)))
    ∷ ("GET:TEMPerature:SETPoint:AC?", handler (query_number temp_ac))
    ∷ ("GET:TEMPerature:SETPoint:BD?", handler (query_number temp_bd))
    ∷ ("SET:PID:Kc:AC", handler (set (number (pid ac kc))))
    ∷ ("SET:PID:Ti:AC", handler (set (number (pid ac ti))))
    ∷ ("SET:PID:Td:AC", handler (set (number (pid ac td))))
    ∷ ("SET:PID:Kc:BD", handler (set (number (pid bd kc))))
    ∷ ("SET:PID:Ti:BD", handler (set (number (pid bd ti))))
    ∷ ("SET:PID:Td:BD", handler (set (number (pid bd td))))
    ∷ ("GET:PID:Kc:AC?", handler (query_number (pid ac kc)))
    ∷ ("GET:PID:Ti:AC?", handler (query_number (pid ac ti)))
    ∷ ("GET:PID:Td:AC?", handler (query_number (pid ac td)))
    ∷ ("GET:PID:Kc:BD?", handler (query_number (pid bd kc)))
    ∷ ("GET:PID:Ti:BD?", handler (query_number (pid bd ti)))
    ∷ ("GET:PID:Td:BD?", handler (query_number (pid bd td)))
    ∷ ("SET:TEMPControl:AUTOmatic", handler (set (flag temp_control)))
    ∷ ("GET:TEMPControl:AUTOmatic?", handler (query_flag temp_control))
    ∷ ("SET:DAC:OUTput:AC", handler (set (output ac)))
    ∷ ("SET:DAC:OUTput:BD", handler (set (output bd)))
    ∷ ("GET:DAC:OUTput:AC?", handler (query_output ac))
    ∷ ("GET:DAC:OUTput:BD?", handler (query_output bd))
    ∷ ("SET:IPAddr", handler (set (address ip_addr)))
    ∷ ("GET:IPAddr?", handler (query_address ip_addr))
    ∷ ("SET:GATEwayaddr", handler (set (address gateway_addr)))
    ∷ ("GET:GATEwayaddr?", handler (query_address gateway_addr))
    ∷ ("SET:NETMask", handler (set (address netmask)))
    ∷ ("GET:NETMask?", handler (query_address netmask))
    ∷ ("SET:DHCPMode", handler (set (flag dhcp_mode)))
    ∷ ("GET:DHCPMode?", handler (query_flag dhcp_mode))
    ∷ ("GET:VERsion?", handler get_version)
    ∷ ("SYSTem:RESet", handler reset)
    ∷ []

-- The first row whose pattern matches.
abbrev pub find_command :
    (List ℕ → List ℕ → Bool) → List ℕ → List (String × Callback) → Option Callback
find_command matches header [] = none
find_command matches header ((text, callback) ∷ rows) =
    if matches (codes text) header then some callback else find_command matches header rows

module _ {C N W : Type 0} (scpi : Scpi C N) (os : Os W) (board : Board W) (version : GitVersion)
    (core : String → State C W → ScpiResult × State C W)
    (undefined : State C W → ScpiResult × State C W) where
  -- The call of the callback that was found; `core` are the handlers of libscpi, and `undefined` what
  -- it does where no pattern matches.
  unfoldable pub answer : Option Callback → Locals → State C W → ScpiResult × State C W
  answer none l s = undefined s
  answer (some (library name)) l s = core name s
  answer (some (handler c)) l s = execute scpi os board version c l s

  unfoldable pub dispatch :
      (List ℕ → List ℕ → Bool) → List ℕ → Locals → State C W → ScpiResult × State C W
  unfolding answer
  dispatch matches header l s = answer (find_command matches header scpi_commands) l s

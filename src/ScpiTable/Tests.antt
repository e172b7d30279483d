-- ===== src/ScpiTable/Tests.antt =====
-- The theorem about scpi_tables.c with the parser of ScpiTable.Sim.
use rffe_uc_fw.Base.{◌≡◌, refl, some, none}
use rffe_uc_fw.Base.Text.{codes}
use rffe_uc_fw.Device.Sim.{sim}
use rffe_uc_fw.Commands.Addresses.{ip_addr}
use rffe_uc_fw.Commands.All.{set, address, execute}
use rffe_uc_fw.Commands.Sim.{parser, idle, locals, console, start, version}
use rffe_uc_fw.ScpiTable.{dispatch, find_command, scpi_commands, library}
use rffe_uc_fw.ScpiTable.Sim.{forms, core, unknown}
use rffe_uc_fw.ScpiTable.Scheme.{dispatch-execute}

dispatch-execute_example :
    dispatch parser sim idle version core unknown forms (codes "SET:IPA") locals (start console)
    ≡ execute parser sim idle version (set (address ip_addr)) locals (start console)
dispatch-execute_example =
    dispatch-execute parser sim idle version core unknown forms (codes "SET:IPA")
      (set (address ip_addr)) locals (start console) refl

-- The row of a handler of libscpi.
error_found :
    find_command forms (codes "SYST:ERR:COUN?") scpi_commands
    ≡ some (library "SCPI_SystemErrorCountQ")
error_found = refl

-- No row.
not_found : find_command forms (codes "SET:IP") scpi_commands ≡ none
not_found = refl

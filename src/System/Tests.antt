-- ===== src/System/Tests.antt =====
-- The theorems about the system with the parser of Commands.Sim, the floats of TempControl.Sim and a
-- memory behind every file, and a run.
use rffe_uc_fw.Base.{◌≡◌, refl, List, ℕ, [], ◌∷◌, false, ltb, bytes_of_word, pos, replicate, arith}
use rffe_uc_fw.Device.Sim.{Memory, sim, sim-IsDevice}
use rffe_uc_fw.Config.{manual, config_get_temp_control_mode, temp_mode_of_byte}
use rffe_uc_fw.Config.Pid.{ac, bd}
use rffe_uc_fw.PidCtrl.{float_zero}
use rffe_uc_fw.TempControl.{cfg_file, Control, Fds, initialised}
use rffe_uc_fw.TempControl.Sim.{value, numbers, blank, conversions, stack}
use rffe_uc_fw.Commands.All.{set, number, output, address, query_number, reset}
use rffe_uc_fw.Commands.Sim.{
  Console, say, float, parser, parser_sizes, idle, isolated, present, locals, locals_sized, console,
  version,
}
use rffe_uc_fw.System.{System, Event, client, server, seen, run}
use rffe_uc_fw.System.Messages.{Message, says, passes, take_messages, take_messages-last_set}
use rffe_uc_fw.ScpiTable.{dispatch}
use rffe_uc_fw.ScpiTable.Sim.{forms, core, unknown}
use rffe_uc_fw.Base.Text.{codes}
use rffe_uc_fw.System.Turns.{IsApart}
use rffe_uc_fw.System.Bank.{Bank, bank_run}
use rffe_uc_fw.System.Refine.{bank_of, run-refines}
use rffe_uc_fw.System.Sim.{two_files, two_files-IsDevice, two_files-IsPresent, two_files-IsBoard}
use rffe_uc_fw.Commands.Interface.{res_ok}
use rffe_uc_fw.Commands.Settings.{pid, ti, td, query_command}
use rffe_uc_fw.Commands.Addresses.{netmask}
use rffe_uc_fw.System.Voltages.{IsSafe, run-IsSafe}
use rffe_uc_fw.System.Passes.{whole_passes, at_start, set_output-written}

abbrev fds : Fds
fds = record { temp_ac_fd = pos 3; temp_bd_fd = pos 4; dac_fd = pos 5 }

abbrev plant : Control Memory
plant = record {
  pid_ac = initialised blank;
  pid_bd = initialised blank;
  temp = float_zero;
  tctrl = manual;
  dac_ac = float_zero;
  dac_bd = float_zero;
  world = record { bytes = replicate 256 7; at = 0; write_access = false };
}

-- A command before the first part of a pass and one after it.
abbrev events : List (Event Console)
events =
    client console (set (output ac)) locals
    ∷ server stack
    ∷ client console (set (output bd)) locals
    ∷ server stack
    ∷ server stack
    ∷ server stack
    ∷ []

-- A number not above 33 is not above the number that the bytes of the float 3.3 are.
below : (v : ℕ) → ltb 33 v ≡ false → ltb 0x40533333 (value (bytes_of_word v)) ≡ false
below v h = ground arith

run-IsSafe_example :
    IsSafe numbers (run parser sim idle version numbers conversions fds events (at_start plant []))
unfolding initialised
run-IsSafe_example =
    run-IsSafe parser sim idle version numbers conversions fds
      (record { max_self = refl; min_self = refl; in_order = refl }) below events
      (at_start plant []) (((refl, refl), (refl, refl), (refl, refl)), tt)

set_output-written_example :
    (run parser sim idle version numbers conversions fds
      (client console (set (output bd)) locals ∷ whole_passes (stack ∷ []))
      (at_start plant [])).written
    ≡ ((2, bytes_of_word 21) ∷ (3, float_zero) ∷ [])
unfolding config_get_temp_control_mode temp_mode_of_byte
set_output-written_example =
    set_output-written parser sim idle version numbers conversions fds (sim-IsDevice cfg_file)
      present isolated bd console console 21 locals stack plant refl refl refl refl (omega arith)

abbrev apart : IsApart two_files idle two_files-IsDevice fds
apart = record { reset-contents = λ w. refl; dac-contents = λ bs w. refl }

-- A number is set, another client reads it and sets the other constants of its channel, the board
-- is reset and the voltages are written; the last client asks for it.
abbrev others : List (Event Console)
others =
    server stack
    ∷ client console (query_number (pid bd ti)) locals
    ∷ client (record console { num = 5 }) (set (number (pid bd td))) locals
    ∷ server stack
    ∷ server stack
    ∷ client console (set (address netmask)) locals
    ∷ client console reset locals
    ∷ server stack
    ∷ []

abbrev all : List (Event Console)
all = client console (set (number (pid bd ti))) locals ∷ others

-- The bank that the FERAM makes.
abbrev bank : System Memory → Bank
bank =
    bank_of parser two_files idle version numbers conversions fds two_files-IsDevice
      two_files-IsPresent two_files-IsBoard parser_sizes apart

run-refines_example :
    let s' = run parser two_files idle version numbers conversions fds all (at_start plant []) in
    let (result, t) =
      query_command parser two_files idle
        (pid bd ti)
        locals
        (seen (record console { num = 0 }) s'.control) in
    let promised = bank_run parser two_files idle all (bank (at_start plant [])) in
    (bank s' ≡ promised)
    × (result ≡ res_ok)
    × (t.context ≡ say (float (promised (pid bd ti))) (record console { num = 0 }))
run-refines_example =
    run-refines parser two_files idle version numbers conversions fds two_files-IsDevice
      two_files-IsPresent two_files-IsBoard parser_sizes apart all (at_start plant []) (pid bd ti)
      (record console { num = 0 }) locals
      (locals_sized, (locals_sized, (locals_sized, (locals_sized, (locals_sized, tt)))))
      locals_sized (omega arith)

-- The same in messages: the derivative constant, an error query, a reset, and a header that no row
-- has.
abbrev messages : List (Message Console)
messages =
    passes stack
    ∷ says (record console { num = 5 }) (codes "SET:PID:Td:BD") locals
    ∷ passes stack
    ∷ says console (codes "SYST:ERR:COUN?") locals
    ∷ says console (codes "SYSTem:RESet") locals
    ∷ says console (codes "SET:PID:Ti") locals
    ∷ passes stack
    ∷ []

take_messages-last_set_example :
    let s' =
      take_messages parser two_files idle version core unknown forms numbers conversions fds
        (says console (codes "SET:PID:Ti:BD") locals ∷ messages)
        (at_start plant []) in
    let (result, t) =
      dispatch parser two_files idle version core unknown forms
        (codes "GET:PID:Ti:BD?")
        locals
        (seen (record console { num = 0 }) s'.control) in
    (result ≡ res_ok) × (t.context ≡ say (float (bytes_of_word 21)) (record console { num = 0 }))
take_messages-last_set_example =
    take_messages-last_set parser two_files idle version core unknown forms numbers conversions fds
      (record { core-world = λ name s. refl; undefined-world = λ s. refl }) two_files-IsDevice
      two_files-IsPresent two_files-IsBoard parser_sizes apart (pid bd ti) console console
      (record console { num = 0 }) 21 (codes "SET:PID:Ti:BD") (codes "GET:PID:Ti:BD?") locals locals
      messages (at_start plant []) refl refl refl locals_sized locals_sized
      (grind arith, locals_sized, (tt, locals_sized, (tt, locals_sized, (tt, locals_sized, tt))))
      (omega arith)

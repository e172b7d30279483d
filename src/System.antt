-- ===== src/System.antt =====
-- rffe-app/rffe_main.c, scpi_server.c, scpi_rffe_cmd.c and temp_control.c: the clients of the SCPI
-- server and the temperature control at once. They share the two voltages, `dac_ac` and `dac_bd` of
-- rffe_main, and the devices. A schedule is a list of events: a command of some client, or the next
-- part of a pass through the loop of the temperature control.
pub mod Voltages
pub mod Passes
pub mod Turns
pub mod Messages
pub mod Bank
pub mod Refine
pub mod Sim
mod Tests
use rffe_uc_fw.Base.{ℕ, List, [], ◌∷◌}
use rffe_uc_fw.Device.Os.{Os}
use rffe_uc_fw.PidCtrl.{Floats}
use rffe_uc_fw.Config.{config_get_temp_control_mode}
use rffe_uc_fw.TempControl.{cfg_file, Conversions, Fds, Control, Stack, write_dac_voltage, by_mode}
use rffe_uc_fw.Commands.Interface.{Scpi, Board, GitVersion, State}
use rffe_uc_fw.Commands.Settings.{Locals}
use rffe_uc_fw.Commands.All.{Command, execute}

-- What the temperature control does next: read the mode, compute the voltages if that is automatic,
-- and write the voltage of either channel.
pub data Turn : Type 0 where
  reads_mode computes writes_ac writes_bd : Turn

-- The two voltages and the devices are in `control`. `written` is ghost state: what was
-- written to the DAC so far, each voltage with its channel, the last one first.
pub record System (W : Type 0) : Type 0 where
  pub control : Control W
  pub turn : Turn
  pub written : List (ℕ × List ℕ)

-- A client brings the context of its connection.
pub data Event (C : Type 0) : Type 0 where
  client : C → Command → Locals → Event C
  server : Stack → Event C

-- What the handlers see of the system, and the system after a handler.
abbrev pub seen : {C W : Type 0} → C → Control W → State C W
seen context s = record { context = context; world = s.world; dac_ac = s.dac_ac; dac_bd = s.dac_bd }

abbrev pub left : {C W : Type 0} → State C W → Control W → Control W
left t s = record s { world = t.world; dac_ac = t.dac_ac; dac_bd = t.dac_bd }

module _ {C N W : Type 0} (scpi : Scpi C N) (os : Os W) (board : Board W) (version : GitVersion)
    (fl : Floats) (conv : Conversions) (fds : Fds) where
  -- A voltage is written to a channel of the DAC.
  unfoldable pub put_voltage : (channel : ℕ) (voltage : List ℕ) → Turn → System W → System W
  put_voltage channel voltage next s =
      let c = s.control in
      let (_, w1) = write_dac_voltage os fl conv fds.dac_fd channel voltage c.world in
      record {
        control = record c { world = w1 };
        turn = next;
        written = (channel, voltage) ∷ s.written;
      }

  -- The next part of a pass. The server goes round for ever.
  unfoldable pub server_turn : Turn → Stack → System W → System W
  unfolding put_voltage
  server_turn reads_mode st s =
      let (_, mode, w1) =
        config_get_temp_control_mode os cfg_file (st.ret 0) st.byte s.control.tctrl
          s.control.world in
      record s { control = record s.control { tctrl = mode; world = w1 }; turn = computes }
  server_turn computes st s = record s {
    control = by_mode os fl conv fds st s.control;
    turn = writes_ac;
  }
  server_turn writes_ac st s = put_voltage 3 s.control.dac_ac writes_bd s
  server_turn writes_bd st s = put_voltage 2 s.control.dac_bd reads_mode s

  unfoldable pub happen : Event C → System W → System W
  unfolding server_turn
  happen (client context c l) s =
      let (_, t) = execute scpi os board version c l (seen context s.control) in
      record s { control = left t s.control }
  happen (server st) s = server_turn s.turn st s

  unfoldable pub run : List (Event C) → System W → System W
  unfolding happen
  run [] s = s
  run (e ∷ rest) s = run rest (happen e s)

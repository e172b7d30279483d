-- ===== src/System/Turns.antt =====
-- temp_control.c: the parts of a pass and the FERAM, where the DAC is another file.
use rffe_uc_fw.Base.{ℕ, ◌≤◌, ◌≡◌, List, length, arith}
use rffe_uc_fw.Device.Os.{Os, IsDevice}
use rffe_uc_fw.Config.Transfers.{IsPresent, get_temp_mode-contents}
use rffe_uc_fw.Config.Fields.{record_size}
use rffe_uc_fw.PidCtrl.{Floats}
use rffe_uc_fw.TempControl.{Conversions, Fds, Stack, write_dac_voltage}
use rffe_uc_fw.TempControl.Reads.{by_mode-contents}
use rffe_uc_fw.Commands.Interface.{Scpi, Board, GitVersion}
use rffe_uc_fw.Commands.{cfg_file}
use rffe_uc_fw.Commands.Settings.{IsBoard}
use rffe_uc_fw.System.{
  Turn, reads_mode, computes, writes_ac, writes_bd, System, put_voltage, server_turn,
}

-- What the FERAM has to itself: neither a reset of the board nor a write to the DAC changes it.
pub record IsApart {W : Type 0} (os : Os W) (board : Board W) (dev : IsDevice os cfg_file)
    (fds : Fds) : Type 0 where
  pub reset-contents : (w : W) → dev.contents (board.board_reset w) ≡ dev.contents w
  pub dac-contents :
      (bs : List ℕ) (w : W) → dev.contents (os.write_file fds.dac_fd bs w).1 ≡ dev.contents w

module _ {C N W : Type 0} (scpi : Scpi C N) (os : Os W) (board : Board W) (version : GitVersion)
    (fl : Floats) (conv : Conversions) (fds : Fds) (dev : IsDevice os cfg_file)
    (present : IsPresent os cfg_file) (isolated : IsBoard os board dev)
    (apart : IsApart os board dev fds) where
  open dev use {contents}

  abbrev feram : System W → List ℕ
  feram s = contents s.control.world

  pub server_turn-feram :
      (t : Turn) (st : Stack) (s : System W)
      → record_size ≤ length (feram s)
      → feram (server_turn scpi os board version fl conv fds t st s) ≡ feram s
  unfolding server_turn put_voltage write_dac_voltage
  server_turn-feram reads_mode st s h =
      get_temp_mode-contents os cfg_file dev present (st.ret 0) st.byte s.control.tctrl
        s.control.world (omega arith)
  server_turn-feram computes st s h =
      by_mode-contents os fl conv dev present isolated.read_any fds st s.control h
  server_turn-feram writes_ac st s h = apart.dac-contents _ s.control.world
  server_turn-feram writes_bd st s h = apart.dac-contents _ s.control.world

-- ===== src/System/Voltages.antt =====
-- temp_control.c and scpi_rffe_cmd.c: the limit of the voltages, for any order of events.
use rffe_uc_fw.Base.{ℕ, ◌≡◌, false, List, [], ◌∷◌}
use rffe_uc_fw.Device.Os.{Os}
use rffe_uc_fw.PidCtrl.{Floats, float_zero}
use rffe_uc_fw.PidCtrl.Bounds.{AreLimits}
use rffe_uc_fw.TempControl.{max_volts, Conversions, Fds, Stack}
use rffe_uc_fw.TempControl.Limits.{IsGood, by_mode-IsGood}
use rffe_uc_fw.Commands.Interface.{Scpi, Board, GitVersion}
use rffe_uc_fw.Commands.Limits.{HoldsBelow, execute-HoldBoth}
use rffe_uc_fw.System.{
  Turn, reads_mode, computes, writes_ac, writes_bd, System, Event, client, server, seen,
  put_voltage, server_turn, happen, run,
}

module _ (fl : Floats) where
  -- Not above the float 3.3.
  abbrev pub IsBelow : List ℕ → Type 0
  IsBelow x = fl.is_below max_volts x ≡ false

  abbrev pub AllBelow : List (ℕ × List ℕ) → Type 0
  AllBelow [] = Unit {0}
  AllBelow ((channel, x) ∷ xs) = IsBelow x × AllBelow xs

  abbrev pub IsSafe : {W : Type 0} → System W → Type 0
  IsSafe s = IsGood fl IsBelow s.control × AllBelow s.written

module _ {C N W : Type 0} (scpi : Scpi C N) (os : Os W) (board : Board W) (version : GitVersion)
    (fl : Floats) (conv : Conversions) (fds : Fds) (lim : AreLimits fl float_zero max_volts)
    (cast : HoldsBelow scpi os board version (IsBelow fl)) where
  server_turn-IsSafe :
      (t : Turn) (st : Stack) (s : System W)
      → IsSafe fl s
      → IsSafe fl (server_turn scpi os board version fl conv fds t st s)
  unfolding server_turn put_voltage
  server_turn-IsSafe reads_mode st s safe = safe
  server_turn-IsSafe computes st s (good, past) =
      (by_mode-IsGood os fl conv lim (IsBelow fl) fds st s.control (λ x h. h.0) good, past)
  server_turn-IsSafe writes_ac st s (good, past) = (good, (good.2.0, past))
  server_turn-IsSafe writes_bd st s (good, past) = (good, (good.2.1, past))

  happen-IsSafe :
      (e : Event C) (s : System W)
      → IsSafe fl s
      → IsSafe fl (happen scpi os board version fl conv fds e s)
  unfolding happen
  happen-IsSafe (client context c l) s ((ac, bd, below), past) =
      let seen_state = seen context s.control in
      let both = execute-HoldBoth scpi os board version (IsBelow fl) c l seen_state cast below in
      ((ac, bd, both), past)
  happen-IsSafe (server st) s safe = server_turn-IsSafe s.turn st s safe

  -- Whatever commands the clients send and in whatever order they come between the parts of the
  -- passes of the temperature control, no voltage above 3.3 is ever written to the DAC or kept, if
  -- none is kept at first, the controllers have their limits, 0 and 3.3 are floats in order, and
  -- the float of a double not above 3.3 is not above the float 3.3.
  pub run-IsSafe :
      (es : List (Event C)) (s : System W)
      → IsSafe fl s
      → IsSafe fl (run scpi os board version fl conv fds es s)
  unfolding run
  run-IsSafe [] s safe = safe
  run-IsSafe (e ∷ rest) s safe =
      run-IsSafe rest (happen scpi os board version fl conv fds e s) (happen-IsSafe e s safe)

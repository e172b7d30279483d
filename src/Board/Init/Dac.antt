-- ===== src/Board/Init/Dac.antt =====
-- lpc17_40_dac.c: any number of calls of dac_devinit.
use rffe_uc_fw.Base.{ℕ, ◌+◌, ◌≡◌, Bool, List, [], ◌∷◌, ℤ, is_neg, if◌then◌else◌, arith}
use rffe_uc_fw.Board.Init.{DacInit, dac_devinit}

abbrev pub dac_devinits : List (Bool × ℤ) → DacInit → DacInit
dac_devinits [] s = s
dac_devinits ((found, ret) ∷ cs) s = dac_devinits cs (dac_devinit found ret s).1

-- The registrations that succeeded.
abbrev pub count_ok : List ℤ → ℕ
count_ok [] = 0
count_ok (r ∷ rs) = if is_neg r then count_ok rs else count_ok rs + 1

abbrev pub IsOnce : DacInit → Type 0
IsOnce s = count_ok s.results ≡ (if s.initialized then 1 else 0)

dac_devinit-IsOnce :
    (found : Bool) (ret : ℤ) (s : DacInit) → IsOnce s → IsOnce (dac_devinit found ret s).1
unfolding dac_devinit
dac_devinit-IsOnce found ret s ok = ground arith

-- In any sequence of calls of dac_devinit the converter is registered once at most, and exactly once
-- if it is marked as initialised.
dac_devinits-IsOnce : (cs : List (Bool × ℤ)) (s : DacInit) → IsOnce s → IsOnce (dac_devinits cs s)
dac_devinits-IsOnce [] s ok = ok
dac_devinits-IsOnce ((found, ret) ∷ cs) s ok =
    dac_devinits-IsOnce cs (dac_devinit found ret s).1 (dac_devinit-IsOnce found ret s ok)

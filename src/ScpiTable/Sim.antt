-- ===== src/ScpiTable/Sim.antt =====
-- A parser that takes the long and the short form of a pattern, and handlers of libscpi that do
-- nothing, for the examples.
use rffe_uc_fw.Base.{ℕ, String, Bool, List, [], ◌∷◌, ◌&&◌, ◌||◌, leb, if◌then◌else◌}
use rffe_uc_fw.Base.Text.{same_text}
use rffe_uc_fw.Device.Sim.{Memory}
use rffe_uc_fw.Commands.Interface.{State, ScpiResult, res_ok, res_err}
use rffe_uc_fw.Commands.Sim.{Console}

-- Without the small letters.
abbrev short : List ℕ → List ℕ
short [] = []
short (c ∷ cs) = if leb 97 c && leb c 122 then short cs else c ∷ short cs

abbrev pub forms : List ℕ → List ℕ → Bool
forms pattern header = same_text pattern header || same_text (short pattern) header

abbrev pub core : String → State Console Memory → ScpiResult × State Console Memory
core name s = (res_ok, s)

abbrev pub unknown : State Console Memory → ScpiResult × State Console Memory
unknown s = (res_err, s)

-- ===== src/Console/Tests.antt =====
-- The theorems about rffe_console_cfg.c with a small C library, a memory for the FERAM and the
-- parser of Commands.Sim, and runs of the command.
use rffe_uc_fw.Base.{ℕ, ◌≡◌, ◌++◌, refl, List, [], ◌∷◌, pos, negsuc, arith}
use rffe_uc_fw.Base.Text.{codes}
use rffe_uc_fw.Device.Sim.{Memory, sim, sim-IsDevice}
use rffe_uc_fw.Commands.Sim.{parser, idle, isolated, present, locals, console, start, version}
use rffe_uc_fw.Commands.Addresses.{gateway_addr}
use rffe_uc_fw.Commands.All.{address, execute_set}
use rffe_uc_fw.Console.{returned, null_pointer, Line, cfg_file, store_words, rffe_console_cfg}
use rffe_uc_fw.Console.Agree.{address_text, console_agrees}
use rffe_uc_fw.Console.Mac.{six, mac_read_back}
use rffe_uc_fw.Console.Reads.{IsKept, get-IsKept}
use rffe_uc_fw.Console.Sim.{library, stack}

abbrev text : List ℕ
text = 10 ∷ 0 ∷ 0 ∷ 7 ∷ []

abbrev world : Memory
world = (start console).world

abbrev rffe : List ℕ
rffe = codes "rffe"

console_agrees_example :
    rffe_console_cfg library sim idle version
      (rffe ∷ codes "set" ∷ codes "gateway" ∷ text ∷ [])
      stack
      world
    ≡ returned
        (pos 0)
        []
        (execute_set parser sim idle version (address gateway_addr) locals (start console)).1.world
console_agrees_example =
    console_agrees parser library sim idle version stack locals (start console) (codes "gateway")
      text rffe (address gateway_addr) [] refl (address_text gateway_addr refl refl)

mac_read_back_example :
    (w1 : Memory) × (w2 : Memory) × (rffe_console_cfg library sim idle version
        (rffe ∷ codes "set" ∷ codes "mac" ∷ text ∷ [])
        stack
        world
      ≡ returned (pos 0) [] w1)
    × (rffe_console_cfg library sim idle version (rffe ∷ codes "get" ∷ codes "mac" ∷ []) stack w1
        ≡ returned (pos 0) (Line.mac (1 ∷ 2 ∷ 3 ∷ 4 ∷ 5 ∷ 44 ∷ []) ∷ []) w2)
    × (store_words (stack.mac ++ stack.behind) 0 (six 1 2 3 4 5 300)
        ≡ 1 ∷ 2 ∷ 3 ∷ 4 ∷ 5 ∷ 44 ∷ 1 ∷ 0 ∷ 0 ∷ [])
mac_read_back_example =
    mac_read_back library sim idle version (sim-IsDevice cfg_file) present stack stack world text
      rffe [] 1 2 3 4 5 300 refl refl refl refl (omega arith)

get-IsKept_example :
    IsKept library sim idle version (sim-IsDevice cfg_file) present isolated world (
      rffe_console_cfg library sim idle version
        (rffe ∷ codes "get" ∷ codes "temp_ac" ∷ [])
        stack
        world)
get-IsKept_example =
    get-IsKept library sim idle version (sim-IsDevice cfg_file) present isolated rffe
      (codes "temp_ac") [] stack world (omega arith)

-- A setting without its value.
missing_value :
    rffe_console_cfg library sim idle version (rffe ∷ codes "set" ∷ codes "ip" ∷ []) stack world
    ≡ null_pointer
unfolding rffe_console_cfg
missing_value = refl

unknown_command :
    rffe_console_cfg library sim idle version (rffe ∷ codes "put" ∷ codes "ip" ∷ []) stack world
    ≡ returned (negsuc 0) (Line.invalid_command (codes "put") ∷ []) world
unfolding rffe_console_cfg
unknown_command = refl

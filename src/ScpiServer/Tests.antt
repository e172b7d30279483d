-- ===== src/ScpiServer/Tests.antt =====
-- The theorems about scpi_server.c at short schedules.
use rffe_uc_fw.Base.{
  ℕ, ℤ, ◌+◌, Bool, true, false, negsuc, ◌==◌, ◌≡◌, refl, List, [], ◌∷◌, ◌++◌, pos, ◌+ℤ◌,
}
use rffe_uc_fw.ScpiServer.{
  client, thread, serving, accept, access, set_leds, advance, light, step, run, idle,
}
use rffe_uc_fw.ScpiServer.Locked.{
  Turn, arrives, changes, schedule_of, IsCounted, run_locked-IsCounted,
}
use rffe_uc_fw.ScpiServer.Sockets
use rffe_uc_fw.ScpiServer.Sockets.{
  Libscpi, Sockets, writes, closes, bytes, ended, accepts, receives, serve, serve_at,
}
use rffe_uc_fw.ScpiServer.Sockets.Balance.{
  count_open, count_closed, count_lost, count_accepted, run-balanced,
}
use rffe_uc_fw.ScpiServer.Races.{overlaps, clients_refused}

abbrev turns : List Turn
turns = arrives ∷ changes 0 ∷ changes 0 ∷ arrives ∷ changes 0 ∷ changes 1 ∷ changes 0 ∷ []

run_locked-IsCounted_example : IsCounted (run (schedule_of turns) idle)
run_locked-IsCounted_example = run_locked-IsCounted turns

clients_refused_example :
    run (overlaps 4 ++ (client ∷ thread 0 ∷ client ∷ [])) idle
    ≡ record { active_threads = pos 4; status_leds = 2; threads = [] }
clients_refused_example = clients_refused (client ∷ thread 0 ∷ client ∷ [])

-- A client is served with the LEDs out: it lit them, the other one left, and then it was counted.
served_dark :
    run (schedule_of turns) idle
    ≡ record { active_threads = pos 1; status_leds = 0; threads = serving ∷ [] }
unfolding run step accept access set_leds advance light ◌+ℤ◌
served_dark = refl

-- A library that answers each text with itself, and counts the texts.
abbrev echo : Libscpi ℕ ℕ
echo = record { scpi_init = 0; scpi_input = λ text c w. (c + 1, w + 1, text ∷ []) }

abbrev nothing : Sockets ℕ ℕ
nothing = record { clients = []; world = 0; calls = [] }

abbrev session : List Sockets.Event
session =
    accepts (pos 5) true true
    ∷ receives 0 (bytes (42 ∷ []))
    ∷ accepts (pos 6) false true
    ∷ receives 0 ended
    ∷ accepts (pos 5) true true
    ∷ accepts (pos 5) true false
    ∷ []

abbrev is_five : ℤ → Bool
is_five (pos n) = n == 5
is_five (negsuc n) = false

run-balanced_example :
    count_open is_five (Sockets.run echo session nothing).clients
      + count_closed is_five (Sockets.run echo session nothing).calls
      + count_lost is_five session
    ≡ count_accepted is_five session + 0
run-balanced_example = run-balanced is_five echo session nothing

session_calls :
    (Sockets.run echo session nothing).calls
    ≡ writes (pos 5) (42 ∷ []) ∷ closes (pos 6) ∷ closes (pos 5) ∷ []
unfolding Sockets.run Sockets.step serve_at serve
session_calls = refl

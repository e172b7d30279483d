-- ===== src/ScpiServer/Races.antt =====
-- scpi_server.c: the count in schedules of the code as it is.
use rffe_uc_fw.Base.{
  ℕ, zero, suc, ◌+◌, ◌≡◌, refl, ap, ◌∙◌, List, [], ◌∷◌, ◌++◌, pos, ◌+ℤ◌, length, replicate, arith,
}
use rffe_uc_fw.ScpiServer.{
  Phase, created, Server, Event, client, thread, lights, accept, access, set_leds, advance, light,
  step, run, idle,
}

-- Clients that arrive while the count is still 0 are all accepted.
arrivals :
    (n : ℕ) (ts : List Phase)
    → let s = run (replicate n client) (record idle { threads = ts }) in
      (s.active_threads ≡ pos 0) × (length s.threads ≡ n + length ts)
unfolding run step accept
arrivals zero ts = (refl, omega arith)
arrivals (suc n) ts = let (a, len) = arrivals n (created ∷ ts) in (a, len ∙ omega arith)

-- Two clients leave at a time: both load the count before one stores it.
abbrev pub overlap : List Event
overlap =
    client
    ∷ client
    ∷ lights 0
    ∷ thread 0
    ∷ thread 0
    ∷ lights 1
    ∷ thread 1
    ∷ thread 1
    ∷ thread 0
    ∷ thread 1
    ∷ thread 0
    ∷ thread 1
    ∷ lights 1
    ∷ lights 0
    ∷ []

abbrev pub overlaps : ℕ → List Event
overlaps zero = []
overlaps (suc n) = overlap ++ overlaps n

run-append : (xs ys : List Event) (s : Server) → run (xs ++ ys) s ≡ run ys (run xs s)
unfolding run
run-append [] ys s = refl
run-append (x ∷ xs) ys s = run-append xs ys (step x s)

-- The count that stands at 4 with no thread left refuses every client, and the LEDs stay lit.
abbrev stuck : Server
stuck = record { active_threads = pos 4; status_leds = 2; threads = [] }

four_overlaps : run (overlaps 4) idle ≡ stuck
unfolding run step accept access set_leds advance light ◌+ℤ◌
four_overlaps = refl

stuck-run : (es : List Event) → run es stuck ≡ stuck
unfolding run step accept access set_leds advance light
stuck-run [] = refl
stuck-run (client ∷ es) = stuck-run es
stuck-run (thread zero ∷ es) = stuck-run es
stuck-run (thread (suc i) ∷ es) = stuck-run es
stuck-run (lights zero ∷ es) = stuck-run es
stuck-run (lights (suc i) ∷ es) = stuck-run es

-- Any number of clients can be served at a time: as many as arrive before the first thread begins.
clients_unbounded : (n : ℕ) → length (run (replicate n client) idle).threads ≡ n
clients_unbounded n = (arrivals n []).1 ∙ omega arith

-- After four times that two clients leave at a time no thread is left, and whatever happens then,
-- no client is served again, and the LEDs show one.
pub clients_refused :
    (es : List Event)
    → run (overlaps 4 ++ es) idle ≡ record { active_threads = pos 4; status_leds = 2; threads = [] }
clients_refused es = run-append (overlaps 4) es idle ∙ ap (run es) four_overlaps ∙ stuck-run es

-- ===== src/ScpiServer.antt =====
-- rffe-app/scpi_server.c: the count of clients, `active_threads`, which the accepting thread tests
-- and the threads of the clients change, and the status LEDs, which those threads set.
-- `counter_lock` is a local of each thread, so a lock of it excludes no other thread, and a change of
-- the count is a load and a store with other threads in between. A schedule says whose access is
-- next. The test after `--` is of the number that the thread stored.
pub mod Locked
pub mod Races
pub mod Sockets
mod Tests
use rffe_uc_fw.Base.{
  ℕ, zero, suc, Bool, List, [], ◌∷◌, ℤ, pos, negsuc, ◌+ℤ◌, true, ltb, if◌then◌else◌,
}

-- Where a client's thread is: not begun; after the LEDs were lit; after the load for `++`, with what
-- it loaded; in its loop; after the load for `--`; after its store, with what it stored.
pub data Phase : Type 0 where
  created : Phase
  lit : Phase
  starting : ℤ → Phase
  serving : Phase
  ending : ℤ → Phase
  leaving : ℤ → Phase

-- `status_leds` is what ULEDIOC_SETALL stored last.
pub record Server : Type 0 where
  pub active_threads : ℤ
  pub status_leds : ℕ
  pub threads : List Phase

-- `active_threads < 4`
abbrev pub has_room : ℤ → Bool
has_room (pos n) = ltb n 4
has_room (negsuc n) = true

-- `*active_threads < 1`
abbrev pub has_none : ℤ → Bool
has_none (pos n) = ltb n 1
has_none (negsuc n) = true

pub data Event : Type 0 where
  -- accept returned: a thread is made, or the socket closed. A client for whom pthread_create makes
  -- no thread changes nothing here, and is no event.
  client : Event
  -- The thread at this place of the list makes its next access to the count, where that is what it
  -- does next.
  thread : ℕ → Event
  -- The thread at this place passes the point where it sets the LEDs, where that is what it does
  -- next.
  lights : ℕ → Event

pub accept : Server → Server
accept s = if has_room s.active_threads then record s { threads = created ∷ s.threads } else s

-- The next access of a thread to the count.
pub access : ℕ → ℤ → List Phase → ℤ × List Phase
access i a [] = (a, [])
access zero a (created ∷ ts) = (a, created ∷ ts)
access zero a (lit ∷ ts) = (a, starting a ∷ ts)
access zero a (starting n ∷ ts) = (n +ℤ pos 1, serving ∷ ts)
access zero a (serving ∷ ts) = (a, ending a ∷ ts)
access zero a (ending n ∷ ts) = (n +ℤ negsuc 0, leaving (n +ℤ negsuc 0) ∷ ts)
access zero a (leaving n ∷ ts) = (a, leaving n ∷ ts)
access (suc i) a (t ∷ ts) = let (a', ts') = access i a ts in (a', t ∷ ts')

-- The LEDs are lit at the begin of a thread, and put out at its end if it counted no other client.
pub set_leds : ℕ → ℕ → List Phase → ℕ × List Phase
set_leds i l [] = (l, [])
set_leds zero l (created ∷ ts) = (2, lit ∷ ts)
set_leds zero l (lit ∷ ts) = (l, lit ∷ ts)
set_leds zero l (starting n ∷ ts) = (l, starting n ∷ ts)
set_leds zero l (serving ∷ ts) = (l, serving ∷ ts)
set_leds zero l (ending n ∷ ts) = (l, ending n ∷ ts)
set_leds zero l (leaving n ∷ ts) = (if has_none n then 0 else l, ts)
set_leds (suc i) l (t ∷ ts) = let (l', ts') = set_leds i l ts in (l', t ∷ ts')

pub advance : ℕ → Server → Server
unfolding access
advance i s =
    let (a, ts) = access i s.active_threads s.threads in
    record s { active_threads = a; threads = ts }

pub light : ℕ → Server → Server
unfolding set_leds
light i s =
    let (l, ts) = set_leds i s.status_leds s.threads in record s { status_leds = l; threads = ts }

pub step : Event → Server → Server
unfolding accept advance light
step client s = accept s
step (thread i) s = advance i s
step (lights i) s = light i s

pub run : List Event → Server → Server
unfolding step
run [] s = s
run (e ∷ es) s = run es (step e s)

-- The state in which the server begins.
abbrev pub idle : Server
idle = record { active_threads = pos 0; status_leds = 0; threads = [] }

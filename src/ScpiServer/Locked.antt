-- ===== src/ScpiServer/Locked.antt =====
-- scpi_server.c: the count and the LEDs in schedules in which the lock does what it is meant to do.
use rffe_uc_fw.Base.{
  ℕ, zero, suc, ◌+◌, ◌≤◌, ◌≡◌, refl, ap, ◌∙◌, inl, inr, List, [], ◌∷◌, ℤ, pos, negsuc, ◌+ℤ◌,
  Bool-cases, ltb, if◌then◌else◌, ◌⊎◌, arith,
}
use rffe_uc_fw.ScpiServer.{
  Phase, created, lit, starting, serving, ending, leaving, Server, has_room, has_none, Event,
  client, thread, lights, accept, access, set_leds, advance, light, step, run, idle,
}

-- One thread's part that the lock would keep together: a load, its store, and the LEDs.
pub data Turn : Type 0 where
  arrives : Turn
  changes : ℕ → Turn

abbrev pub schedule_of : List Turn → List Event
schedule_of [] = []
schedule_of (arrives ∷ rest) = client ∷ schedule_of rest
schedule_of (changes i ∷ rest) = thread i ∷ thread i ∷ lights i ∷ schedule_of rest

-- The threads in their loops.
abbrev pub count_serving : List Phase → ℕ
count_serving [] = 0
count_serving (serving ∷ ts) = 1 + count_serving ts
count_serving (_ ∷ ts) = count_serving ts

-- The threads that have lit the LEDs and are not counted yet.
abbrev pub count_lit : List Phase → ℕ
count_lit [] = 0
count_lit (lit ∷ ts) = 1 + count_lit ts
count_lit (_ ∷ ts) = count_lit ts

-- No thread is within a change.
abbrev AreSettled : List Phase → Type 0
AreSettled [] = Unit {0}
AreSettled (created ∷ ts) = AreSettled ts
AreSettled (lit ∷ ts) = AreSettled ts
AreSettled (serving ∷ ts) = AreSettled ts
AreSettled (starting n ∷ ts) = ⊥
AreSettled (ending n ∷ ts) = ⊥
AreSettled (leaving n ∷ ts) = ⊥

-- The LEDs are out, or one of this number of threads has lit them.
abbrev IsLitBy : ℕ → ℕ → Type 0
IsLitBy l n = (l ≡ 0) ⊎ (1 ≤ n)

pos-pred : (n : ℕ) → pos (suc n) +ℤ negsuc 0 ≡ pos n
unfolding ◌+ℤ◌
pos-pred n = ground arith

pos-suc : (n : ℕ) → pos n +ℤ pos 1 ≡ pos (suc n)
unfolding ◌+ℤ◌
pos-suc n = ground arith

IsLitBy-≤ : {l n n' : ℕ} → n ≤ n' → IsLitBy l n → IsLitBy l n'
IsLitBy-≤ le (inl out) = inl out
IsLitBy-≤ le (inr some_lit) = inr (omega arith)

-- The last of the serving threads puts the LEDs out.
left_lem : (l k n : ℕ) → n ≤ k → IsLitBy (if has_none (pos n) then 0 else l) k
left_lem l k n le = elim (Bool-cases (ltb n 1)) [
  | inl none ↦ inl (rw none refl)
  | inr other ↦ inr (ground arith)
]

abbrev turn : ℕ → ℤ → ℕ → List Phase → (ℤ × ℕ) × List Phase
turn i a l ts =
    let (a1, ts1) = access i a ts in
    let (a2, ts2) = access i a1 ts1 in let (l', ts') = set_leds i l ts2 in ((a2, l'), ts')

-- `m` are the serving and `k` the lit threads before these in the list.
abbrev AreKept : ℕ → ℕ → (ℤ × ℕ) × List Phase → Type 0
AreKept m k ((a, l), ts) =
    AreSettled ts
    × (a ≡ pos (m + count_serving ts))
    × IsLitBy l ((m + count_serving ts) + (k + count_lit ts))

turn_lem :
    (i m k l : ℕ) (ts : List Phase)
    → AreKept m k ((pos (m + count_serving ts), l), ts)
    → AreKept m k (turn i (pos (m + count_serving ts)) l ts)
unfolding access set_leds
turn_lem i m k l [] kept = kept
turn_lem zero m k l (created ∷ ts) (ok, e, leds) = (ok, refl, inr (omega arith))
turn_lem zero m k l (lit ∷ ts) (ok, e, leds) =
    (ok, pos-suc (m + count_serving ts) ∙ ap pos (omega arith), IsLitBy-≤ (omega arith) leds)
turn_lem zero m k l (serving ∷ ts) (ok, e, leds) =
    let e' : m + (1 + count_serving ts) ≡ suc (m + count_serving ts) = omega arith in
    rw (e', pos-pred (m + count_serving ts))
      (ok, refl, left_lem l _ (m + count_serving ts) (omega arith))
turn_lem (suc i) m k l (created ∷ ts) kept = turn_lem i m k l ts kept
turn_lem (suc i) m k l (lit ∷ ts) (ok, e, leds) =
    let (ok', e', leds') = turn_lem i m (suc k) l ts (ok, e, IsLitBy-≤ (omega arith) leds) in
    (ok', e', IsLitBy-≤ (omega arith) leds')
turn_lem (suc i) m k l (serving ∷ ts) (ok, e, leds) =
    let e1 : m + (1 + count_serving ts) ≡ suc m + count_serving ts = omega arith in
    let (ok', e', leds') = turn_lem i (suc m) k l ts (ok, refl, IsLitBy-≤ (omega arith) leds) in
    rw e1 (ok', e' ∙ ap pos (omega arith), IsLitBy-≤ (omega arith) leds')
turn_lem i m k l (starting n ∷ ts) (ok, _, _) = elim ok [ ]
turn_lem i m k l (ending n ∷ ts) (ok, _, _) = elim ok [ ]
turn_lem i m k l (leaving n ∷ ts) (ok, _, _) = elim ok [ ]

-- The count is the number of serving threads, and the LEDs are out or a thread has lit them that has
-- not left.
abbrev pub IsCounted : Server → Type 0
IsCounted s =
    (s.active_threads ≡ pos (count_serving s.threads))
    × IsLitBy s.status_leds (count_serving s.threads + count_lit s.threads)

-- The state between two turns.
abbrev IsGood : Server → Type 0
IsGood s = AreKept 0 0 ((s.active_threads, s.status_leds), s.threads)

accept-IsGood : (s : Server) → IsGood s → IsGood (accept s)
unfolding accept
accept-IsGood s good = elim (Bool-cases (has_room s.active_threads)) [
  | inl room ↦ rw (room, AreSettled) good
  | inr full ↦ rw (full, AreSettled) good
]

abbrev take_turn : ℕ → Server → Server
take_turn i s = light i (advance i (advance i s))

turn-IsGood : (i : ℕ) (s : Server) → IsGood s → IsGood (take_turn i s)
unfolding advance light
turn-IsGood i s (ok, e, leds) = rw e (turn_lem i 0 0 s.status_leds s.threads (ok, refl, leds))

run-IsGood : (turns : List Turn) (s : Server) → IsGood s → IsGood (run (schedule_of turns) s)
unfolding run step
run-IsGood [] s good = good
run-IsGood (arrives ∷ rest) s good = run-IsGood rest (accept s) (accept-IsGood s good)
run-IsGood (changes i ∷ rest) s good = run-IsGood rest (take_turn i s) (turn-IsGood i s good)

-- If every load of the count is followed at once by its store, and at the end of a thread by what it
-- does to the LEDs, as under a lock that the threads share, then in any schedule the count is the
-- number of threads in their loops, and the LEDs are out or a thread lit them that has not left.
pub run_locked-IsCounted : (turns : List Turn) → IsCounted (run (schedule_of turns) idle)
run_locked-IsCounted turns =
    let (_, e, leds) = run-IsGood turns idle (tt, refl, inl refl) in
    (e ∙ ap pos (omega arith), IsLitBy-≤ (omega arith) leds)

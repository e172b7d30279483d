-- ===== src/ScpiServer/Sockets/Balance.antt =====
-- scpi_server.c: each socket of a client is closed once.
use rffe_uc_fw.Base.{
  ℕ, zero, suc, ◌+◌, ◌≡◌, refl, ap, ◌∙◌, Bool, true, false, List, [], ◌∷◌, ◌++◌, map, ℤ,
  if◌then◌else◌, arith,
}
use rffe_uc_fw.ScpiServer.Sockets.{
  Libscpi, Client, Call, writes, closes, Sockets, Received, bytes, ended, Event, accepts, receives,
  scpi_write, serve, serve_at, step, run,
}

-- The sockets with some quality that accept returned, that were closed, and that are open.
module _ (has : ℤ → Bool) where
  abbrev pub one : ℤ → ℕ
  one fd = if has fd then 1 else 0

  abbrev pub count_accepted : List Event → ℕ
  count_accepted [] = 0
  count_accepted (accepts fd room made ∷ es) = one fd + count_accepted es
  count_accepted (receives i r ∷ es) = count_accepted es

  -- Those that found room but got no thread.
  abbrev pub count_lost : List Event → ℕ
  count_lost [] = 0
  count_lost (accepts fd true false ∷ es) = one fd + count_lost es
  count_lost (_ ∷ es) = count_lost es

  abbrev pub count_closed : List Call → ℕ
  count_closed [] = 0
  count_closed (closes fd ∷ cs) = one fd + count_closed cs
  count_closed (writes fd text ∷ cs) = count_closed cs

  abbrev pub count_open : {P : Type 0} → List (Client P) → ℕ
  count_open [] = 0
  count_open (u ∷ us) = one u.sockfd + count_open us

  count_closed-append :
      (xs ys : List Call) → count_closed (xs ++ ys) ≡ count_closed xs + count_closed ys
  count_closed-append [] ys = omega arith
  count_closed-append (closes fd ∷ xs) ys =
      ap (λ n. one fd + n) (count_closed-append xs ys) ∙ omega arith
  count_closed-append (writes fd text ∷ xs) ys = count_closed-append xs ys

  count_closed-writes :
      {P : Type 0} (u : Client P) (texts : List (List ℕ))
      → count_closed (map (scpi_write u) texts) ≡ 0
  count_closed-writes u [] = refl
  count_closed-writes u (t ∷ ts) = count_closed-writes u ts

  module _ {P W : Type 0} (lib : Libscpi P W) where
    serve_at-balanced :
        (i : ℕ) (r : Received) (us : List (Client P)) (w : W)
        → let (us', _, calls) = serve_at lib i r us w in
          count_open us' + count_closed calls ≡ count_open us
    unfolding serve_at serve
    serve_at-balanced i r [] w = refl
    serve_at-balanced zero (bytes text) (u ∷ us) w =
        ap (λ n. (one u.sockfd + count_open us) + n)
          (count_closed-writes u (lib.scpi_input text u.context w).2)
        ∙ omega arith
    serve_at-balanced zero ended (u ∷ us) w = omega arith
    serve_at-balanced (suc i) r (u ∷ us) w = let rest = serve_at-balanced i r us w in omega arith

    step-balanced :
        (e : Event) (s : Sockets P W)
        → count_open (step lib e s).clients
            + count_closed (step lib e s).calls
            + count_lost (e ∷ [])
          ≡ count_accepted (e ∷ []) + (count_open s.clients + count_closed s.calls)
    unfolding step
    step-balanced (accepts fd true true) s = omega arith
    step-balanced (accepts fd true false) s = omega arith
    step-balanced (accepts fd false made) s =
        omega (arith, count_closed-append s.calls (closes fd ∷ []))
    step-balanced (receives i r) s = omega (
      arith,
      count_closed-append s.calls (serve_at lib i r s.clients s.world).2,
      serve_at-balanced i r s.clients s.world,
    )

    count_lost-cons :
        (e : Event) (es : List Event) → count_lost (e ∷ es) ≡ count_lost (e ∷ []) + count_lost es
    count_lost-cons (accepts fd true true) es = omega arith
    count_lost-cons (accepts fd true false) es = omega arith
    count_lost-cons (accepts fd false made) es = omega arith
    count_lost-cons (receives i r) es = omega arith

    count_accepted-cons :
        (e : Event) (es : List Event)
        → count_accepted (e ∷ es) ≡ count_accepted (e ∷ []) + count_accepted es
    count_accepted-cons (accepts fd room made) es = omega arith
    count_accepted-cons (receives i r) es = omega arith

    -- In any schedule, whatever libscpi does and whatever the clients send, each socket that accept
    -- returned has been closed once, is still open with its thread, or is lost, because it found room
    -- but pthread_create made no thread for it: of the sockets with any quality as many were accepted
    -- as were closed, are open or are lost.
    pub run-balanced :
        (es : List Event) (s : Sockets P W)
        → count_open (run lib es s).clients + count_closed (run lib es s).calls + count_lost es
          ≡ count_accepted es + (count_open s.clients + count_closed s.calls)
    unfolding run
    run-balanced [] s = omega arith
    run-balanced (e ∷ es) s = omega (
      arith,
      run-balanced es (step lib e s),
      step-balanced e s,
      count_lost-cons e es,
      count_accepted-cons e es,
    )

-- ===== src/Startup/Threads.antt =====
-- rffe_main.c and scpi_server.c: which threads the firmware starts and what they are given.
use rffe_uc_fw.Base.{
  ℕ, ◌≡◌, refl, ap, ◌∙◌, inl, inr, List, [], ◌∷◌, ◌++◌, ℤ, pos, is_neg, if◌then◌else◌, Option, none,
  some, Bool-cases, arith,
}
use rffe_uc_fw.ScpiServer.{has_room}
use rffe_uc_fw.ScpiServer.Sockets.{listening}
use rffe_uc_fw.Startup.Servers.{
  Routine, runs_temp_control, runs_fw_update, runs_client, Argument, null, dac_write_back,
  user_data, Call, create, closes, Accept, start_temp_control_server, start_fw_update_server,
  timeout_messages, client_calls, accept_loop, scpi_server_start, rffe_serve,
}

-- The threads that calls make, each with its argument.
abbrev pub threads_of : List Call → List (Routine × Argument)
threads_of [] = []
threads_of (create r a ∷ cs) = (r, a) ∷ threads_of cs
threads_of (_ ∷ cs) = threads_of cs

-- The sockets that calls close.
abbrev pub closed_by : List Call → List ℤ
closed_by [] = []
closed_by (closes fd ∷ cs) = fd ∷ closed_by cs
closed_by (_ ∷ cs) = closed_by cs

threads_of-append : (xs ys : List Call) → threads_of (xs ++ ys) ≡ threads_of xs ++ threads_of ys
threads_of-append [] ys = refl
threads_of-append (create r a ∷ xs) ys = ap (λ t. (r, a) ∷ t) (threads_of-append xs ys)
threads_of-append (_ ∷ xs) ys = threads_of-append xs ys

closed_by-append : (xs ys : List Call) → closed_by (xs ++ ys) ≡ closed_by xs ++ closed_by ys
closed_by-append [] ys = refl
closed_by-append (closes fd ∷ xs) ys = ap (λ t. fd ∷ t) (closed_by-append xs ys)
closed_by-append (_ ∷ xs) ys = closed_by-append xs ys

-- A thread for each accept that finds room, and the sockets of the others.
abbrev pub served : (active_threads dac_ac dac_bd : ℕ) → List Accept → List (Routine × Argument)
served n ac bd [] = []
served n ac bd (a ∷ rest) =
    let later = served n ac bd rest in
    if has_room a.active then (runs_client, user_data a.newsockfd n ac bd) ∷ later else later

abbrev pub refused : List Accept → List ℤ
refused [] = []
refused (a ∷ rest) =
    let later = refused rest in if has_room a.active then later else a.newsockfd ∷ later

messages-threads_of : (r : ℤ) → threads_of (timeout_messages r) ≡ []
unfolding timeout_messages
messages-threads_of r = ground arith

messages-closed_by : (r : ℤ) → closed_by (timeout_messages r) ≡ []
unfolding timeout_messages
messages-closed_by r = ground arith

module _ (n ac bd : ℕ) where
  accept_loop-threads_of :
      (accepts : List Accept) → threads_of (accept_loop n ac bd accepts) ≡ served n ac bd accepts
  unfolding accept_loop client_calls
  accept_loop-threads_of [] = refl
  accept_loop-threads_of (a ∷ rest) =
      threads_of-append (timeout_messages a.ret) _
      ∙ ap (λ t. t ++ threads_of (client_calls n ac bd a ++ accept_loop n ac bd rest))
          (messages-threads_of a.ret)
      ∙ elim (Bool-cases (has_room a.active)) [
        | inl e ↦ rw (e, accept_loop-threads_of rest) refl
        | inr e ↦ rw (e, accept_loop-threads_of rest) refl
      ]

  accept_loop-closed_by :
      (accepts : List Accept) → closed_by (accept_loop n ac bd accepts) ≡ refused accepts
  unfolding accept_loop client_calls
  accept_loop-closed_by [] = refl
  accept_loop-closed_by (a ∷ rest) =
      closed_by-append (timeout_messages a.ret) _
      ∙ ap (λ t. t ++ closed_by (client_calls n ac bd a ++ accept_loop n ac bd rest))
          (messages-closed_by a.ret)
      ∙ elim (Bool-cases (has_room a.active)) [
        | inl e ↦ rw (e, accept_loop-closed_by rest) refl
        | inr e ↦ rw (e, accept_loop-closed_by rest) refl
      ]

  -- The two threads that rffe_main starts itself.
  abbrev pub own_threads : List (Routine × Argument)
  own_threads = (runs_temp_control, dac_write_back ac bd) ∷ (runs_fw_update, null) ∷ []

  -- How the end of rffe_main goes, with the socket that the SCPI server listens on, if there is one.
  abbrev pub Goes : Option ℤ → List Accept → Option ℤ × List Call → Type 0
  Goes (some fd) accepts (returned, calls) =
      (returned ≡ none)
      × (threads_of calls ≡ own_threads ++ served n ac bd accepts)
      × (closed_by calls ≡ refused accepts)
  Goes none accepts (returned, calls) = (returned ≡ some (pos 0)) × (threads_of calls ≡ own_threads)

  -- If the SCPI server has a socket to listen on, rffe_main does not return, and it starts the
  -- thread of the temperature control with the pointers of its two variables, that of the firmware
  -- update, and one for each accept that finds room, with its socket and the same two pointers; of
  -- the accepted sockets it closes exactly the others. If socket, bind or listen fails, rffe_main
  -- returns 0 although the thread of the temperature control has the pointers of its variables.
  pub rffe_serve-Goes :
      (sockfd bound listened : ℤ) (accepts : List Accept)
      → Goes
          (listening sockfd bound listened)
          accepts
          (rffe_serve n ac bd sockfd bound listened accepts)
  unfolding rffe_serve start_temp_control_server start_fw_update_server scpi_server_start
  rffe_serve-Goes sockfd bound listened accepts = elim (Bool-cases (is_neg sockfd)) [
    | inl e ↦ rw e (refl, refl)
    | inr fd ↦ elim (Bool-cases (is_neg bound)) [
      | inl e ↦ rw (fd, e) (refl, refl)
      | inr b ↦ elim (Bool-cases (is_neg listened)) [
        | inl e ↦ rw (fd, b, e) (refl, refl)
        | inr l ↦
            rw (fd, b, l)
              (
                refl,
                ap (λ t. own_threads ++ t) (accept_loop-threads_of accepts),
                accept_loop-closed_by accepts,
              )
      ]
    ]
  ]

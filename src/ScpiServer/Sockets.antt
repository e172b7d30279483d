-- ===== src/ScpiServer/Sockets.antt =====
-- scpi_server.c: the sockets of the clients, and scpi_interface.c, through which libscpi answers
-- them. A schedule says what accept and the recv of the threads return, in their order; whether a
-- client that accept returned finds room is part of it, so that any value of the count is allowed, and
-- whether pthread_create makes its thread, a result that the code does not look at.
pub mod Balance
use rffe_uc_fw.Base.{
  ℕ, zero, suc, ◌+◌, ◌≡◌, refl, ap, ◌∙◌, inl, inr, Bool, true, false, List, [], ◌∷◌, ◌++◌, map, ℤ,
  negsuc, is_neg, if◌then◌else◌, Option, none, some, Bool-cases, arith,
}

-- What handle_client uses of libscpi: SCPI_Init, and SCPI_Input with the texts that it passes to
-- SCPI_Write.
pub record Libscpi (P W : Type 0) : Type 0 where
  pub scpi_init : P
  pub scpi_input : List ℕ → P → W → P × W × List (List ℕ)

-- The part of user_data_t that a thread uses, and its scpi_context.
pub record Client (P : Type 0) : Type 0 where
  pub sockfd : ℤ
  pub context : P

-- A write to a socket, and close.
pub data Call : Type 0 where
  writes : ℤ → List ℕ → Call
  closes : ℤ → Call

pub record Sockets (P W : Type 0) : Type 0 where
  pub clients : List (Client P)
  pub world : W
  pub calls : List Call

-- The result of recv with its bytes: a positive number, or none.
pub data Received : Type 0 where
  bytes : List ℕ → Received
  ended : Received

pub data Event : Type 0 where
  -- accept returned this, there was room or not, and pthread_create would make a thread or not.
  accepts : ℤ → (room made : Bool) → Event
  -- recv of the thread at this place of the list returned.
  receives : ℕ → Received → Event

-- socket, bind and listen, with what they return: the socket, or the -1 of scpi_server_start.
abbrev pub listening : ℤ → ℤ → ℤ → Option ℤ
listening sockfd bound listened =
    if is_neg sockfd
    then none
    else if is_neg bound
    then none
    else if is_neg listened
    then none
    else some sockfd

-- `write(u->sockfd, data, len)`
abbrev pub scpi_write : {P : Type 0} → Client P → List ℕ → Call
scpi_write u text = writes u.sockfd text

module _ {P W : Type 0} (lib : Libscpi P W) where
  -- A client with what recv returned to its thread: the client again, or none after the last.
  unfoldable pub serve : Client P → Received → W → List (Client P) × W × List Call
  serve u (bytes text) w =
      let (c, w1, answers) = lib.scpi_input text u.context w in
      (record u { context = c } ∷ [], w1, map (scpi_write u) answers)
  serve u ended w = ([], w, closes u.sockfd ∷ [])

  unfoldable pub serve_at : ℕ → Received → List (Client P) → W → List (Client P) × W × List Call
  unfolding serve
  serve_at i r [] w = ([], w, [])
  serve_at zero r (u ∷ us) w = let (kept, w1, calls) = serve u r w in (kept ++ us, w1, calls)
  serve_at (suc i) r (u ∷ us) w = let (us1, w1, calls) = serve_at i r us w in (u ∷ us1, w1, calls)

  unfoldable pub step : Event → Sockets P W → Sockets P W
  unfolding serve_at
  step (accepts fd true true) s = record s {
    clients = record { sockfd = fd; context = lib.scpi_init } ∷ s.clients;
  }
  step (accepts fd true false) s = s
  step (accepts fd false made) s = record s { calls = s.calls ++ (closes fd ∷ []) }
  step (receives i r) s =
      let (us, w, calls) = serve_at i r s.clients s.world in
      record { clients = us; world = w; calls = s.calls ++ calls }

  unfoldable pub run : List Event → Sockets P W → Sockets P W
  unfolding step
  run [] s = s
  run (e ∷ es) s = run es (step e s)

-- ===== src/Startup/Servers.antt =====
-- rffe-app/rffe_main.c, temp_control.c, fw_update.c and scpi_server.c: the threads and the server that
-- rffe_main starts at its end. The calls are a list in the order in which they are made; what
-- socket, bind, listen, accept and setsockopt return, and what the accepting thread reads of the
-- count of clients, is an input. A pointer is an address; malloc does not fail.
use rffe_uc_fw.Base.{
  ℕ, List, [], ◌∷◌, ◌++◌, ℤ, pos, negsuc, is_neg, if◌then◌else◌, Option, none, some,
}
use rffe_uc_fw.ScpiServer.{has_room}

pub data Routine : Type 0 where
  runs_temp_control runs_fw_update runs_client : Routine

-- What a thread is given: NULL, a struct dac_write_back, or a user_data_t.
pub data Argument : Type 0 where
  null : Argument
  dac_write_back : (dac_ac dac_bd : ℕ) → Argument
  user_data : (sockfd : ℤ) (active_threads dac_ac dac_bd : ℕ) → Argument

pub data Message : Type 0 where
  socket_failed bind_failed listen_failed new_connection rejected : Message
  rcvtimeo_failed keepalive_failed : ℤ → Message

pub data Call : Type 0 where
  attr_init : Call
  attr_setstacksize : ℕ → Call
  -- pthread_create, whose result the code does not look at.
  create : Routine → Argument → Call
  detach : Call
  -- With the port, and with the backlog.
  opens_socket : Call
  binds : ℕ → Call
  listens : ℕ → Call
  -- SO_RCVTIMEO, with the seconds.
  sets_rcvtimeo : ℤ → ℕ → Call
  closes : ℤ → Call
  prints : Message → Call

unfoldable pub start_temp_control_server : (dac_ac dac_bd : ℕ) → List Call
start_temp_control_server dac_ac dac_bd =
    attr_init
    ∷ attr_setstacksize 768
    ∷ create runs_temp_control (dac_write_back dac_ac dac_bd)
    ∷ detach
    ∷ []

unfoldable pub start_fw_update_server : List Call
start_fw_update_server =
    attr_init ∷ attr_setstacksize 1280 ∷ create runs_fw_update null ∷ detach ∷ []

-- An accept: what it returned, what setsockopt returned, and the count of clients after that.
pub record Accept : Type 0 where
  pub newsockfd : ℤ
  pub ret : ℤ
  pub active : ℤ

-- The two messages where setsockopt failed.
unfoldable pub timeout_messages : ℤ → List Call
timeout_messages ret =
    if is_neg ret then prints (rcvtimeo_failed ret) ∷ prints (keepalive_failed ret) ∷ [] else []

unfoldable pub client_calls : (active_threads dac_ac dac_bd : ℕ) → Accept → List Call
client_calls active_threads dac_ac dac_bd a =
    if has_room a.active
    then attr_init
      ∷ attr_setstacksize 1280
      ∷ prints new_connection
      ∷ create runs_client (user_data a.newsockfd active_threads dac_ac dac_bd)
      ∷ detach
      ∷ []
    else prints rejected ∷ closes a.newsockfd ∷ []

-- The loop, for the accepts so far.
unfoldable pub accept_loop : (active_threads dac_ac dac_bd : ℕ) → List Accept → List Call
unfolding timeout_messages client_calls
accept_loop active_threads dac_ac dac_bd [] = []
accept_loop active_threads dac_ac dac_bd (a ∷ rest) =
    sets_rcvtimeo a.newsockfd 30
    ∷ (timeout_messages a.ret
        ++ (client_calls active_threads dac_ac dac_bd a
            ++ accept_loop active_threads dac_ac dac_bd rest))

-- What is returned, if anything is, and the calls.
unfoldable pub scpi_server_start :
    (active_threads dac_ac dac_bd : ℕ) (sockfd bound listened : ℤ)
    → List Accept
    → Option ℤ × List Call
unfolding accept_loop
scpi_server_start active_threads dac_ac dac_bd sockfd bound listened accepts =
    if is_neg sockfd
    then (some (negsuc 0), opens_socket ∷ prints socket_failed ∷ [])
    else if is_neg bound
    then (some (negsuc 0), opens_socket ∷ binds 9001 ∷ prints bind_failed ∷ [])
    else if is_neg listened
    then (some (negsuc 0), opens_socket ∷ binds 9001 ∷ listens 4 ∷ prints listen_failed ∷ [])
    else (
      none,
      opens_socket ∷ binds 9001 ∷ listens 4 ∷ accept_loop active_threads dac_ac dac_bd accepts,
    )

-- What rffe_main returns, if the server returns: the result is not looked at.
abbrev pub return_zero : Option ℤ → Option ℤ
return_zero none = none
return_zero (some r) = some (pos 0)

-- The end of rffe_main, from the call of start_temp_control_server on. `dac_ac` and `dac_bd` are the
-- addresses of its two variables, `active_threads` that of the variable of scpi_server_start.
unfoldable pub rffe_serve :
    (active_threads dac_ac dac_bd : ℕ) (sockfd bound listened : ℤ)
    → List Accept
    → Option ℤ × List Call
unfolding start_temp_control_server start_fw_update_server scpi_server_start
rffe_serve active_threads dac_ac dac_bd sockfd bound listened accepts =
    let (returned, calls) =
      scpi_server_start active_threads dac_ac dac_bd sockfd bound listened accepts in
    (
      return_zero returned,
      start_temp_control_server dac_ac dac_bd ++ (start_fw_update_server ++ calls),
    )

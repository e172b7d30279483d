-- ===== src/FwUpdate.antt =====
-- rffe-app/fw_update.c: the server on port 9090 that stores a firmware image in the upper half of
-- the flash. What recv and accept return is a list of outcomes, what the server does to the flash,
-- the socket and the board is a list of actions.
pub mod Safety
pub mod Upload
pub mod Script
mod Tests
use rffe_uc_fw.Base.{
  ℕ, zero, suc, ◌+◌, ◌-◌, ◌*◌, ◌^◌, List, [], ◌∷◌, ◌++◌, Bool, true, false, ◌&&◌, length, get_or,
  overlay, leb, ◌==◌, if◌then◌else◌, bit_or, u32, ◌<<◌, ℤ, pos, negsuc, is_neg,
}

-- An outcome of recv: what was stored at the start of the buffer (nothing at the end of the
-- stream), or an error.
pub data Recv : Type 0 where
  got : List ℕ → Recv
  failed : ℕ → Recv

pub data Action : Type 0 where
  erase_block : ℕ → Action
  progmem_write : ℕ → List ℕ → Action
  reply : ℕ → Action
  board_reset : Action
  close_socket : Action

-- How a connection ends. `waiting`: there is no outcome yet for the recv that is pending.
pub data End : Type 0 where
  closed broken waiting : End

-- The recv that is pending: for a command, for the address of a page, for its bytes.
pub data Mode : Type 0 where
  command : Mode
  address : Mode
  contents : ℕ → Mode

-- What follows an outcome of recv, with the buffer `tcp_buf`.
pub data Next : Type 0 where
  go : List Action → Mode → List ℕ → Next
  stop : End → Next

abbrev pub received : Recv → ℕ
received (got bs) = length bs
received (failed k) = 0

abbrev pub stored : Recv → List ℕ → List ℕ
stored (got bs) buf = overlay bs buf
stored (failed k) buf = buf

-- `up_progmem_eraseblock(i)` for i from 0 to 6
unfoldable pub erase_blocks : List Action
erase_blocks =
    erase_block 0
    ∷ erase_block 1
    ∷ erase_block 2
    ∷ erase_block 3
    ∷ erase_block 4
    ∷ erase_block 5
    ∷ erase_block 6
    ∷ []

-- The switch on the command, which is the first byte of the buffer.
unfoldable pub dispatch : List ℕ → Next
unfolding erase_blocks
dispatch buf =
    let c = get_or buf 0 0 in
    if c == b'e'
    then go (erase_blocks ++ (reply b'1' ∷ [])) command buf
    else if c == b'w'
    then go [] address buf
    else if c == b'r'
    then go (board_reset ∷ []) command buf
    else go (reply b'0' ∷ []) command buf

unfoldable pub start_addr : List ℕ → ℕ
start_addr buf = u32 (
    bit_or (bit_or (bit_or (get_or buf 0 0) (get_or buf 1 0 << 8)) (get_or buf 2 0 << 16))
      (get_or buf 3 0 << 24))

-- The 256 bytes of a page have come.
unfoldable pub write_page : ℕ → List ℕ → List Action
write_page addr buf =
    if leb 0x48000 addr && leb addr (0x80000 - 256)
    then progmem_write addr buf ∷ reply b'1' ∷ []
    else reply b'0' ∷ []

-- The inner loop, from the outcome of one recv to the next recv.
unfoldable pub step : Mode → List ℕ → Recv → Next
unfolding dispatch start_addr write_page
step command buf (failed k) = stop broken
step command buf (got []) = stop closed
step command buf (got (b ∷ bs)) = dispatch (overlay (b ∷ bs) buf)
step address buf r =
    let buf' = stored r buf in
    if received r == 4 then go [] (contents (start_addr buf')) buf' else go [] command buf'
step (contents addr) buf r =
    let buf' = stored r buf in
    if received r == 256 then go (write_page addr buf') command buf' else go [] command buf'

-- A connection: its actions, how it ends, and the buffer.
pub record Session : Type 0 where
  pub actions : List Action
  pub ended : End
  pub buffer : List ℕ

-- What a connection does after a step, where `rest` is the loop on the outcomes that follow.
unfoldable pub after_step : Next → (rest : Mode → List ℕ → Session) → List ℕ → Session
after_step (go acts mode buf') rest buf =
    let s = rest mode buf' in record s { actions = acts ++ s.actions }
after_step (stop e) rest buf = record { actions = []; ended = e; buffer = buf }

unfoldable pub run : Mode → List ℕ → List Recv → Session
unfolding step after_step
run mode buf [] = record { actions = []; ended = waiting; buffer = buf }
run mode buf (r ∷ rs) = after_step (step mode buf r) (λ mode' buf'. run mode' buf' rs) buf

-- What the server does with a connection that was accepted, and then with the later ones.
unfoldable pub after_session : Session → (later : List ℕ → List Action) → List Action
after_session s later = elim s.ended [
  | waiting ↦ s.actions
  | closed ↦ s.actions ++ (close_socket ∷ later s.buffer)
  | broken ↦ s.actions ++ (close_socket ∷ later s.buffer)
]

-- The outer loop: what accept returns, with the outcomes of the connection. While a connection
-- waits, no other is accepted.
unfoldable pub serve : List ℕ → List (ℤ × List Recv) → List Action
unfolding run after_session
serve buf [] = []
serve buf ((pos zero, rs) ∷ rest) = serve buf rest
serve buf ((negsuc k, rs) ∷ rest) = serve buf rest
serve buf ((pos (suc n), rs) ∷ rest) = after_session (run command buf rs) (λ buf'. serve buf' rest)

-- What socket, bind and listen return comes first.
unfoldable pub fw_update_server :
    (sockfd bound listening : ℤ) → List ℕ → List (ℤ × List Recv) → List Action
unfolding serve
fw_update_server sockfd bound listening buf conns =
    if is_neg sockfd
    then []
    else if is_neg bound
    then []
    else if is_neg listening
    then []
    else serve buf conns

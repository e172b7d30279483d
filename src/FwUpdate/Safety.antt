-- ===== src/FwUpdate/Safety.antt =====
-- fw_update.c: what the server can do to the flash, whatever it is sent.
use rffe_uc_fw.Base.{
  ℕ, ◌+◌, ◌<◌, ◌≤◌, ◌≡◌, refl, List, [], ◌∷◌, ◌++◌, ℤ, pos, negsuc, zero, suc, length, overlay,
  length-overlay, arith, ◌∙◌, Bool-cases, leb, ◌&&◌, inl, inr, get_or, ◌==◌,
}
use rffe_uc_fw.FwUpdate.{
  Recv, got, failed, Action, erase_block, progmem_write, reply, board_reset, close_socket, Mode,
  command, address, contents, Next, go, stop, stored, Session, dispatch, write_page, step, run,
  serve, fw_update_server, closed, broken, waiting, End, received, after_step, after_session,
}

-- Sectors 23 to 29 are erased, and whole pages from 0x48000 to 0x7FFFF are written.
abbrev pub IsSafe : Action → Type 0
IsSafe (erase_block i) = i < 7
IsSafe (progmem_write addr bs) = (0x48000 ≤ addr) × (addr + 256 ≤ 0x80000) × (length bs ≡ 256)
IsSafe (reply c) = Unit {0}
IsSafe board_reset = Unit {0}
IsSafe close_socket = Unit {0}

abbrev pub AllSafe : List Action → Type 0
AllSafe [] = Unit {0}
AllSafe (a ∷ rest) = IsSafe a × AllSafe rest

AllSafe-append : (xs ys : List Action) → AllSafe xs → AllSafe ys → AllSafe (xs ++ ys)
AllSafe-append [] ys hx hy = hy
AllSafe-append (x ∷ xs) ys hx hy = (hx.0, AllSafe-append xs ys hx.1 hy)

abbrev IsSafeNext : Next → Type 0
IsSafeNext (go acts mode buf) = AllSafe acts × (length buf ≡ 256)
IsSafeNext (stop e) = Unit {0}

length-stored : (r : Recv) (buf : List ℕ) → length (stored r buf) ≡ length buf
length-stored (got bs) buf = length-overlay bs buf
length-stored (failed k) buf = refl

write_page-AllSafe : (addr : ℕ) (buf : List ℕ) → length buf ≡ 256 → AllSafe (write_page addr buf)
unfolding write_page
write_page-AllSafe addr buf n = elim (Bool-cases (leb 0x48000 addr && leb addr 0x7FF00)) [
  | inl fits ↦ rw fits ((ground arith, ground arith, n), (tt, tt))
  | inr out ↦ rw out (tt, tt)
]

dispatch-IsSafeNext : (buf : List ℕ) → length buf ≡ 256 → IsSafeNext (dispatch buf)
unfolding dispatch
dispatch-IsSafeNext buf n = elim (Bool-cases (get_or buf 0 0 == b'e')) [
  | inl e ↦ rw e (omega arith, n)
  | inr e ↦ elim (Bool-cases (get_or buf 0 0 == b'w')) [
    | inl w ↦ rw (e, w) (tt, n)
    | inr w ↦ elim (Bool-cases (get_or buf 0 0 == b'r')) [
      | inl r ↦ rw (e, w, r) ((tt, tt), n)
      | inr r ↦ rw (e, w, r) ((tt, tt), n)
    ]
  ]
]

step-IsSafeNext :
    (mode : Mode) (buf : List ℕ) (r : Recv) → length buf ≡ 256 → IsSafeNext (step mode buf r)
unfolding step
step-IsSafeNext command buf (failed k) n = tt
step-IsSafeNext command buf (got []) n = tt
step-IsSafeNext command buf (got (b ∷ bs)) n =
    dispatch-IsSafeNext (overlay (b ∷ bs) buf) (length-overlay (b ∷ bs) buf ∙ n)
step-IsSafeNext address buf r n = elim (Bool-cases (received r == 4)) [
  | inl e ↦ rw e (tt, length-stored r buf ∙ n)
  | inr e ↦ rw e (tt, length-stored r buf ∙ n)
]
step-IsSafeNext (contents addr) buf r n = elim (Bool-cases (received r == 256)) [
  | inl e ↦
      rw e
        (write_page-AllSafe addr (stored r buf) (length-stored r buf ∙ n), length-stored r buf ∙ n)
  | inr e ↦ rw e (tt, length-stored r buf ∙ n)
]

abbrev IsSafeSession : Session → Type 0
IsSafeSession s = AllSafe s.actions × (length s.buffer ≡ 256)

after_step-IsSafe :
    (x : Next) (rest : Mode → List ℕ → Session) (buf : List ℕ)
    → length buf ≡ 256
    → IsSafeNext x
    → ((mode : Mode) (buf' : List ℕ) → length buf' ≡ 256 → IsSafeSession (rest mode buf'))
    → IsSafeSession (after_step x rest buf)
unfolding after_step
after_step-IsSafe (go acts mode buf') rest buf n safe ih =
    let (more, size) = ih mode buf' safe.1 in (AllSafe-append acts _ safe.0 more, size)
after_step-IsSafe (stop e) rest buf n safe ih = (tt, n)

run-IsSafe :
    (mode : Mode) (buf : List ℕ) (rs : List Recv)
    → length buf ≡ 256
    → IsSafeSession (run mode buf rs)
unfolding run
run-IsSafe mode buf [] n = (tt, n)
run-IsSafe mode buf (r ∷ rs) n =
    after_step-IsSafe (step mode buf r) _ buf n (step-IsSafeNext mode buf r n)
      (λ mode' buf' n'. run-IsSafe mode' buf' rs n')

after_session-AllSafe :
    (s : Session) (later : List ℕ → List Action)
    → IsSafeSession s
    → ((buf : List ℕ) → length buf ≡ 256 → AllSafe (later buf))
    → AllSafe (after_session s later)
unfolding after_session
after_session-AllSafe s later safe ih = cases s.ended
  where
    cases :
        (e : End)
        → AllSafe (elim e [
          | waiting ↦ s.actions
          | closed ↦ s.actions ++ (close_socket ∷ later s.buffer)
          | broken ↦ s.actions ++ (close_socket ∷ later s.buffer)
        ])
    cases waiting = safe.0
    cases closed = AllSafe-append s.actions _ safe.0 (tt, ih s.buffer safe.1)
    cases broken = AllSafe-append s.actions _ safe.0 (tt, ih s.buffer safe.1)

serve-AllSafe :
    (buf : List ℕ) (conns : List (ℤ × List Recv)) → length buf ≡ 256 → AllSafe (serve buf conns)
unfolding serve
serve-AllSafe buf [] n = tt
serve-AllSafe buf ((pos zero, rs) ∷ rest) n = serve-AllSafe buf rest n
serve-AllSafe buf ((negsuc k, rs) ∷ rest) n = serve-AllSafe buf rest n
serve-AllSafe buf ((pos (suc i), rs) ∷ rest) n =
    after_session-AllSafe (run command buf rs) (λ buf'. serve buf' rest)
      (run-IsSafe command buf rs n) (λ buf' n'. serve-AllSafe buf' rest n')

-- Whatever clients send and however their connections fail, the server erases only blocks 0 to 6,
-- and writes only pages of 256 bytes that lie whole between 0x48000 and 0x80000.
pub fw_update_server-AllSafe :
    (sockfd bound listening : ℤ) (buf : List ℕ) (conns : List (ℤ × List Recv))
    → length buf ≡ 256
    → AllSafe (fw_update_server sockfd bound listening buf conns)
unfolding fw_update_server
fw_update_server-AllSafe (pos a) (pos b) (pos c) buf conns n = serve-AllSafe buf conns n
fw_update_server-AllSafe (pos a) (pos b) (negsuc c) buf conns n = tt
fw_update_server-AllSafe (pos a) (negsuc b) c buf conns n = tt
fw_update_server-AllSafe (negsuc a) b c buf conns n = tt

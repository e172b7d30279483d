-- ===== src/FwUpdate/Upload.antt =====
-- fw_update.c: the protocol, as a client that sends whole commands sees it.
use rffe_uc_fw.Base.{
  ℕ, ◌+◌, ◌*◌, ◌/◌, ◌%◌, ◌^◌, ◌<◌, ◌≤◌, ◌≡◌, refl, sym, ap, ◌∙◌, List, [], ◌∷◌, ◌++◌, length,
  overlay, overlay_full, length-overlay, bytes_of_word, arith, ◌&&◌, leb, if◌then◌else◌,
}
use rffe_uc_fw.Base.Bits.{bit_or_low_high}
use rffe_uc_fw.FwUpdate.{
  Recv, got, Action, progmem_write, reply, Mode, command, address, contents, Session, go,
  start_addr, write_page, step, after_step, run, closed,
}

-- The four bytes of an address are put together again.
start_addr-bytes :
    (a : ℕ) (buf : List ℕ)
    → a < 2 ^ 32
    → 4 ≤ length buf
    → start_addr (overlay (bytes_of_word a) buf) ≡ a
unfolding start_addr
start_addr-bytes a [] h n = absurd (omega arith)
start_addr-bytes a (x0 ∷ []) h n = absurd (omega arith)
start_addr-bytes a (x0 ∷ x1 ∷ []) h n = absurd (omega arith)
start_addr-bytes a (x0 ∷ x1 ∷ x2 ∷ []) h n = absurd (omega arith)
start_addr-bytes a (x0 ∷ x1 ∷ x2 ∷ x3 ∷ buf) h n =
    rw
      (
        bit_or_low_high 8 (a % 256) (a / 256 % 256) (omega arith),
        bit_or_low_high 16 (a % 256 + a / 256 % 256 * 2 ^ 8) (a / 65536 % 256) (omega arith),
        bit_or_low_high 24 (a % 256 + a / 256 % 256 * 2 ^ 8 + a / 65536 % 256 * 2 ^ 16)
            (a / 16777216 % 256) (omega arith),
      )
      (omega arith)

pub record Page : Type 0 where
  pub addr : ℕ
  pub bytes : List ℕ

-- What a client sends for a page.
abbrev pub page_input : Page → List Recv → List Recv
page_input p rest = got (b'w' ∷ []) ∷ got (bytes_of_word p.addr) ∷ got p.bytes ∷ rest

-- A page within the upper half is written and answered with 1, any other answered with 0.
abbrev pub page_actions : Page → List Action
page_actions p =
    if leb 0x48000 p.addr && leb (p.addr + 256) 0x80000
    then progmem_write p.addr p.bytes ∷ reply b'1' ∷ []
    else reply b'0' ∷ []

abbrev pub IsPage : Page → Type 0
IsPage p = (p.addr < 2 ^ 32) × (length p.bytes ≡ 256)

abbrev pub AllPages : List Page → Type 0
AllPages [] = Unit {0}
AllPages (p ∷ ps) = IsPage p × AllPages ps

abbrev pub upload_input : List Page → List Recv
upload_input [] = got [] ∷ []
upload_input (p ∷ ps) = page_input p (upload_input ps)

abbrev pub upload_actions : List Page → List Action
upload_actions [] = []
upload_actions (p ∷ ps) = page_actions p ++ upload_actions ps

write_page-page_actions : (p : Page) → write_page p.addr p.bytes ≡ page_actions p
unfolding write_page
write_page-page_actions p = ground arith

-- The three steps of a page.
step-command :
    (buf : List ℕ)
    → length buf ≡ 256
    → step command buf (got (b'w' ∷ [])) ≡ go [] address (overlay (b'w' ∷ []) buf)
unfolding step
step-command [] n = absurd (omega arith)
step-command (x ∷ buf) n = refl

step-address :
    (a : ℕ) (buf : List ℕ)
    → a < 2 ^ 32
    → length buf ≡ 256
    → step address buf (got (bytes_of_word a)) ≡ go [] (contents a) (overlay (bytes_of_word a) buf)
unfolding step
step-address a buf h n =
    ap (λ b. go [] (contents b) (overlay (bytes_of_word a) buf))
      (start_addr-bytes a buf h (omega arith))

step-contents :
    (p : Page) (buf : List ℕ)
    → IsPage p
    → length buf ≡ 256
    → step (contents p.addr) buf (got p.bytes) ≡ go (page_actions p) command p.bytes
unfolding step
step-contents p buf h n =
    rw (overlay_full p.bytes buf (n ∙ sym h.1), h.1)
      (ap (λ acts. go acts command p.bytes) (write_page-page_actions p))

abbrev pub after : List Action → Session → Session
after acts s = record s { actions = acts ++ s.actions }

run_go :
    (mode mode' : Mode) (buf buf' : List ℕ) (acts : List Action) (r : Recv) (rs : List Recv)
    → step mode buf r ≡ go acts mode' buf'
    → run mode buf (r ∷ rs) ≡ after acts (run mode' buf' rs)
unfolding run after_step
run_go mode mode' buf buf' acts r rs e = ap (λ x. after_step x (λ m b. run m b rs) buf) e

pub run_page :
    (p : Page) (buf : List ℕ) (rs : List Recv)
    → IsPage p
    → length buf ≡ 256
    → run command buf (page_input p rs) ≡ after (page_actions p) (run command p.bytes rs)
run_page p buf rs h n =
    run_go command address buf buf1 [] _ _ (step-command buf n)
    ∙ run_go address (contents p.addr) buf1 buf2 [] _ _
        (step-address p.addr buf1 h.0 (length-overlay _ buf ∙ n))
    ∙ run_go (contents p.addr) command buf2 p.bytes (page_actions p) _ rs
        (step-contents p buf2 h (length-overlay _ buf1 ∙ length-overlay _ buf ∙ n))
  where
    buf1 : List ℕ
    buf1 = overlay (b'w' ∷ []) buf

    buf2 : List ℕ
    buf2 = overlay (bytes_of_word p.addr) buf1

-- A client that sends pages, each with its command and its address, and then closes, has those
-- written that lie in the upper half of the flash, in order and as they are, and each is answered:
-- with 1 if it was written, else with 0.
pub run-upload :
    (ps : List Page) (buf : List ℕ)
    → AllPages ps
    → length buf ≡ 256
    → ((run command buf (upload_input ps)).actions ≡ upload_actions ps)
      × ((run command buf (upload_input ps)).ended ≡ closed)
unfolding run step after_step
run-upload [] buf h n = (refl, refl)
run-upload (p ∷ ps) buf h n =
    let (acts, end) = run-upload ps p.bytes h.1 h.0.1 in
    rw (run_page p buf (upload_input ps) h.0 n) (ap (λ l. page_actions p ++ l) acts, end)

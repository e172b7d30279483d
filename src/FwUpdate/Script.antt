-- ===== src/FwUpdate/Script.antt =====
-- fw_update.c: a whole update, as the host sends it: the command to erase, the pages, and the
-- command to reset.
use rffe_uc_fw.Base.{
  ℕ, ◌≡◌, refl, ap, ◌∙◌, List, [], ◌∷◌, ◌++◌, length, overlay, length-overlay, arith, sym,
  append_assoc,
}
use rffe_uc_fw.FwUpdate.{
  Recv, got, Action, reply, board_reset, command, Session, dispatch, erase_blocks, step, after_step,
  run,
}
use rffe_uc_fw.FwUpdate.Upload.{Page, page_input, page_actions, AllPages, upload_actions, run_page}

-- The pages, and what comes after them.
abbrev pub pages_input : List Page → List Recv → List Recv
pages_input [] rest = rest
pages_input (p ∷ ps) rest = page_input p (pages_input ps rest)

run_pages :
    (ps : List Page) (buf : List ℕ) (rest : List Recv)
    → AllPages ps
    → length buf ≡ 256
    → (buf' : List ℕ) × (length buf' ≡ 256)
      × ((run command buf (pages_input ps rest)).actions
          ≡ upload_actions ps ++ (run command buf' rest).actions)
run_pages [] buf rest h n = (buf, n, refl)
run_pages (p ∷ ps) buf rest h n =
    let (buf', size, e) = run_pages ps p.bytes rest h.1 h.0.1 in
    (
      buf',
      size,
      ap (λ (s : Session). s.actions) (run_page p buf (pages_input ps rest) h.0 n)
          ∙ ap (λ l. page_actions p ++ l) e
          ∙ sym (append_assoc (page_actions p) (upload_actions ps) _),
    )

-- What erase_all of the host sends.
run_erase :
    (buf : List ℕ) (rest : List Recv)
    → length buf ≡ 256
    → (run command buf (got (b'e' ∷ []) ∷ rest)).actions
      ≡ erase_blocks ++ (reply b'1' ∷ (run command (overlay (b'e' ∷ []) buf) rest).actions)
unfolding run step after_step dispatch erase_blocks
run_erase [] rest n = absurd (omega arith)
run_erase (x ∷ buf) rest n = refl

run_reset :
    (buf : List ℕ)
    → length buf ≡ 256
    → (run command buf (got (b'r' ∷ []) ∷ [])).actions ≡ board_reset ∷ []
unfolding run step after_step dispatch
run_reset [] n = absurd (omega arith)
run_reset (x ∷ buf) n = refl

abbrev pub update_input : List Page → List Recv
update_input ps = got (b'e' ∷ []) ∷ pages_input ps (got (b'r' ∷ []) ∷ [])

abbrev pub update_actions : List Page → List Action → List Action
update_actions ps rest = erase_blocks ++ (reply b'1' ∷ (upload_actions ps ++ rest))

pub run-update :
    (ps : List Page) (buf : List ℕ)
    → AllPages ps
    → length buf ≡ 256
    → (run command buf (update_input ps)).actions ≡ update_actions ps (board_reset ∷ [])
run-update ps buf h n =
    let buf1 = overlay (b'e' ∷ []) buf in
    let (buf', size, e) = run_pages ps buf1 (got (b'r' ∷ []) ∷ []) h (length-overlay _ buf ∙ n) in
    run_erase buf _ n
    ∙ ap (λ l. erase_blocks ++ (reply b'1' ∷ l))
        (e ∙ ap (λ l. upload_actions ps ++ l) (run_reset buf' size))

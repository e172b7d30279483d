-- ===== src/Delivery/Untouched.antt =====
-- Clients that do not finish an update: what they can do to the program that runs.
use rffe_uc_fw.Base.{
  ℕ, ◌+◌, ◌*◌, ◌<◌, ◌≤◌, ◌≡◌, ◌≢◌, ◌⊎◌, inl, inr, refl, sym, ap, ◌∙◌, List, [], ◌∷◌, ℤ, length,
  arith,
}
use rffe_uc_fw.Boot.{Iap, main, start_app}
use rffe_uc_fw.Boot.Rom.{erased_word}
use rffe_uc_fw.Boot.Ends.{main-start_app, main_unordered, start_app_words}
use rffe_uc_fw.FwUpdate.{
  Recv, Action, erase_block, progmem_write, reply, board_reset, close_socket, fw_update_server,
}
use rffe_uc_fw.FwUpdate.Safety.{AllSafe, fw_update_server-AllSafe}
use rffe_uc_fw.Delivery.{Progmem, perform}
use rffe_uc_fw.Delivery.Flash.{IsProgmem}
use rffe_uc_fw.Delivery.Install.{started}

-- No page is written over the magic word at the end of the flash.
abbrev pub HasNoOrder : List Action → Type 0
HasNoOrder [] = Unit {0}
HasNoOrder (progmem_write addr bs ∷ acts) = (addr + 256 ≤ 0x7FFFC) × HasNoOrder acts
HasNoOrder (erase_block i ∷ acts) = HasNoOrder acts
HasNoOrder (reply c ∷ acts) = HasNoOrder acts
HasNoOrder (board_reset ∷ acts) = HasNoOrder acts
HasNoOrder (close_socket ∷ acts) = HasNoOrder acts

module _ {F : Type 0} (iap : Iap F) (pm : Progmem F) (ok : IsProgmem iap pm) where
  open iap use {word}

  -- The bootloader and the application are below the blocks and the pages.
  pub perform-below :
      (acts : List Action) (f : F) (k : ℕ)
      → AllSafe acts
      → 4 * k < 0x48000
      → word (perform pm acts f) k ≡ word f k
  perform-below [] f k safe h = refl
  perform-below (erase_block i ∷ acts) f k safe h =
      perform-below acts (pm.up_progmem_eraseblock i f) k safe.1 h
      ∙ ok.erase_other i f k (inl (omega arith))
  perform-below (progmem_write a bs ∷ acts) f k safe h =
      perform-below acts (pm.up_progmem_write a bs f) k safe.1 h
      ∙ ok.write_other a bs f k (inl (omega (arith, safe.0.0)))
  perform-below (reply c ∷ acts) f k safe h = perform-below acts f k safe.1 h
  perform-below (board_reset ∷ acts) f k safe h = perform-below acts f k safe.1 h
  perform-below (close_socket ∷ acts) f k safe h = perform-below acts f k safe.1 h

  abbrev IsOff : F → Type 0
  IsOff f = word f 0x1FFFF ≢ 0xAAAAAAAA

  same_word : {w : ℕ} → w ≡ erased_word → w ≢ 0xAAAAAAAA
  same_word blank e = omega arith

  perform-IsOff :
      (acts : List Action) (f : F)
      → AllSafe acts
      → HasNoOrder acts
      → IsOff f
      → IsOff (perform pm acts f)
  perform-IsOff [] f safe quiet off = off
  perform-IsOff (erase_block i ∷ acts) f safe quiet off =
      perform-IsOff acts (pm.up_progmem_eraseblock i f) safe.1 quiet
        (erased (omega (arith, safe.0)))
    where
      erased : (i ≡ 6) ⊎ (i < 6) → IsOff (pm.up_progmem_eraseblock i f)
      erased (inl last) = λ e. same_word (ok.erase_blank i f 0x1FFFF (omega arith) (omega arith)) e
      erased (inr other) = λ e. off (sym (ok.erase_other i f 0x1FFFF (inr (omega arith))) ∙ e)
  perform-IsOff (progmem_write a bs ∷ acts) f safe quiet off =
      perform-IsOff acts (pm.up_progmem_write a bs f) safe.1 quiet.1
        (λ e. off (sym (ok.write_other a bs f 0x1FFFF (inr (omega (arith, safe.0, quiet.0)))) ∙ e))
  perform-IsOff (reply c ∷ acts) f safe quiet off = perform-IsOff acts f safe.1 quiet off
  perform-IsOff (board_reset ∷ acts) f safe quiet off = perform-IsOff acts f safe.1 quiet off
  perform-IsOff (close_socket ∷ acts) f safe quiet off = perform-IsOff acts f safe.1 quiet off

  -- Whatever the clients send and however their connections fail, as long as no page is written over
  -- the magic word at the end of the flash and none is there before, a boot afterwards leaves the
  -- bootloader and the application as they were, and starts the application where it started.
  pub unfinished_kept :
      (sockfd bound listening : ℤ) (buf : List ℕ) (conns : List (ℤ × List Recv)) (stack : ℕ) (f : F)
      → length buf ≡ 256
      → HasNoOrder (fw_update_server sockfd bound listening buf conns)
      → word f 0x1FFFF ≢ 0xAAAAAAAA
      → let boot =
          main iap stack (perform pm (fw_update_server sockfd bound listening buf conns) f) in
        (boot.0 ≡ started (word f 0x4000) (word f 0x4001))
        × ((k : ℕ) → 4 * k < 0x48000 → word boot.1 k ≡ word f k)
  unfinished_kept sockfd bound listening buf conns stack f size quiet off =
      let acts = fw_update_server sockfd bound listening buf conns in
      let g = perform pm acts f in
      let safe = fw_update_server-AllSafe sockfd bound listening buf conns size in
      let same = main_unordered iap stack g (perform-IsOff acts f safe quiet off) in
      let below = perform-below acts f in
      (
        main-start_app iap stack g
            ∙ ap (start_app iap 0x10000) same
            ∙ start_app_words iap stack g
            ∙ ap (λ w. started w (word g 0x4001)) (below 0x4000 safe (omega arith))
            ∙ ap (started (word f 0x4000)) (below 0x4001 safe (omega arith)),
        λ k h. ap (λ d. word d k) same ∙ below k safe h,
      )

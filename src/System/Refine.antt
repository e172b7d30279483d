-- ===== src/System/Refine.antt =====
-- scpi_rffe_cmd.c, config_file.c and temp_control.c: the nine numbers in the FERAM beside the bank of
-- System.Bank.
use rffe_uc_fw.Base.{
  ℕ, ◌≤◌, ◌≡◌, ◌≢◌, refl, sym, ap, ◌∙◌, subst, inl, inr, List, [], ◌∷◌, length, slice,
  length-splice, Bool-cases,
}
use rffe_uc_fw.Device.Os.{Os, IsDevice}
use rffe_uc_fw.Config.Transfers.{IsPresent}
use rffe_uc_fw.Config.Fields.{record_size}
use rffe_uc_fw.PidCtrl.{Floats}
use rffe_uc_fw.TempControl.{Conversions, Fds}
use rffe_uc_fw.Commands.Interface.{res_ok, Scpi, HasSizes, Board, GitVersion}
use rffe_uc_fw.Commands.{cfg_file}
use rffe_uc_fw.Commands.Settings.{
  IsBoard, Setting, Locals, IsLocals, place, query_command, encode, decode, length-encode,
}
use rffe_uc_fw.Commands.Numbers.{set_command_lem, query_command_lem}
use rffe_uc_fw.Commands.Replies.{slice-splice_own}
use rffe_uc_fw.Commands.Refused.{set_command-IsRefused}
use rffe_uc_fw.Commands.All.{
  Command, set, number, flag, output, address, query_number, query_flag, query_output,
  query_address, measure, self_test, get_version, reset,
}
use rffe_uc_fw.Commands.Kept.{IsOther, execute-IsKept}
use rffe_uc_fw.System.{System, Event, client, server, seen, happen, run}
use rffe_uc_fw.System.Turns.{IsApart, server_turn-feram}
use rffe_uc_fw.System.Bank.{
  Bank, Setting-discrete, put_register_self, put_register_other, bank_step, bank_run,
}

module _ {C N W : Type 0} (scpi : Scpi C N) (os : Os W) (board : Board W) (version : GitVersion)
    (fl : Floats) (conv : Conversions) (fds : Fds) (dev : IsDevice os cfg_file)
    (present : IsPresent os cfg_file) (isolated : IsBoard os board dev) (sizes : HasSizes scpi)
    (apart : IsApart os board dev fds) where
  open dev use {contents}

  -- The locals of every command have their sizes.
  abbrev pub AreSized : List (Event C) → Type 0
  AreSized [] = Unit {0}
  AreSized (client context c l ∷ es) = IsLocals l × AreSized es
  AreSized (server st ∷ es) = AreSized es

  abbrev feram : System W → List ℕ
  feram s = contents s.control.world

  -- The four bytes of each setting in the FERAM.
  abbrev pub bank_of : System W → Bank
  bank_of s q = slice (place q) 4 (feram s)

  abbrev after : Event C → System W → System W
  after e s = happen scpi os board version fl conv fds e s

  -- The record is as long as it was, and the register is what the bank says.
  abbrev Agrees : Event C → System W → Setting → Type 0
  Agrees e s q =
      (length (feram (after e s)) ≡ length (feram s))
      × (bank_of (after e s) q ≡ bank_step scpi os board e (bank_of s) q)

  kept_agrees :
      (q : Setting) (context : C) (c : Command) (l : Locals) (s : System W)
      → IsOther scpi os board version dev present isolated sizes q c
      → IsLocals l
      → record_size ≤ length (feram s)
      → (length (feram (after (client context c l) s)) ≡ length (feram s))
        × (bank_of (after (client context c l) s) q ≡ bank_of s q)
  unfolding happen
  kept_agrees q context c l s ne loc h =
      let kept =
        execute-IsKept scpi os board version dev present isolated sizes q apart.reset-contents c l
          (seen context s.control) ne loc h in
      (kept.same_length, kept.same_slice)

  set_self-Agrees :
      (p : Setting) (context : C) (l : Locals) (s : System W)
      → IsLocals l
      → record_size ≤ length (feram s)
      → Agrees (client context (set (number p)) l) s p
  unfolding happen bank_step
  set_self-Agrees p context l s loc h =
      let (given, v, c1) = scpi.param_number context in
      let t = seen context s.control in
      let bs = encode scpi os board p v in
      elim (Bool-cases given) [
        | inr e ↦
            let same = (set_command-IsRefused scpi os board version dev isolated p l t e).1 in
            rw e (ap length same, ap (slice (place p) 4) same)
        | inl e ↦
            let (_, _, wrote) =
              set_command_lem scpi os board dev present isolated sizes p l t v c1
                (λ i. (e i, v, c1)) loc h in
            let n = length-encode scpi os board sizes p v in
            rw e (
              ap length wrote ∙ length-splice (place p) _ _,
              ap (slice (place p) 4) wrote
                  ∙ slice-splice_own p bs (feram s) n h
                  ∙ sym (put_register_self p bs (bank_of s)),
            )
      ]

  set_other-Agrees :
      (p q : Setting) (context : C) (l : Locals) (s : System W)
      → p ≢ q
      → IsLocals l
      → record_size ≤ length (feram s)
      → Agrees (client context (set (number p)) l) s q
  unfolding bank_step
  set_other-Agrees p q context l s ne loc h =
      let (given, v, c1) = scpi.param_number context in
      let (long, same) = kept_agrees q context (set (number p)) l s ne loc h in
      elim (Bool-cases given) [
        | inr e ↦ rw e (long, same)
        | inl e ↦
            rw e
              (long, same ∙ sym (put_register_other p q (encode scpi os board p v) (bank_of s) ne))
      ]

  set-Agrees :
      (p q : Setting) (context : C) (l : Locals) (s : System W)
      → IsLocals l
      → record_size ≤ length (feram s)
      → Agrees (client context (set (number p)) l) s q
  set-Agrees p q context l s loc h = elim (Setting-discrete p q) [
    | yes e ↦
        subst (Agrees (client context (set (number p)) l) s) e (set_self-Agrees p context l s loc h)
    | no ne ↦ set_other-Agrees p q context l s ne loc h
  ]

  event-Agrees :
      (e : Event C) (s : System W) (q : Setting)
      → AreSized (e ∷ [])
      → record_size ≤ length (feram s)
      → Agrees e s q
  unfolding happen bank_step
  event-Agrees (server st) s q sized h =
      let same =
        server_turn-feram scpi os board version fl conv fds dev present isolated apart s.turn st s
          h in
      (ap length same, ap (slice (place q) 4) same)
  event-Agrees (client context (set (number p)) l) s q (loc, _) h = set-Agrees p q context l s loc h
  event-Agrees (client context (set (flag f)) l) s q (loc, _) h =
      kept_agrees q context (set (flag f)) l s tt loc h
  event-Agrees (client context (set (output ch)) l) s q (loc, _) h =
      kept_agrees q context (set (output ch)) l s tt loc h
  event-Agrees (client context (set (address a)) l) s q (loc, _) h =
      kept_agrees q context (set (address a)) l s tt loc h
  event-Agrees (client context (query_number p) l) s q (loc, _) h =
      kept_agrees q context (query_number p) l s tt loc h
  event-Agrees (client context (query_flag f) l) s q (loc, _) h =
      kept_agrees q context (query_flag f) l s tt loc h
  event-Agrees (client context (query_output ch) l) s q (loc, _) h =
      kept_agrees q context (query_output ch) l s tt loc h
  event-Agrees (client context (query_address a) l) s q (loc, _) h =
      kept_agrees q context (query_address a) l s tt loc h
  event-Agrees (client context (measure ch) l) s q (loc, _) h =
      kept_agrees q context (measure ch) l s tt loc h
  event-Agrees (client context self_test l) s q (loc, _) h =
      kept_agrees q context self_test l s tt loc h
  event-Agrees (client context get_version l) s q (loc, _) h =
      kept_agrees q context get_version l s tt loc h
  event-Agrees (client context reset l) s q (loc, _) h = kept_agrees q context reset l s tt loc h

  AreSized-head : (e : Event C) (es : List (Event C)) → AreSized (e ∷ es) → AreSized (e ∷ [])
  AreSized-head (client context c l) es (loc, _) = (loc, tt)
  AreSized-head (server st) es sized = tt

  AreSized-tail : (e : Event C) (es : List (Event C)) → AreSized (e ∷ es) → AreSized es
  AreSized-tail (client context c l) es (_, sized) = sized
  AreSized-tail (server st) es sized = sized

  run-bank :
      (es : List (Event C)) (s : System W)
      → AreSized es
      → record_size ≤ length (feram s)
      → let s' = run scpi os board version fl conv fds es s in
        (length (feram s') ≡ length (feram s))
        × (bank_of s' ≡ bank_run scpi os board es (bank_of s))
  unfolding run bank_run
  run-bank [] s sized h = (refl, refl)
  run-bank (e ∷ es) s sized h =
      let agrees : (q : Setting) → Agrees e s q =
        λ q. event-Agrees e s q (AreSized-head e es sized) h in
      let (long, rest) =
        run-bank es (after e s) (AreSized-tail e es sized) (rw (agrees Setting.att).0 h) in
      (long ∙ (agrees Setting.att).0, rest ∙ ap (bank_run scpi os board es) (λ i q. (agrees q).1 i))

  -- The system refines the bank of registers: after any commands of any clients, whether they
  -- succeed or not, and any parts of passes of the temperature control between them, the nine numbers
  -- in the FERAM are those of the bank that the set commands with a number alone have changed, and a
  -- query of any of them by any client succeeds and answers with what that register is decoded to; if
  -- locals have their sizes and the FERAM holds the record, has no fault and is not changed by a
  -- reset or by what is written to the DAC.
  pub run-refines :
      (es : List (Event C)) (s : System W) (q : Setting) (context : C) (l : Locals)
      → AreSized es
      → IsLocals l
      → record_size ≤ length (feram s)
      → let s' = run scpi os board version fl conv fds es s in
        let (result, t) = query_command scpi os board q l (seen context s'.control) in
        (bank_of s' ≡ bank_run scpi os board es (bank_of s))
        × (result ≡ res_ok)
        × (t.context
            ≡ scpi.result_float
                (decode scpi os board q (bank_run scpi os board es (bank_of s) q))
                context)
  run-refines es s q context l sized loc h =
      let (long, banks) = run-bank es s sized h in
      let s' = run scpi os board version fl conv fds es s in
      let (ok, reply, _) =
        query_command_lem scpi os board dev present isolated sizes q l (seen context s'.control) loc
          (rw long h) in
      (banks, ok, reply ∙ ap (λ m. scpi.result_float (decode scpi os board q (m q)) context) banks)

-- ===== src/Commands/Replies.antt =====
-- scpi_rffe_cmd.c: the commands that set and query numbers of the configuration, one after the
-- other.
use rffe_uc_fw.Base.{
  ℕ, ◌≤◌, ◌≡◌, ◌≢◌, inl, inr, sym, ap, ◌∙◌, true, List, length, slice, splice, length-splice,
  slice-splice_self, slice-splice_before, slice-splice_after, arith,
}
use rffe_uc_fw.Device.Os.{Os, IsDevice}
use rffe_uc_fw.Config.Transfers.{IsPresent}
use rffe_uc_fw.Config.Fields.{record_size}
use rffe_uc_fw.Commands.Interface.{res_ok, Scpi, HasSizes, Board, State}
use rffe_uc_fw.Commands.{cfg_file}
use rffe_uc_fw.Commands.Settings.{
  IsBoard, Setting, Locals, IsLocals, place, place_fits, places_apart, set_command, query_command,
  encode, decode, length-encode,
}
use rffe_uc_fw.Commands.Numbers.{set_command_lem, query_command_lem}

-- What two settings hold after one of them was written.
pub slice-splice_setting :
    (p q : Setting) (v xs : List ℕ)
    → p ≢ q
    → length v ≡ 4
    → slice (place q) 4 (splice (place p) v xs) ≡ slice (place q) 4 xs
slice-splice_setting p q v xs ne n = elim (places_apart p q) [
  | inl e ↦ absurd (ne e)
  | inr (inl behind) ↦ slice-splice_after (place p) (place q) 4 v xs (omega arith)
  | inr (inr before) ↦ slice-splice_before (place p) (place q) 4 v xs before
]

pub slice-splice_own :
    (q : Setting) (v xs : List ℕ)
    → length v ≡ 4
    → record_size ≤ length xs
    → slice (place q) 4 (splice (place q) v xs) ≡ v
slice-splice_own q v xs n h =
    rw (← n) (slice-splice_self (place q) v xs (omega (arith, place_fits q)))

module _ {C N W : Type 0} (scpi : Scpi C N) (os : Os W) (board : Board W)
    (dev : IsDevice os cfg_file) (present : IsPresent os cfg_file) (isolated : IsBoard os board dev)
    (sizes : HasSizes scpi) where
  open dev use {contents}

  -- A number that a set command was given is what the query of the setting answers with afterwards,
  -- as it is decoded from what was stored, and both report success.
  query-set_self :
      (q : Setting) (l l' : Locals) (s : State C W) (v : N) (c1 : C)
      → scpi.param_number s.context ≡ (true, v, c1)
      → IsLocals l
      → IsLocals l'
      → record_size ≤ length (contents s.world)
      → let (set_result, s1) = set_command scpi os board q l s in
        let (result, s2) = query_command scpi os board q l' s1 in
        (set_result ≡ res_ok)
        × (result ≡ res_ok)
        × (s2.context ≡ scpi.result_float (decode scpi os board q (encode scpi os board q v)) c1)
  query-set_self q l l' s v c1 given loc loc' h =
      let s1 = (set_command scpi os board q l s).1 in
      let bs = encode scpi os board q v in
      let (ok, context, wrote) =
        set_command_lem scpi os board dev present isolated sizes q l s v c1 given loc h in
      let (ok', reply, _) =
        query_command_lem scpi os board dev present isolated sizes q l' s1 loc'
          (rw (wrote, length-splice) h) in
      (
        ok,
        ok',
        reply
            ∙ ap
                (λ c.
                  scpi.result_float (decode scpi os board q (slice (place q) 4 (contents s1.world)))
                    c)
                context
            ∙ ap (λ x. scpi.result_float (decode scpi os board q x) c1)
                (ap (slice (place q) 4) wrote
                  ∙ slice-splice_own q bs (contents s.world) (length-encode scpi os board sizes q v)
                      h),
      )

  -- A set command leaves the answers of the other queries as they were, in each context.
  query-set_ne :
      (p q : Setting) (l l' : Locals) (s : State C W) (v : N) (c1 : C)
      → p ≢ q
      → scpi.param_number s.context ≡ (true, v, c1)
      → IsLocals l
      → IsLocals l'
      → record_size ≤ length (contents s.world)
      → let s1 = (set_command scpi os board p l s).1 in
        (query_command scpi os board q l' (record s1 { context = s.context })).1.context
        ≡ (query_command scpi os board q l' s).1.context
  query-set_ne p q l l' s v c1 ne given loc loc' h =
      let s1 = (set_command scpi os board p l s).1 in
      let (_, _, wrote) =
        set_command_lem scpi os board dev present isolated sizes p l s v c1 given loc h in
      let (_, after, _) =
        query_command_lem scpi os board dev present isolated sizes q l'
          (record s1 { context = s.context }) loc' (rw (wrote, length-splice) h) in
      let (_, before, _) =
        query_command_lem scpi os board dev present isolated sizes q l' s loc' h in
      after
      ∙ ap (λ x. scpi.result_float (decode scpi os board q x) s.context)
          (ap (slice (place q) 4) wrote
            ∙ slice-splice_setting p q _ (contents s.world) ne
                (length-encode scpi os board sizes p v))
      ∙ sym before

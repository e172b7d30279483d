-- ===== src/System/Messages.antt =====
-- scpi_server.c, scpi_tables.c, scpi_rffe_cmd.c and temp_control.c: the messages of the clients, each
-- through the table to its handler, with the parts of the passes of the temperature control between
-- them.
use rffe_uc_fw.Base.{
  ℕ, String, ◌≤◌, ◌≡◌, refl, ap, ◌∙◌, true, List, [], ◌∷◌, Bool, Option, none, some, length, slice,
  splice, length-splice,
}
use rffe_uc_fw.Device.Os.{Os, IsDevice}
use rffe_uc_fw.Config.Transfers.{IsPresent}
use rffe_uc_fw.Config.Fields.{record_size}
use rffe_uc_fw.PidCtrl.{Floats}
use rffe_uc_fw.TempControl.{Conversions, Fds, Stack}
use rffe_uc_fw.Commands.Interface.{ScpiResult, res_ok, Scpi, HasSizes, Board, GitVersion, State}
use rffe_uc_fw.Commands.{cfg_file}
use rffe_uc_fw.Commands.Settings.{
  IsBoard, Setting, Locals, IsLocals, place, encode, decode, length-encode,
}
use rffe_uc_fw.Commands.Numbers.{set_command_lem, query_command_lem}
use rffe_uc_fw.Commands.Replies.{slice-splice_own}
use rffe_uc_fw.Commands.All.{number, set, query_number}
use rffe_uc_fw.Commands.Reach.{KeepsSetting, same-KeepsSetting, both-KeepsSetting}
use rffe_uc_fw.Commands.Kept.{IsOther, execute-IsKept}
use rffe_uc_fw.ScpiTable.{Callback, library, handler, scpi_commands, find_command, answer, dispatch}
use rffe_uc_fw.ScpiTable.Scheme.{pattern_of, stands_for, dispatch-execute}
use rffe_uc_fw.System.{System, seen, left, server_turn}
use rffe_uc_fw.System.Turns.{IsApart, server_turn-feram}

-- A message of a client: its connection's context, the header, and the locals of the handler. Or the
-- next part of a pass.
pub data Message (C : Type 0) : Type 0 where
  says : C → (header : List ℕ) → Locals → Message C
  passes : Stack → Message C

module _ {C N W : Type 0} (scpi : Scpi C N) (os : Os W) (board : Board W) (version : GitVersion)
    (core : String → State C W → ScpiResult × State C W)
    (undefined : State C W → ScpiResult × State C W) (matches : List ℕ → List ℕ → Bool)
    (fl : Floats) (conv : Conversions) (fds : Fds) where
  unfoldable pub take_message : Message C → System W → System W
  unfolding dispatch
  take_message (says context header l) s =
      let (_, t) =
        dispatch scpi os board version core undefined matches header l (seen context s.control) in
      record s { control = left t s.control }
  take_message (passes st) s = server_turn scpi os board version fl conv fds s.turn st s

  unfoldable pub take_messages : List (Message C) → System W → System W
  unfolding take_message
  take_messages [] s = s
  take_messages (m ∷ rest) s = take_messages rest (take_message m s)

  -- The handlers of libscpi leave the world alone.
  pub record IsLibrary : Type 0 where
    pub core-world : (name : String) (s : State C W) → (core name s).1.world ≡ s.world
    pub undefined-world : (s : State C W) → (undefined s).1.world ≡ s.world

  module _ (isolated_library : IsLibrary) (dev : IsDevice os cfg_file)
      (present : IsPresent os cfg_file) (isolated : IsBoard os board dev) (sizes : HasSizes scpi)
      (apart : IsApart os board dev fds) (q : Setting) where
    open dev use {contents}

    abbrev feram : System W → List ℕ
    feram s = contents s.control.world

    -- What the table finds for a header is not the command that sets `q`.
    abbrev pub SetsAnother : Option Callback → Type 0
    SetsAnother (some (handler c)) = IsOther scpi os board version dev present isolated sizes q c
    SetsAnother _ = Unit {0}

    abbrev pub AreOthers : List (Message C) → Type 0
    AreOthers [] = Unit {0}
    AreOthers (says context header l ∷ ms) =
        SetsAnother (find_command matches header scpi_commands) × IsLocals l × AreOthers ms
    AreOthers (passes st ∷ ms) = AreOthers ms

    answer-KeepsSetting :
        (f : Option Callback) (l : Locals) (s : State C W)
        → SetsAnother f
        → IsLocals l
        → record_size ≤ length (contents s.world)
        → KeepsSetting q
            (contents s.world)
            (contents (answer scpi os board version core undefined f l s).1.world)
    unfolding answer
    answer-KeepsSetting none l s ne loc h =
        same-KeepsSetting q (ap contents (isolated_library.undefined-world s))
    answer-KeepsSetting (some (library name)) l s ne loc h =
        same-KeepsSetting q (ap contents (isolated_library.core-world name s))
    answer-KeepsSetting (some (handler c)) l s ne loc h =
        execute-IsKept scpi os board version dev present isolated sizes q apart.reset-contents c l s
          ne loc h

    take_messages-KeepsSetting :
        (ms : List (Message C)) (s : System W)
        → AreOthers ms
        → record_size ≤ length (feram s)
        → KeepsSetting q (feram s) (feram (take_messages ms s))
    unfolding take_messages take_message dispatch
    take_messages-KeepsSetting [] s others h = same-KeepsSetting q refl
    take_messages-KeepsSetting (says context header l ∷ ms) s (ne, loc, others) h =
        let f = find_command matches header scpi_commands in
        let kept = answer-KeepsSetting f l (seen context s.control) ne loc h in
        both-KeepsSetting kept (
          take_messages-KeepsSetting ms (take_message (says context header l) s) others
            (rw kept.same_length h))
    take_messages-KeepsSetting (passes st ∷ ms) s others h =
        let same =
          server_turn-feram scpi os board version fl conv fds dev present isolated apart s.turn st s
            h in
        both-KeepsSetting (same-KeepsSetting q same)
          (take_messages-KeepsSetting ms (take_message (passes st) s) others (rw same h))

    -- After a message with a number whose header stands for the pattern of the command that sets one
    -- of the nine settings, and any messages that the table does not take for that command, with
    -- parts of passes of the temperature control between them, a message of any client whose header
    -- stands for the pattern of its query is answered with what the number is decoded to from what
    -- was stored, if the handlers of libscpi leave the world alone, the locals have their sizes, and
    -- the FERAM holds the record, has no fault and is not changed by a reset or by what is written to
    -- the DAC.
    pub take_messages-last_set :
        (context c1 context' : C) (v : N) (header header' : List ℕ) (l l' : Locals)
        (ms : List (Message C)) (s : System W)
        → stands_for matches header (pattern_of (set (number q))) scpi_commands ≡ true
        → stands_for matches header' (pattern_of (query_number q)) scpi_commands ≡ true
        → scpi.param_number context ≡ (true, v, c1)
        → IsLocals l
        → IsLocals l'
        → AreOthers ms
        → record_size ≤ length (feram s)
        → let s' = take_messages (says context header l ∷ ms) s in
          let (result, t) =
            dispatch scpi os board version core undefined matches header' l'
              (seen context' s'.control) in
          (result ≡ res_ok)
          × (t.context
              ≡ scpi.result_float (decode scpi os board q (encode scpi os board q v)) context')
    unfolding take_messages take_message
    take_messages-last_set context c1 context' v header header' l l' ms s sets asks given loc loc'
          others h =
        let runs = dispatch-execute scpi os board version core undefined matches in
        let (_, _, wrote) =
          set_command_lem scpi os board dev present isolated sizes q l (seen context s.control) v c1
            given loc h in
        let s1 = take_message (says context header l) s in
        let stored : feram s1 ≡ splice (place q) (encode scpi os board q v) (feram s) =
          ap (λ r. contents r.1.world)
            (runs header (set (number q)) l (seen context s.control) sets)
          ∙ wrote in
        let h1 : record_size ≤ length (feram s1) = rw (stored, length-splice) h in
        let kept = take_messages-KeepsSetting ms s1 others h1 in
        let s' = take_messages ms s1 in
        let found = runs header' (query_number q) l' (seen context' s'.control) asks in
        let (ok, reply, _) =
          query_command_lem scpi os board dev present isolated sizes q l' (seen context' s'.control)
            loc' (rw kept.same_length h1) in
        (
          ap (λ r. r.0) found ∙ ok,
          ap (λ r. r.1.context) found
              ∙ reply
              ∙ ap (λ bs. scpi.result_float (decode scpi os board q bs) context')
                  (kept.same_slice
                    ∙ ap (slice (place q) 4) stored
                    ∙ slice-splice_own q _ (feram s) (length-encode scpi os board sizes q v) h),
        )

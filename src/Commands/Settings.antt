-- ===== src/Commands/Settings.antt =====
-- scpi_rffe_cmd.c: the nine numbers of the configuration that have a command to set and a command
-- to query them, and what the two do to the record in the FERAM.
use rffe_uc_fw.Base.{
  ℕ, String, ◌+◌, ◌≤◌, ◌≡◌, ◌⊎◌, sym, ap, ◌∙◌, List, ℤ, length, overlay_full, slice, splice,
  length-slice, slice-splice_after, splice-slice_self, arith,
}
use rffe_uc_fw.Device.Os.{Access, Os, IsDevice}
use rffe_uc_fw.Config.{PidConstants, TempCtrlMode, EthAddrMode}
use rffe_uc_fw.Config.Transfers.{IsPresent}
use rffe_uc_fw.Config.Fields.{record_size}
use rffe_uc_fw.Config.Pid.{
  Channel, ac, bd, IsFloats, get_pid_of, set_pid_of, base, written, loaded, get_pid_of-loaded,
  base_fits, get_pid_of-contents, set_pid_of-written,
}
use rffe_uc_fw.Commands.Interface.{ScpiResult, Scpi, HasSizes, Board, State}
use rffe_uc_fw.Commands.{
  cfg_file, with_kc, with_ti, with_td, rffe_set_attenuation, rffe_get_attenuation, rffe_set_temp_ac,
  rffe_get_temp_ac, rffe_set_temp_bd, rffe_get_temp_bd, rffe_set_pid_kc_ac, rffe_get_pid_kc_ac,
  rffe_set_pid_ti_ac, rffe_get_pid_ti_ac, rffe_set_pid_td_ac, rffe_get_pid_td_ac,
  rffe_set_pid_kc_bd, rffe_get_pid_kc_bd, rffe_set_pid_ti_bd, rffe_get_pid_ti_bd,
  rffe_set_pid_td_bd, rffe_get_pid_td_bd,
}

-- No call on another file or on the attenuator changes what the FERAM holds.
pub record IsBoard {W : Type 0} (os : Os W) (board : Board W) (dev : IsDevice os cfg_file)
    : Type 0 where
  pub open_any :
      (path : String) (m : Access) (w : W) → dev.contents (os.open_file path m w).1 ≡ dev.contents w
  pub read_any : (fd : ℤ) (n : ℕ) (w : W) → dev.contents (os.read_file fd n w).2 ≡ dev.contents w
  pub set_att-contents :
      (fd : ℤ) (att : List ℕ) (w : W) → dev.contents (board.set_att fd att w) ≡ dev.contents w

pub data Constant : Type 0 where
  kc ti td : Constant

pub data Setting : Type 0 where
  att temp_ac temp_bd : Setting
  pid : Channel → Constant → Setting

-- What the locals of the handlers and of the accessors hold that they call: twice a `ret`, four
-- bytes, three floats, a byte and the two modes.
pub record Locals : Type 0 where
  pub ret : ℤ
  pub ret' : ℤ
  pub value : List ℕ
  pub constants : PidConstants
  pub local : ℕ
  pub temp_mode : TempCtrlMode
  pub eth_mode : EthAddrMode

pub record IsLocals (l : Locals) : Type 0 where
  pub value_size : length l.value ≡ 4
  pub constants_size : IsFloats l.constants

abbrev pub part : Constant → ℕ → ℕ
part kc b = b
part ti b = 4 + b
part td b = 8 + b

abbrev pub place : Setting → ℕ
place att = 64
place temp_ac = 120
place temp_bd = 124
place (pid ch k) = part k (base ch)

abbrev pub with_constant : Constant → List ℕ → PidConstants → PidConstants
with_constant kc = with_kc
with_constant ti = with_ti
with_constant td = with_td

abbrev pub constant_of : Constant → PidConstants → List ℕ
constant_of kc c = c.kc
constant_of ti c = c.ti
constant_of td c = c.td

pub place_fits : (q : Setting) → place q + 4 ≤ record_size
place_fits att = omega arith
place_fits temp_ac = omega arith
place_fits temp_bd = omega arith
place_fits (pid ch k) = ground arith

pub places_apart : (p q : Setting) → (p ≡ q) ⊎ (place p + 4 ≤ place q) ⊎ (place q + 4 ≤ place p)
places_apart p q = ground arith

length-loaded :
    (k : Constant) (b : ℕ) (xs : List ℕ) → b + 12 ≤ length xs → length (slice (part k b) 4 xs) ≡ 4
length-loaded kc b xs h = length-slice b 4 xs (omega arith)
length-loaded ti b xs h = length-slice (4 + b) 4 xs (omega arith)
length-loaded td b xs h = length-slice (8 + b) 4 xs (omega arith)

-- A constant as it is loaded over four bytes.
pub constant_of-loaded :
    (k : Constant) (b : ℕ) (c : PidConstants) (xs : List ℕ)
    → IsFloats c
    → b + 12 ≤ length xs
    → constant_of k (loaded b xs c) ≡ slice (part k b) 4 xs
constant_of-loaded kc b c xs s h = overlay_full _ c.kc (s.kc_size ∙ sym (length-loaded kc b xs h))
constant_of-loaded ti b c xs s h = overlay_full _ c.ti (s.ti_size ∙ sym (length-loaded ti b xs h))
constant_of-loaded td b c xs s h = overlay_full _ c.td (s.td_size ∙ sym (length-loaded td b xs h))

-- Writing the three constants of a channel back, one of them replaced, changes that one alone.
written-loaded :
    (k : Constant) (b : ℕ) (v : List ℕ) (c : PidConstants) (xs : List ℕ)
    → IsFloats c
    → length v ≡ 4
    → b + 12 ≤ length xs
    → written b (with_constant k v (loaded b xs c)) xs ≡ splice (part k b) v xs
written-loaded kc b v c xs s n h =
    let t = constant_of-loaded ti b c xs s h in
    let d = constant_of-loaded td b c xs s h in
    let after = slice-splice_after b (4 + b) 4 v xs (omega arith) in
    let behind = slice-splice_after b (8 + b) 4 v xs (omega arith) in
    rw (t, d)
      (ap (λ l. splice (8 + b) (slice (8 + b) 4 xs) (splice (4 + b) l (splice b v xs))) (sym after)
        ∙ ap (splice (8 + b) (slice (8 + b) 4 xs)) (splice-slice_self (4 + b) 4 (splice b v xs))
        ∙ ap (λ l. splice (8 + b) l (splice b v xs)) (sym behind)
        ∙ splice-slice_self (8 + b) 4 (splice b v xs))
written-loaded ti b v c xs s n h =
    let t = constant_of-loaded kc b c xs s h in
    let d = constant_of-loaded td b c xs s h in
    let behind = slice-splice_after (4 + b) (8 + b) 4 v xs (omega arith) in
    rw (t, d)
      (ap (λ l. splice (8 + b) (slice (8 + b) 4 xs) (splice (4 + b) v l)) (splice-slice_self b 4 xs)
        ∙ ap (λ l. splice (8 + b) l (splice (4 + b) v xs)) (sym behind)
        ∙ splice-slice_self (8 + b) 4 (splice (4 + b) v xs))
written-loaded td b v c xs s n h =
    let t = constant_of-loaded kc b c xs s h in
    let d = constant_of-loaded ti b c xs s h in
    rw (t, d)
      (ap (λ l. splice (8 + b) v (splice (4 + b) (slice (4 + b) 4 xs) l)) (splice-slice_self b 4 xs)
        ∙ ap (splice (8 + b) v) (splice-slice_self (4 + b) 4 xs))

with_constant-IsFloats :
    (k : Constant) (b : ℕ) (v : List ℕ) (c : PidConstants) (xs : List ℕ)
    → IsFloats c
    → length v ≡ 4
    → b + 12 ≤ length xs
    → IsFloats (with_constant k v (loaded b xs c))
with_constant-IsFloats kc b v c xs s n h = record {
  kc_size = n;
  ti_size = ap length (constant_of-loaded ti b c xs s h) ∙ length-loaded ti b xs h;
  td_size = ap length (constant_of-loaded td b c xs s h) ∙ length-loaded td b xs h;
}
with_constant-IsFloats ti b v c xs s n h = record {
  kc_size = ap length (constant_of-loaded kc b c xs s h) ∙ length-loaded kc b xs h;
  ti_size = n;
  td_size = ap length (constant_of-loaded td b c xs s h) ∙ length-loaded td b xs h;
}
with_constant-IsFloats td b v c xs s n h = record {
  kc_size = ap length (constant_of-loaded kc b c xs s h) ∙ length-loaded kc b xs h;
  ti_size = ap length (constant_of-loaded ti b c xs s h) ∙ length-loaded ti b xs h;
  td_size = n;
}

module _ {C N W : Type 0} (scpi : Scpi C N) (os : Os W) (board : Board W) where
  -- The command that sets a setting, and the one that queries it.
  abbrev pub set_command : Setting → Locals → State C W → ScpiResult × State C W
  set_command att l = rffe_set_attenuation scpi os board
  set_command temp_ac l = rffe_set_temp_ac scpi os board l.ret
  set_command temp_bd l = rffe_set_temp_bd scpi os board l.ret
  set_command (pid ac kc) l = rffe_set_pid_kc_ac scpi os board l.ret l.ret' l.constants
  set_command (pid ac ti) l = rffe_set_pid_ti_ac scpi os board l.ret l.ret' l.constants
  set_command (pid ac td) l = rffe_set_pid_td_ac scpi os board l.ret l.ret' l.constants
  set_command (pid bd kc) l = rffe_set_pid_kc_bd scpi os board l.ret l.ret' l.constants
  set_command (pid bd ti) l = rffe_set_pid_ti_bd scpi os board l.ret l.ret' l.constants
  set_command (pid bd td) l = rffe_set_pid_td_bd scpi os board l.ret l.ret' l.constants

  abbrev pub query_command : Setting → Locals → State C W → ScpiResult × State C W
  query_command att l = rffe_get_attenuation scpi os board l.value
  query_command temp_ac l = rffe_get_temp_ac scpi os board l.ret l.value
  query_command temp_bd l = rffe_get_temp_bd scpi os board l.ret l.value
  query_command (pid ac kc) l = rffe_get_pid_kc_ac scpi os board l.ret l.constants
  query_command (pid ac ti) l = rffe_get_pid_ti_ac scpi os board l.ret l.constants
  query_command (pid ac td) l = rffe_get_pid_td_ac scpi os board l.ret l.constants
  query_command (pid bd kc) l = rffe_get_pid_kc_bd scpi os board l.ret l.constants
  query_command (pid bd ti) l = rffe_get_pid_ti_bd scpi os board l.ret l.constants
  query_command (pid bd td) l = rffe_get_pid_td_bd scpi os board l.ret l.constants

  -- What a set command stores, and what a query answers with.
  abbrev pub encode : Setting → N → List ℕ
  encode att v = scpi.ftob16 v
  encode _ v = scpi.to_float v

  abbrev pub decode : Setting → List ℕ → List ℕ
  decode att bs = scpi.b16tof bs
  decode _ bs = bs

  pub length-encode : HasSizes scpi → (q : Setting) (v : N) → length (encode q v) ≡ 4
  length-encode sizes att v = sizes.length-ftob16 v
  length-encode sizes temp_ac v = sizes.length-to_float v
  length-encode sizes temp_bd v = sizes.length-to_float v
  length-encode sizes (pid ch k) v = sizes.length-to_float v

  module _ (dev : IsDevice os cfg_file) (present : IsPresent os cfg_file)
      (isolated : IsBoard os board dev) (sizes : HasSizes scpi) where
    open dev use {contents}

    -- What the shared body of the six commands stores.
    pub set_constant_lem :
        (ch : Channel) (k : Constant) (ret ret' : ℤ) (junk : PidConstants) (v : List ℕ) (w : W)
        → IsFloats junk
        → length v ≡ 4
        → record_size ≤ length (contents w)
        → let (_, c, w1) = get_pid_of os cfg_file ch ret junk w in
          contents (set_pid_of os cfg_file ch ret' (with_constant k v c) w1).1
          ≡ splice (part k (base ch)) v (contents w)
    set_constant_lem ch k ret ret' junk v w s n h =
        let got = get_pid_of-loaded os cfg_file dev present ch ret junk w h in
        let same = get_pid_of-contents os cfg_file dev present ch ret junk w h in
        let room = base_fits ch (contents w) h in
        rw got (
          set_pid_of-written os cfg_file dev present ch ret' _ _
            (with_constant-IsFloats k (base ch) v junk (contents w) s n room) (rw same h)
          ∙ ap (written (base ch) (with_constant k v (loaded (base ch) (contents w) junk))) same
          ∙ written-loaded k (base ch) v junk (contents w) s n room)

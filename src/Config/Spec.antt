-- ===== src/Config/Spec.antt =====
-- What config_file.c and config_file.h promise: a record of settings, of which a setter replaces one
-- and a getter returns one. Nothing of this knows of bytes in a device, of offsets or of calls.
use rffe_uc_fw.Base.{ℕ, List, [], ◌∷◌, ℤ}
use rffe_uc_fw.Config.{PidConstants, EthAddrMode, TempCtrlMode, eth_mode_of_byte}
use rffe_uc_fw.Config.Fields.{
  Field, mac, ipv4, mask, gateway, attenuation, setpoint_ac, setpoint_bd,
}
use rffe_uc_fw.Config.Pid.{Channel, ac, bd}

pub record Settings : Type 0 where
  pub mac_addr : List ℕ
  pub ip_addr : List ℕ
  pub mask_addr : List ℕ
  pub gateway_addr : List ℕ
  pub att : List ℕ
  pub ac_setpoint : List ℕ
  pub bd_setpoint : List ℕ
  pub ac_constants : PidConstants
  pub bd_constants : PidConstants
  pub eth : EthAddrMode
  pub temp : TempCtrlMode
  pub version : List ℕ

-- The calls. A setter takes its value; a getter what the caller's variable holds before; both what
-- the locals hold that are not set (`ret`, a byte).
pub data Op : Type 0 where
  set_plain get_plain : Field → ℤ → List ℕ → Op
  set_constants get_constants : Channel → ℤ → PidConstants → Op
  set_eth : EthAddrMode → Op
  get_eth : (junk : ℕ) → EthAddrMode → Op
  set_temp : ℤ → TempCtrlMode → Op
  get_temp : ℤ → (junk : ℕ) → TempCtrlMode → Op
  set_version : ℕ → Op
  get_version : List ℕ → Op

-- What a getter stores in the caller's variable; a setter stores nothing.
pub data Answer : Type 0 where
  nothing : Answer
  bytes : List ℕ → Answer
  constants : PidConstants → Answer
  eth_mode : EthAddrMode → Answer
  temp_mode : TempCtrlMode → Answer

abbrev pub plain_of : Field → Settings → List ℕ
plain_of mac s = s.mac_addr
plain_of ipv4 s = s.ip_addr
plain_of mask s = s.mask_addr
plain_of gateway s = s.gateway_addr
plain_of attenuation s = s.att
plain_of setpoint_ac s = s.ac_setpoint
plain_of setpoint_bd s = s.bd_setpoint

abbrev pub with_plain : Field → List ℕ → Settings → Settings
with_plain mac v s = record s { mac_addr = v }
with_plain ipv4 v s = record s { ip_addr = v }
with_plain mask v s = record s { mask_addr = v }
with_plain gateway v s = record s { gateway_addr = v }
with_plain attenuation v s = record s { att = v }
with_plain setpoint_ac v s = record s { ac_setpoint = v }
with_plain setpoint_bd v s = record s { bd_setpoint = v }

abbrev pub constants_of : Channel → Settings → PidConstants
constants_of ac s = s.ac_constants
constants_of bd s = s.bd_constants

abbrev pub with_constants : Channel → PidConstants → Settings → Settings
with_constants ac c s = record s { ac_constants = c }
with_constants bd c s = record s { bd_constants = c }

-- The settings after a call, and its answer. `config_set_version` sets the mode of addressing.
abbrev pub after : Op → Settings → Settings
after (set_plain f ret v) s = with_plain f v s
after (set_constants ch ret c) s = with_constants ch c s
after (set_eth m) s = record s { eth = m }
after (set_temp ret m) s = record s { temp = m }
after (set_version v) s = record s { eth = eth_mode_of_byte v }
after _ s = s

abbrev pub answer : Op → Settings → Answer
answer (get_plain f ret out) s = bytes (plain_of f s)
answer (get_constants ch ret out) s = constants (constants_of ch s)
answer (get_eth junk old) s = eth_mode s.eth
answer (get_temp ret junk old) s = temp_mode s.temp
answer (get_version out) s = bytes s.version
answer _ s = nothing

-- The answers of a sequence of calls.
abbrev pub answers : List Op → Settings → List Answer
answers [] s = []
answers (o ∷ rest) s = answer o s ∷ answers rest (after o s)

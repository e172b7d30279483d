-- ===== src/Commands/Sim.antt =====
-- A small parser and a memory for the FERAM, for the examples. A number counts tenths.
use rffe_uc_fw.Base.{
  refl, List, ℕ, [], ◌∷◌, pos, Bool, true, false, replicate, ltb, length, if◌then◌else◌, ◌==◌,
  bytes_of_word,
}
use rffe_uc_fw.Device.Sim.{Memory, sim, sim-IsDevice}
use rffe_uc_fw.Config.{manual, none}
use rffe_uc_fw.Config.Transfers.{IsPresent}
use rffe_uc_fw.Commands.Interface.{ScpiError, Scpi, HasSizes, Board, GitVersion, State}
use rffe_uc_fw.Commands.{cfg_file}
use rffe_uc_fw.Commands.Settings.{IsBoard, Locals, IsLocals}

pub data Reply : Type 0 where
  float : List ℕ → Reply
  int32 : ℕ → Reply
  characters : List ℕ → Reply
  error : ScpiError → Reply

pub record Console : Type 0 where
  pub given : Bool
  pub num : ℕ
  pub yes : Bool
  pub text : List ℕ
  pub replies : List Reply

abbrev pub say : Reply → Console → Console
say r c = record c { replies = r ∷ c.replies }

abbrev pub parser : Scpi Console ℕ
parser = record {
  param_number = λ c. (c.given, c.num, c);
  param_bool = λ c. (c.given, c.yes, c);
  param_copy_text = λ n c. (c.given, c.text, c);
  result_float = λ x. say (float x);
  result_int32 = λ n. say (int32 n);
  result_characters = λ t. say (characters t);
  error_push = λ e. say (error e);
  to_float = bytes_of_word;
  is_above = λ a b. ltb b a;
  max_volts = 33;
  ftob16 = bytes_of_word;
  b16tof = λ bs. bs;
  inet_pton = λ t. (if length t == 4 then pos 1 else pos 0, t);
  inet_ntoa = λ bs. bs;
}

abbrev pub parser_sizes : HasSizes parser
parser_sizes = record { length-to_float = λ x. refl; length-ftob16 = λ x. refl }

abbrev pub idle : Board Memory
idle = record { set_att = λ fd att w. w; board_reset = λ w. w }

abbrev pub isolated : IsBoard sim idle (sim-IsDevice cfg_file)
isolated = record {
  open_any = λ path m w. refl;
  read_any = λ fd n w. refl;
  set_att-contents = λ fd att w. refl;
}

abbrev pub present : IsPresent sim cfg_file
present = λ m w. (3, refl)

abbrev pub four : List ℕ
four = 0 ∷ 0 ∷ 0 ∷ 0 ∷ []

abbrev pub locals : Locals
locals = record {
  ret = pos 5;
  ret' = pos 6;
  value = four;
  constants = record { kc = four; ti = four; td = four };
  local = 9;
  temp_mode = manual;
  eth_mode = none;
}

abbrev pub locals_sized : IsLocals locals
locals_sized = record {
  value_size = refl;
  constants_size = record { kc_size = refl; ti_size = refl; td_size = refl };
}

abbrev pub console : Console
console = record { given = true; num = 21; yes = true; text = 10 ∷ 0 ∷ 0 ∷ 7 ∷ []; replies = [] }

abbrev pub start : Console → State Console Memory
start c = record {
  context = c;
  world = record { bytes = replicate 256 7; at = 0; write_access = false };
  dac_ac = bytes_of_word 0;
  dac_bd = bytes_of_word 30;
}

abbrev pub version : GitVersion
version = record { apps_git_hash = []; nuttx_git_hash = []; rffe_git_hash = []; rffe_git_tag = [] }

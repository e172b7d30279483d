-- ===== src/Commands/Interface.antt =====
-- rffe-app/scpi_rffe_cmd.c: what the handlers of the SCPI commands work on. The SCPI parser, the
-- network functions and the conversions between numbers are libraries, and so are parameters.
use rffe_uc_fw.Base.{ℕ, ◌≡◌, Bool, List, ℤ, length}

-- The results SCPI_RES_OK and SCPI_RES_ERR.
pub data ScpiResult : Type 0 where
  res_ok res_err : ScpiResult

-- The errors that the handlers push.
pub data ScpiError : Type 0 where
  hardware_missing missing_parameter illegal_parameter_value : ScpiError

-- `C` is the context of the parser with its input and its output, `N` the type double. A float,
-- a b16_t and an in_addr_t are their four bytes, a string is its characters.
pub record Scpi (C N : Type 0) : Type 0 where
  -- Whether there is a parameter, and the parameter.
  pub param_number : C → Bool × N × C
  pub param_bool : C → Bool × Bool × C
  -- With the size of the buffer.
  pub param_copy_text : ℕ → C → Bool × List ℕ × C
  pub result_float : List ℕ → C → C
  pub result_int32 : ℕ → C → C
  pub result_characters : List ℕ → C → C
  pub error_push : ScpiError → C → C
  -- The cast from double to float, `>` on doubles, and the constant 3.3.
  pub to_float : N → List ℕ
  pub is_above : N → N → Bool
  pub max_volts : N
  pub ftob16 : N → List ℕ
  pub b16tof : List ℕ → List ℕ
  -- The result, and what is stored at the pointer.
  pub inet_pton : List ℕ → ℤ × List ℕ
  pub inet_ntoa : List ℕ → List ℕ

-- The sizes of the types float and b16_t.
pub record HasSizes {C N : Type 0} (scpi : Scpi C N) : Type 0 where
  pub length-to_float : (x : N) → length (scpi.to_float x) ≡ 4
  pub length-ftob16 : (x : N) → length (scpi.ftob16 x) ≡ 4

-- The calls of the target besides those on files: ioctl with RFIOC_SETATT, boardctl with
-- BOARDIOC_RESET.
pub record Board (W : Type 0) : Type 0 where
  pub set_att : ℤ → List ℕ → W → W
  pub board_reset : W → W

-- The four strings of git_version.h, which the build makes.
pub record GitVersion : Type 0 where
  pub apps_git_hash : List ℕ
  pub nuttx_git_hash : List ℕ
  pub rffe_git_hash : List ℕ
  pub rffe_git_tag : List ℕ

-- The context, the world outside, and the two floats that `user_context` points to.
pub record State (C W : Type 0) : Type 0 where
  pub context : C
  pub world : W
  pub dac_ac : List ℕ
  pub dac_bd : List ℕ

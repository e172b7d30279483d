-- ===== src/Commands/Bodies.antt =====
-- rffe-app/scpi_rffe_cmd.c: the bodies that several handlers share but for the accessor they call.
use rffe_uc_fw.Base.{
  ℕ, zero, suc, String, Bool, true, false, List, [], ◌∷◌, ℤ, pos, negsuc, is_neg, overlay,
  if◌then◌else◌,
}
use rffe_uc_fw.Device.Os.{read_only, read_write, Os}
use rffe_uc_fw.Config.{PidConstants}
use rffe_uc_fw.Commands.Interface.{
  ScpiResult, res_ok, res_err, hardware_missing, illegal_parameter_value, Scpi, State,
}

abbrev pub dac_file : String
dac_file = "/dev/dac0"

-- The float 0.
abbrev pub zero_float : List ℕ
zero_float = 0 ∷ 0 ∷ 0 ∷ 0 ∷ []

-- `fd > 0`
abbrev pub is_above_zero : ℤ → Bool
is_above_zero (pos zero) = false
is_above_zero (pos (suc n)) = true
is_above_zero (negsuc n) = false

-- `!x`
abbrev pub is_zero : ℤ → Bool
is_zero (pos zero) = true
is_zero (pos (suc n)) = false
is_zero (negsuc n) = false

module _ {C N W : Type 0} (scpi : Scpi C N) (os : Os W) where
  -- rffe_measure_temp_ac and rffe_measure_temp_bd
  unfoldable pub measure_temp : String → State C W → ScpiResult × State C W
  measure_temp path s =
      let (fd, w1) = os.open_file path read_only s.world in
      let (_, got, w2) = os.read_file fd 4 w1 in
      if is_above_zero fd
      then (
        res_ok,
        record s {
          world = os.close fd w2;
          context = scpi.result_float (scpi.b16tof (overlay got zero_float)) s.context;
        },
      )
      else (
        res_err,
        record s {
          world = w1;
          context = scpi.error_push hardware_missing (scpi.result_float zero_float s.context);
        },
      )

  -- A handler that stores its number with `set`.
  unfoldable pub set_number : (set : List ℕ → W → W) → State C W → ScpiResult × State C W
  set_number set s =
      let (given, par, c1) = scpi.param_number s.context in
      if given
      then (res_ok, record s { world = set (scpi.to_float par) s.world; context = c1 })
      else (res_err, record s { context = c1 })

  -- A handler that replaces one of the three constants of a channel.
  unfoldable pub set_pid_constant :
      (get : W → ℤ × PidConstants × W)
      → (set : PidConstants → W → ℤ × W) → (replace : List ℕ → PidConstants → PidConstants)
      → State C W
      → ScpiResult × State C W
  set_pid_constant get set replace s =
      let (given, par, c1) = scpi.param_number s.context in
      let (_, constants, w1) = get s.world in
      if given
      then (
        res_ok,
        record s { world = (set (replace (scpi.to_float par) constants) w1).1; context = c1 },
      )
      else (res_err, record s { context = c1 })

  -- A handler that answers with a float.
  unfoldable pub reply_float : List ℕ → W → State C W → ScpiResult × State C W
  reply_float value w1 s =
      (res_ok, record s { world = w1; context = scpi.result_float value s.context })

  -- A handler that answers with 0 or 1.
  unfoldable pub reply_flag : Bool → W → State C W → ScpiResult × State C W
  reply_flag flag w1 s = (
    res_ok,
    record s { world = w1; context = scpi.result_int32 (if flag then 1 else 0) s.context },
  )

  -- A handler that takes a flag.
  unfoldable pub set_flag : (set : Bool → W → W) → State C W → ScpiResult × State C W
  set_flag set s =
      let (given, value, c1) = scpi.param_bool s.context in
      if given
      then (res_ok, record s { world = set value s.world; context = c1 })
      else (res_err, record s { context = c1 })

  -- A handler that stores its number with `put` as the voltage of an output.
  unfoldable pub set_dac_output :
      (put : List ℕ → State C W → State C W) → State C W → ScpiResult × State C W
  set_dac_output put s =
      let (fd, w1) = os.open_file dac_file read_write s.world in
      let (given, par, c1) = scpi.param_number s.context in
      if is_neg fd
      then (
        res_err,
        record s {
          world = w1;
          context = scpi.error_push hardware_missing (scpi.result_float zero_float s.context);
        },
      )
      else if given
      then (if scpi.is_above par scpi.max_volts
          then (
            res_err,
            record s {
              world = os.close fd w1;
              context = scpi.error_push illegal_parameter_value c1;
            },
          )
          else (
            res_ok,
            put (scpi.to_float par) (record s { world = os.close fd w1; context = c1 }),
          ))
      else (res_err, record s { world = os.close fd w1; context = c1 })

  -- A handler that takes an address as a text; `junk` is what the variable for it holds before.
  unfoldable pub set_address :
      (set : List ℕ → W → W) → (junk : List ℕ) → State C W → ScpiResult × State C W
  set_address set junk s =
      let (given, buf, c1) = scpi.param_copy_text 32 s.context in
      let (valid_ip, addr) = scpi.inet_pton buf in
      if given
      then (if is_zero valid_ip
          then (res_ok, record s { context = c1 })
          else (res_ok, record s { world = set (overlay addr junk) s.world; context = c1 }))
      else (res_err, record s { context = c1 })

  -- A handler that answers with an address as a text.
  unfoldable pub reply_address : List ℕ → W → State C W → ScpiResult × State C W
  reply_address addr w1 s = (
    res_ok,
    record s { world = w1; context = scpi.result_characters (scpi.inet_ntoa addr) s.context },
  )

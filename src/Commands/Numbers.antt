-- ===== src/Commands/Numbers.antt =====
-- scpi_rffe_cmd.c: what a command that sets a number and one that queries it do to the record.
use rffe_uc_fw.Base.{
  ◌≤◌, ◌≡◌, refl, sym, ap, ◌∙◌, true, pos, length, overlay_full, slice, splice, length-slice, arith,
}
use rffe_uc_fw.Device.Os.{read_only, Os, IsDevice}
use rffe_uc_fw.Config.Transfers.{IsPresent}
use rffe_uc_fw.Config.Fields.{
  Field, attenuation, setpoint_ac, setpoint_bd, record_size, offset_of, size_of, in_record,
  get_field, get_field-slice, set_field-splice,
}
use rffe_uc_fw.Config.Pid.{
  Channel, ac, bd, get_pid_of, set_pid_of, base, base_fits, get_pid_of-loaded, get_pid_of-contents,
}
use rffe_uc_fw.Commands.Interface.{res_ok, Scpi, HasSizes, Board, State}
use rffe_uc_fw.Commands.Bodies.{set_number, set_pid_constant, reply_float}
use rffe_uc_fw.Commands.{
  cfg_file, rffe_set_attenuation, rffe_get_attenuation, rffe_set_temp_ac, rffe_get_temp_ac,
  rffe_set_temp_bd, rffe_get_temp_bd, rffe_set_pid_kc_ac, rffe_get_pid_kc_ac, rffe_set_pid_ti_ac,
  rffe_get_pid_ti_ac, rffe_set_pid_td_ac, rffe_get_pid_td_ac, rffe_set_pid_kc_bd,
  rffe_get_pid_kc_bd, rffe_set_pid_ti_bd, rffe_get_pid_ti_bd, rffe_set_pid_td_bd,
  rffe_get_pid_td_bd,
}
use rffe_uc_fw.Commands.Settings.{
  IsBoard, Constant, kc, ti, td, Setting, att, temp_ac, temp_bd, pid, Locals, IsLocals, place, part,
  with_constant, constant_of, constant_of-loaded, set_command, query_command, encode, decode,
  set_constant_lem,
}

module _ {C N W : Type 0} (scpi : Scpi C N) (os : Os W) (board : Board W)
    (dev : IsDevice os cfg_file) (present : IsPresent os cfg_file) (isolated : IsBoard os board dev)
    (sizes : HasSizes scpi) where
  open dev use {contents}

  pid_set :
      (ch : Channel) (k : Constant) (l : Locals) (s : State C W) (v : N)
      → IsLocals l
      → record_size ≤ length (contents s.world)
      → let (_, c, w1) = get_pid_of os cfg_file ch l.ret l.constants s.world in
        contents (set_pid_of os cfg_file ch l.ret' (with_constant k (scpi.to_float v) c) w1).1
        ≡ splice (part k (base ch)) (scpi.to_float v) (contents s.world)
  pid_set ch k l s v loc h =
      set_constant_lem scpi os board dev present isolated sizes ch k l.ret l.ret' l.constants
        (scpi.to_float v) s.world loc.constants_size (sizes.length-to_float v) h

  -- A set command that has its number.
  pub set_command_lem :
      (q : Setting) (l : Locals) (s : State C W) (v : N) (c1 : C)
      → scpi.param_number s.context ≡ (true, v, c1)
      → IsLocals l
      → record_size ≤ length (contents s.world)
      → let (result, s') = set_command scpi os board q l s in
        (result ≡ res_ok)
        × (s'.context ≡ c1)
        × (contents s'.world ≡ splice (place q) (encode scpi os board q v) (contents s.world))
  unfolding rffe_set_attenuation rffe_set_temp_ac rffe_set_temp_bd rffe_set_pid_kc_ac
      rffe_set_pid_ti_ac rffe_set_pid_td_ac rffe_set_pid_kc_bd rffe_set_pid_ti_bd rffe_set_pid_td_bd
      set_number set_pid_constant
  set_command_lem att l s v c1 given loc h =
      let w1 = (os.open_file "/dev/att0" read_only s.world).1 in
      let fd = (os.open_file "/dev/att0" read_only s.world).0 in
      let same =
        dev.close-contents fd (board.set_att fd (scpi.ftob16 v) w1)
        ∙ isolated.set_att-contents fd (scpi.ftob16 v) w1
        ∙ isolated.open_any "/dev/att0" read_only s.world in
      rw given (
        refl,
        refl,
        set_field-splice os cfg_file dev present attenuation (pos 0) (scpi.ftob16 v) _ (rw same h)
              (sizes.length-ftob16 v)
            ∙ ap (splice 64 (scpi.ftob16 v)) same,
      )
  set_command_lem temp_ac l s v c1 given loc h = rw given (
    refl,
    refl,
    set_field-splice os cfg_file dev present setpoint_ac l.ret (scpi.to_float v) s.world h
        (sizes.length-to_float v),
  )
  set_command_lem temp_bd l s v c1 given loc h = rw given (
    refl,
    refl,
    set_field-splice os cfg_file dev present setpoint_bd l.ret (scpi.to_float v) s.world h
        (sizes.length-to_float v),
  )
  set_command_lem (pid ac kc) l s v c1 given loc h =
      rw given (refl, refl, pid_set ac kc l s v loc h)
  set_command_lem (pid ac ti) l s v c1 given loc h =
      rw given (refl, refl, pid_set ac ti l s v loc h)
  set_command_lem (pid ac td) l s v c1 given loc h =
      rw given (refl, refl, pid_set ac td l s v loc h)
  set_command_lem (pid bd kc) l s v c1 given loc h =
      rw given (refl, refl, pid_set bd kc l s v loc h)
  set_command_lem (pid bd ti) l s v c1 given loc h =
      rw given (refl, refl, pid_set bd ti l s v loc h)
  set_command_lem (pid bd td) l s v c1 given loc h =
      rw given (refl, refl, pid_set bd td l s v loc h)

  pid_query :
      (ch : Channel) (k : Constant) (l : Locals) (w : W)
      → IsLocals l
      → record_size ≤ length (contents w)
      → (constant_of k (get_pid_of os cfg_file ch l.ret l.constants w).1
          ≡ slice (part k (base ch)) 4 (contents w))
        × (contents (get_pid_of os cfg_file ch l.ret l.constants w).2 ≡ contents w)
  pid_query ch k l w loc h = (
    ap (constant_of k) (get_pid_of-loaded os cfg_file dev present ch l.ret l.constants w h)
        ∙ constant_of-loaded k (base ch) l.constants (contents w) loc.constants_size
            (base_fits ch (contents w) h),
    get_pid_of-contents os cfg_file dev present ch l.ret l.constants w h,
  )

  field_query :
      (f : Field) (l : Locals) (w : W)
      → size_of f ≡ 4
      → IsLocals l
      → record_size ≤ length (contents w)
      → ((get_field os cfg_file f l.ret l.value w).1 ≡ slice (offset_of f) 4 (contents w))
        × (contents (get_field os cfg_file f l.ret l.value w).2 ≡ contents w)
  field_query f l w n loc h =
      let (got, same) = get_field-slice os cfg_file dev present f l.ret l.value w h in
      let room = length-slice (offset_of f) (size_of f) (contents w) (omega (arith, in_record f)) in
      (
        got
            ∙ overlay_full _ l.value (loc.value_size ∙ sym n ∙ sym room)
            ∙ ap (λ k. slice (offset_of f) k (contents w)) n,
        same,
      )

  -- A query answers with the four bytes at the place of its setting, and changes nothing.
  pub query_command_lem :
      (q : Setting) (l : Locals) (s : State C W)
      → IsLocals l
      → record_size ≤ length (contents s.world)
      → let (result, s') = query_command scpi os board q l s in
        (result ≡ res_ok)
        × (s'.context
            ≡ scpi.result_float
                (decode scpi os board q (slice (place q) 4 (contents s.world)))
                s.context)
        × (contents s'.world ≡ contents s.world)
  unfolding rffe_get_attenuation rffe_get_temp_ac rffe_get_temp_bd rffe_get_pid_kc_ac
      rffe_get_pid_ti_ac rffe_get_pid_td_ac rffe_get_pid_kc_bd rffe_get_pid_ti_bd rffe_get_pid_td_bd
      reply_float
  query_command_lem att l s loc h =
      let (got, same) = field_query attenuation l s.world refl loc h in
      (refl, ap (λ x. scpi.result_float (scpi.b16tof x) s.context) got, same)
  query_command_lem temp_ac l s loc h =
      let (got, same) = field_query setpoint_ac l s.world refl loc h in
      (refl, ap (λ x. scpi.result_float x s.context) got, same)
  query_command_lem temp_bd l s loc h =
      let (got, same) = field_query setpoint_bd l s.world refl loc h in
      (refl, ap (λ x. scpi.result_float x s.context) got, same)
  query_command_lem (pid ac kc) l s loc h =
      let (got, same) = pid_query ac kc l s.world loc h in
      (refl, ap (λ x. scpi.result_float x s.context) got, same)
  query_command_lem (pid ac ti) l s loc h =
      let (got, same) = pid_query ac ti l s.world loc h in
      (refl, ap (λ x. scpi.result_float x s.context) got, same)
  query_command_lem (pid ac td) l s loc h =
      let (got, same) = pid_query ac td l s.world loc h in
      (refl, ap (λ x. scpi.result_float x s.context) got, same)
  query_command_lem (pid bd kc) l s loc h =
      let (got, same) = pid_query bd kc l s.world loc h in
      (refl, ap (λ x. scpi.result_float x s.context) got, same)
  query_command_lem (pid bd ti) l s loc h =
      let (got, same) = pid_query bd ti l s.world loc h in
      (refl, ap (λ x. scpi.result_float x s.context) got, same)
  query_command_lem (pid bd td) l s loc h =
      let (got, same) = pid_query bd td l s.world loc h in
      (refl, ap (λ x. scpi.result_float x s.context) got, same)

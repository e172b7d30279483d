-- ===== src/Config/Tests.antt =====
-- The theorems about config_file.c at a memory of 256 bytes, and runs of the accessors.
use rffe_uc_fw.Base.{
  ◌≡◌, refl, List, ℕ, [], ◌∷◌, pos, negsuc, ◌+ℤ◌, ◌+int◌, ◌↔◌, ◌-◌, ◌^◌, ◌≤ℤ◌, String, false,
  replicate, arith,
}
use rffe_uc_fw.Device.Sim.{Memory, sim, sim-IsDevice}
use rffe_uc_fw.Config.Transfers.{IsPresent}
use rffe_uc_fw.Config.{
  PidConstants, static, none, manual, automatic, config_get_version, config_set_version,
  config_get_eth_addressing, eth_mode_of_byte,
}
use rffe_uc_fw.Config.Fields.{gateway, get_field, set_field}
use rffe_uc_fw.Config.Modes.{set_version_misplaced}
use rffe_uc_fw.Config.Pid.{ac, bd, IsFloats, get_pid_of, get_pid_of-status}
use rffe_uc_fw.Config.Errors.{field_status}
use rffe_uc_fw.Config.Spec.{
  Op, set_plain, get_plain, set_constants, set_temp, get_temp, set_version, get_eth, answers,
}
use rffe_uc_fw.Config.View.{view}
use rffe_uc_fw.Config.Refine.{perform_all, perform_all_refines}

abbrev feram : Memory
feram = record { bytes = replicate 256 7; at = 0; write_access = false }

abbrev path : String
path = "/dev/feram0"

abbrev present : IsPresent sim path
present = λ m w. (3, refl)

abbrev address : List ℕ
address = 10 ∷ 20 ∷ 30 ∷ 40 ∷ []

abbrev scratch : List ℕ
scratch = 0 ∷ 0 ∷ 0 ∷ 0 ∷ []

abbrev constants : PidConstants
constants = record { kc = 1 ∷ 2 ∷ 3 ∷ 4 ∷ []; ti = 5 ∷ 6 ∷ 7 ∷ 8 ∷ []; td = 9 ∷ 8 ∷ 7 ∷ 6 ∷ [] }

abbrev blank : PidConstants
blank = record { kc = scratch; ti = scratch; td = scratch }

abbrev calls : List Op
calls =
    set_plain gateway (pos 0) address
    ∷ set_constants bd (negsuc 99) constants
    ∷ set_temp (negsuc 4) automatic
    ∷ set_version 1
    ∷ get_plain gateway (pos 3) scratch
    ∷ get_temp (pos 0) 9 manual
    ∷ get_eth 5 none
    ∷ []

abbrev floats : IsFloats constants
floats = record { kc_size = refl; ti_size = refl; td_size = refl }

perform_all_refines_example :
    perform_all sim path calls feram ≡ answers calls (view ((sim-IsDevice path).contents feram))
perform_all_refines_example =
    perform_all_refines sim path (sim-IsDevice path) present calls feram
      (refl, (floats, (tt, (tt, (refl, (tt, (tt, tt))))))) (omega arith)

set_version_misplaced_example :
    let w' = (config_set_version sim path 1 feram).1 in
    ((config_set_version sim path 1 feram).0 ≡ pos 0)
    × ((config_get_version sim path (0 ∷ []) w').1 ≡ (config_get_version sim path (0 ∷ []) feram).1)
    × ((config_get_eth_addressing sim path 0 static w').1 ≡ eth_mode_of_byte 1)
set_version_misplaced_example =
    set_version_misplaced sim path (sim-IsDevice path) present 1 0 static (0 ∷ []) feram
      (omega arith)

-- With -100 in the uninitialised `ret`, three complete reads are reported as -88.
get_pid_of-status_example :
    let (status, _, _) = get_pid_of sim path ac (negsuc 99) blank feram in
    (status ≡ negsuc 87)
    × ((status ≡ pos 0) ↔ ((negsuc 11 ≤ℤ negsuc 99) × (negsuc 99 ≤ℤ pos (2 ^ 31 - 13))))
unfolding ◌+ℤ◌ ◌+int◌
get_pid_of-status_example =
    get_pid_of-status sim path (sim-IsDevice path) present ac (negsuc 99) blank feram
      (omega arith, omega arith) (omega arith)

field_status_example :
    ((get_field sim path gateway (pos 0) scratch feram).0 ≤ℤ pos 0)
    × ((set_field sim path gateway (pos 0) scratch feram).0 ≤ℤ pos 0)
field_status_example = field_status sim path gateway (pos 0) scratch feram

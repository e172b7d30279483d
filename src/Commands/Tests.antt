-- ===== src/Commands/Tests.antt =====
-- The theorems about scpi_rffe_cmd.c with the parser of Commands.Sim, and runs of the commands.
use rffe_uc_fw.Base.{refl, List, [], ◌∷◌, false}
use rffe_uc_fw.Device.Sim.{sim, sim-IsDevice}
use rffe_uc_fw.Config.Pid.{ac, bd}
use rffe_uc_fw.Commands.{cfg_file}
use rffe_uc_fw.Commands.Settings.{att, Locals}
use rffe_uc_fw.Commands.All.{Command, set, number, output, reset, execute_set, execute_all}
use rffe_uc_fw.Commands.Limits.{AreAllowed, execute_all-AreAllowed}
use rffe_uc_fw.Commands.Refused.{IsRefused, execute_set-IsRefused}
use rffe_uc_fw.Commands.Sim.{Console, parser, idle, isolated, locals, console, start, version}

abbrev silent : Console
silent = record console { given = false }

abbrev garbled : Console
garbled = record console { text = 1 ∷ [] }

abbrev commands : List (Command × Locals)
commands = (set (output bd), locals) ∷ (set (number att), locals) ∷ (reset, locals) ∷ []

execute_all-AreAllowed_example :
    AreAllowed parser sim idle version
      (execute_all parser sim idle version commands (start (record console { num = 99 })))
execute_all-AreAllowed_example =
    execute_all-AreAllowed parser sim idle version commands (start (record console { num = 99 }))
      ((0, refl, refl), (30, refl, refl))

execute_set-IsRefused_example :
    IsRefused parser sim idle version
      (sim-IsDevice cfg_file)
      isolated
      (start silent)
      (execute_set parser sim idle version (output ac) locals (start silent))
execute_set-IsRefused_example =
    execute_set-IsRefused parser sim idle version (sim-IsDevice cfg_file) isolated (output ac)
      locals (start silent) (record { no_num = refl; no_flag = refl; no_text = refl })

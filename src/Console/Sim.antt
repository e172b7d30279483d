-- ===== src/Console/Sim.antt =====
-- A small C library for the examples: sscanf finds six numbers in every text.
use rffe_uc_fw.Base.{[], ◌∷◌, pos, length, if◌then◌else◌, ◌==◌}
use rffe_uc_fw.Config.{none}
use rffe_uc_fw.Commands.Sim.{four}
use rffe_uc_fw.Console.{Library, Stack}
use rffe_uc_fw.Console.Mac.{six}

abbrev pub library : Library
library = record {
  inet_pton = λ t. (if length t == 4 then pos 1 else pos 0, t);
  inet_ntoa = λ bs. bs;
  scan_mac = λ t. (pos 6, six 1 2 3 4 5 300);
  scan_float = λ t. (pos 1, t);
  ftob16 = λ x. x;
  b16tof = λ x. x;
}

abbrev pub stack : Stack
stack = record {
  addr = four;
  mac = 9 ∷ 9 ∷ 9 ∷ 9 ∷ 9 ∷ 9 ∷ [];
  behind = 8 ∷ 8 ∷ 8 ∷ [];
  eth_mode = none;
  byte = 5;
  att = four;
  num = four;
}

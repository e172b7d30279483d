-- ===== src/Board/Tests.antt =====
-- The theorems about the board with a handler that two others interrupt, and with an LM71.
use rffe_uc_fw.Base.{◌≡◌, refl, [], ◌∷◌, true, false, pos}
use rffe_uc_fw.Board.{
  Autoled, Pins, on, off, board_autoled_initialize, board_autoled_off, mbed_heartbeat, status_led_g,
  run_calls, board_autoled_on, board_userled_all,
}
use rffe_uc_fw.Board.Nested.{
  led_inirq, led_signal, Nest, quiet, handled, calls, IsShown, calls-restored,
}
use rffe_uc_fw.Board.Init.{Bench}

abbrev low : Pins
low = λ q. false

-- Before the boot.
abbrev reset_state : Autoled
reset_state = record { g_initialized = false; g_nestcount = 0; pins = board_autoled_initialize low }

-- The states of the boot and a first interrupt, which ends.
abbrev booted : Autoled
booted = run_calls (on 0 ∷ on 1 ∷ on 2 ∷ on 3 ∷ on 4 ∷ off 4 ∷ []) reset_state

booted-IsShown : IsShown booted
unfolding run_calls board_autoled_on board_autoled_off
booted-IsShown = record { booted = refl; shown = refl }

abbrev nest : Nest
nest = handled led_signal (handled led_inirq quiet (handled led_inirq quiet quiet)) quiet

calls-restored_example : run_calls (calls nest) booted ≡ booted
calls-restored_example = calls-restored nest booted booted-IsShown

-- The pin is low in a handler.
lit_in_handler : (board_autoled_on 4 booted).pins mbed_heartbeat ≡ false
unfolding run_calls board_autoled_on board_autoled_off
lit_in_handler = refl

-- What the SCPI server stores while it has a client.
green_lit : board_userled_all 2 low status_led_g ≡ true
green_lit = refl

abbrev bench : Bench
bench = record { i2c0 = true; i2c1 = false; block = λ n. (0x80, 0x0F); result = λ path. pos 0 }

-- ===== src/Board.antt =====
-- rffe-board/src/lpc17_40_leds.c, lpc17_40_userleds.c and the pins of mbed.h. The levels of the pins
-- are a function of their number, 32 times the port and the pin. The LEDs are those of a build with
-- CONFIG_ARCH_LEDS. `g_nestcount` is never negative, since board_autoled_off lowers it above 1 only.
pub mod Nested
pub mod Init
mod Tests
use rffe_uc_fw.Base.{
  ℕ, zero, suc, ◌+◌, ◌*◌, ◌-◌, Bool, true, false, ◌||◌, List, [], ◌∷◌, ◌==◌, leb, if◌then◌else◌,
  bit_and, not,
}

abbrev pub gpio : ℕ → ℕ → ℕ
gpio port pin = 32 * port + pin

abbrev pub mbed_led1 : ℕ
mbed_led1 = gpio 1 18

abbrev pub mbed_led2 : ℕ
mbed_led2 = gpio 1 20

abbrev pub mbed_led3 : ℕ
mbed_led3 = gpio 1 21

abbrev pub mbed_heartbeat : ℕ
mbed_heartbeat = gpio 1 23

abbrev pub status_led_g : ℕ
status_led_g = gpio 1 30

abbrev pub status_led_r : ℕ
status_led_r = gpio 1 31

abbrev pub Pins : Type 0
Pins = ℕ → Bool

abbrev pub gpiowrite : ℕ → Bool → Pins → Pins
gpiowrite p v pins = λ q. if q == p then v else pins q

-- The statics of lpc17_40_leds.c, with the pins.
pub record Autoled : Type 0 where
  pub g_initialized : Bool
  pub g_nestcount : ℕ
  pub pins : Pins

-- lpc17_40_configgpio of the four pins, none of which has GPIO_VALUE_ONE.
abbrev pub board_autoled_initialize : Pins → Pins
board_autoled_initialize pins =
    gpiowrite mbed_heartbeat false
      (gpiowrite mbed_led3 false (gpiowrite mbed_led2 false (gpiowrite mbed_led1 false pins)))

abbrev pub led_heapallocate : ℕ
led_heapallocate = 1

abbrev pub led_irqsenabled : ℕ
led_irqsenabled = 2

abbrev pub led_stackcreated : ℕ
led_stackcreated = 3

-- LED_INIRQ, LED_SIGNAL, LED_ASSERTION and LED_PANIC.
abbrev pub is_momentary : ℕ → Bool
is_momentary led = (led == 4) || ((led == 5) || ((led == 6) || (led == 7)))

-- The first half of board_autoled_on.
abbrev show_boot : ℕ → Autoled → Autoled
show_boot led s = if s.g_initialized then s else record s {
  g_initialized = led == led_stackcreated;
  pins =
      gpiowrite mbed_led2 (led == led_irqsenabled)
        (gpiowrite mbed_led1 (led == led_heapallocate) s.pins);
}

pub board_autoled_on : ℕ → Autoled → Autoled
board_autoled_on led s =
    let s1 = show_boot led s in
    if is_momentary led
    then record s1 {
      g_nestcount = s1.g_nestcount + 1;
      pins = gpiowrite mbed_heartbeat false s1.pins;
    }
    else s1

pub board_autoled_off : ℕ → Autoled → Autoled
board_autoled_off led s =
    if leb s.g_nestcount 1
    then record s { g_nestcount = 0; pins = gpiowrite mbed_heartbeat true s.pins }
    else record s { g_nestcount = s.g_nestcount - 1 }

pub data LedCall : Type 0 where
  on : ℕ → LedCall
  off : ℕ → LedCall

pub run_calls : List LedCall → Autoled → Autoled
unfolding board_autoled_on board_autoled_off
run_calls [] s = s
run_calls (on led ∷ cs) s = run_calls cs (board_autoled_on led s)
run_calls (off led ∷ cs) s = run_calls cs (board_autoled_off led s)

abbrev pub board_userled_initialize : Pins → Pins
board_userled_initialize pins = gpiowrite status_led_g false (gpiowrite status_led_r false pins)

-- `(ledset & 0x01) != 0` and `(ledset & 0x02) != 0`
abbrev pub board_userled_all : ℕ → Pins → Pins
board_userled_all ledset pins =
    gpiowrite status_led_g (not (bit_and ledset 2 == 0))
      (gpiowrite status_led_r (not (bit_and ledset 1 == 0)) pins)

abbrev pub board_userled : ℕ → Bool → Pins → Pins
board_userled led ledon pins =
    if led == 0
    then gpiowrite status_led_r ledon pins
    else if led == 1
    then gpiowrite status_led_g ledon pins
    else pins

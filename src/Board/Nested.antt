-- ===== src/Board/Nested.antt =====
-- lpc17_40_leds.c: the calls that handlers of interrupts and signals make when they nest.
use rffe_uc_fw.Base.{
  ℕ, ◌+◌, ◌-◌, ◌≡◌, refl, sym, ap, ◌∙◌, inl, inr, Bool, true, false, List, [], ◌∷◌, ◌++◌, ◌==◌, leb,
  Bool-cases, arith,
}
use mathlib.Core.Path.{fun_ext}
use rffe_uc_fw.Board.{
  Pins, gpiowrite, mbed_heartbeat, Autoled, LedCall, on, off, run_calls, board_autoled_on,
  board_autoled_off,
}

pub data Momentary : Type 0 where
  led_inirq : Momentary
  led_signal : Momentary
  led_assertion : Momentary
  led_panic : Momentary

abbrev pub led_code : Momentary → ℕ
led_code led_inirq = 4
led_code led_signal = 5
led_code led_assertion = 6
led_code led_panic = 7

-- Handlers one after the other, each with those that interrupt it.
pub data Nest : Type 0 where
  quiet : Nest
  handled : Momentary → Nest → Nest → Nest

abbrev pub calls : Nest → List LedCall
calls quiet = []
calls (handled led inner rest) =
    on (led_code led) ∷ (calls inner ++ (off (led_code led) ∷ calls rest))

-- The boot has ended, and the pin of the heartbeat is high if no handler runs.
pub record IsShown (s : Autoled) : Type 0 where
  pub booted : s.g_initialized ≡ true
  pub shown : s.pins mbed_heartbeat ≡ (s.g_nestcount == 0)

abbrev entered : Autoled → Autoled
entered s = record s {
  g_nestcount = s.g_nestcount + 1;
  pins = gpiowrite mbed_heartbeat false s.pins;
}

on-entered :
    (led : Momentary) (s : Autoled) → IsShown s → board_autoled_on (led_code led) s ≡ entered s
unfolding board_autoled_on
on-entered led_inirq s ok = rw ok.booted refl
on-entered led_signal s ok = rw ok.booted refl
on-entered led_assertion s ok = rw ok.booted refl
on-entered led_panic s ok = rw ok.booted refl

entered-IsShown : (s : Autoled) → IsShown s → IsShown (entered s)
entered-IsShown s ok = record { booted = ok.booted; shown = ground arith }

-- Two writes of a pin, the second of which stores the level that it had.
rewritten :
    (p : ℕ) (v w : Bool) (pins : Pins) → pins p ≡ w → gpiowrite p w (gpiowrite p v pins) ≡ pins
rewritten p v w pins e = fun_ext (λ q. level q)
  where
    level : (q : ℕ) → gpiowrite p w (gpiowrite p v pins) q ≡ pins q
    level q = ground arith

-- A write of the level that a pin has.
kept : (p : ℕ) (w : Bool) (pins : Pins) → pins p ≡ w → gpiowrite p w pins ≡ pins
kept p w pins e = fun_ext (λ q. level q)
  where
    level : (q : ℕ) → gpiowrite p w pins q ≡ pins q
    level q = ground arith

abbrev with_leds : Autoled → ℕ → Pins → Autoled
with_leds s n pins = record s { g_nestcount = n; pins = pins }

off-entered : (led : ℕ) (s : Autoled) → IsShown s → board_autoled_off led (entered s) ≡ s
unfolding board_autoled_off
off-entered led s ok = elim (Bool-cases (s.g_nestcount == 0)) [
  | inl none ↦
      let e : s.g_nestcount ≡ 0 = ground arith in
      let last : leb (s.g_nestcount + 1) 1 ≡ true = ground arith in
      rw last refl
      ∙ (ap (with_leds s 0) (rewritten mbed_heartbeat false true s.pins (ok.shown ∙ none))
          ∙ ap (λ n. with_leds s n s.pins) (sym e))
  | inr some ↦
      let others : leb (s.g_nestcount + 1) 1 ≡ false = ground arith in
      let e : (s.g_nestcount + 1) - 1 ≡ s.g_nestcount = omega arith in
      rw others refl
      ∙ (ap (with_leds s ((s.g_nestcount + 1) - 1))
            (kept mbed_heartbeat false s.pins (ok.shown ∙ some))
          ∙ ap (λ n. with_leds s n s.pins) e)
]

run_calls-append :
    (xs ys : List LedCall) (s : Autoled) → run_calls (xs ++ ys) s ≡ run_calls ys (run_calls xs s)
unfolding run_calls
run_calls-append [] ys s = refl
run_calls-append (on led ∷ xs) ys s = run_calls-append xs ys (board_autoled_on led s)
run_calls-append (off led ∷ xs) ys s = run_calls-append xs ys (board_autoled_off led s)

-- Once the boot has ended, and with the heartbeat shown if and only if a handler runs, handlers that
-- follow and interrupt each other in any way leave the count and the levels of all pins as they were.
pub calls-restored : (ns : Nest) (s : Autoled) → IsShown s → run_calls (calls ns) s ≡ s
unfolding run_calls
calls-restored quiet s ok = refl
calls-restored (handled led inner rest) s ok =
    let rest_calls = off (led_code led) ∷ calls rest in
    let inside = calls-restored inner (entered s) (entered-IsShown s ok) in
    ap (run_calls (calls inner ++ rest_calls)) (on-entered led s ok)
    ∙ (run_calls-append (calls inner) rest_calls (entered s)
        ∙ (ap (run_calls rest_calls) inside
            ∙ (ap (run_calls (calls rest)) (off-entered (led_code led) s ok)
                ∙ calls-restored rest s ok)))

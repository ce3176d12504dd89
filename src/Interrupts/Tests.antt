-- ===== src/Interrupts/Tests.antt =====
-- The interrupts at concrete levels: a handler on pin 4 that asks for the falling edge.
use ras_pi_arduino.Prelude.{member}
use ras_pi_arduino.Prelude.{ℕ, ◌+◌, ◌^◌, ◌<◌, ◌≡◌, refl, arith, true, false, not, ◌&&◌, none, some}
use ras_pi_arduino.Prelude.{[], ◌∷◌, ◌==◌, if◌then◌else◌}
use ras_pi_arduino.Prelude.Bits.{test_bit}
use ras_pi_arduino.Gpio.{digital_read}
use ras_pi_arduino.Interrupts.{shifted_one, wide_bit, levels, scan, starts}
use ras_pi_arduino.Interrupts.{
  Watch, idle, falling, attach_interrupt, detach_interrupt, pass, has_fn,
}
use ras_pi_arduino.Interrupts.Scan.{pick}
use ras_pi_arduino.Interrupts.Edges.{any_from, is_edge, pass-edges}
use ras_pi_arduino.Interrupts.Calls.{fires, asks, want, Reach, start, attached}
use ras_pi_arduino.Interrupts.Calls.{fires-Reach, fires-pass_twice}

abbrev beyond : ℕ → ℕ
beyond pin = 0

abbrev listening : Watch
listening = attach_interrupt beyond 16 0 4 7 falling idle

listening_reached : Reach beyond (want 4 (some (falling, 7)) (λ _. none)) listening
listening_reached = attached 16 0 4 7 falling (omega arith) start

-- The level falls: the handler runs.
falls : (pass 0 0 listening).0 ≡ some (4 ∷ [])
unfolding attach_interrupt idle pass shifted_one wide_bit levels digital_read scan starts
falls = refl

pass-edges_example :
    (pass 0 0 listening).0
    ≡ some (if listening.registered == 0 then [] else pick (is_edge 0 0 listening) 32 0)
unfolding attach_interrupt idle shifted_one wide_bit digital_read
pass-edges_example = pass-edges 0 0 listening (omega arith) (omega arith) (omega arith)

-- With a handler on pin 31 and one on pin 40, the high level of pin 40 counts for pin 31: it falls,
-- and its handler of the falling edge does not run.
abbrev two_pins : Watch
two_pins = record {
  handlers = λ p. record { mode = falling; fn = some p };
  registered = 2 ^ 31 + 2 ^ 40;
  last = 2 ^ 31;
}

hidden_by_pin_40 : is_edge 0 (2 ^ 8) two_pins 31 ≡ false
unfolding any_from
hidden_by_pin_40 = refl

fires_now : fires 4 0 0 listening ≡ true
unfolding member
fires_now = rw (fires, falls) refl

fires-Reach_example :
    (mode : ℕ) × (user_func : ℕ) × (want 4 (some (falling, 7)) (λ _. none) 4
      ≡ some (mode, user_func))
    × ((listening.handlers 4).fn ≡ some user_func)
    × (4 < 32)
fires-Reach_example = fires-Reach beyond 4 0 0 listening_reached fires_now

fires-pass_twice_example : fires 4 0 0 (pass 16 0 listening).1 ≡ (
    not (test_bit 16 4 == test_bit 0 4)
    && asks (listening.handlers 4).mode (test_bit 0 4)
    && has_fn (listening.handlers 4).fn)
unfolding attach_interrupt idle shifted_one wide_bit
fires-pass_twice_example = fires-pass_twice 16 0 0 0 4 listening (omega arith) refl

-- After a detach at a high level the last levels still hold a 1: an attach at a low level then
-- reports an edge that there was not.
abbrev again : Watch
again = detach_interrupt beyond 4 listening

-- ===== src/Interrupts.antt =====
-- cores/piduino/wiring_int.c: the handlers of the pins, and the task that looks for changed levels.
-- A handler is the name of a user function; a call or a pass of the task is one step, and the new
-- thread that runs a handler is the number of its pin in the list that the pass returns.
pub mod Scan
pub mod Calls
pub mod Edges
mod Tests
use ras_pi_arduino.Prelude.{
  ℕ, zero, suc, ◌+◌, ◌-◌, ◌*◌, ◌/◌, ◌^◌, Bool, true, false, not, ◌&&◌, ◌||◌,
}
use ras_pi_arduino.Prelude.{Option, none, some, List, [], ◌∷◌, bit_and, bit_or, bit_xor}
use ras_pi_arduino.Prelude.{ltb, ◌==◌, if◌then◌else◌}
use ras_pi_arduino.Prelude.Bits.{u8, u32, complement, bit_value}
use ras_pi_arduino.Gpio.{digital_read}

abbrev pub falling : ℕ
falling = 1

abbrev pub rising : ℕ
rising = 2

abbrev pub change : ℕ
change = 3

-- `isr_handler_t`.
pub record Handler : Type 0 where
  pub mode : ℕ
  pub fn : Option ℕ

-- `isr_handlers`, `_pin_isr_reg` and `_pin_isr_last`.
pub record Watch : Type 0 where
  pub handlers : ℕ → Handler
  pub registered : ℕ
  pub last : ℕ

unfoldable pub idle : Watch
idle = record { handlers = λ _. record { mode = 0; fn = none }; registered = 0; last = 0 }

abbrev pub has_fn : Option ℕ → Bool
has_fn none = false
has_fn (some f) = true

-- The levels that the task keeps: those of the registered pins. `GPLEV1` is read if one of the
-- pins from 32 on is registered.
unfoldable pub levels : ℕ → ℕ → ℕ → ℕ
levels lev0 lev1 registered =
    let state = if registered / 2 ^ 32 == 0 then lev0 else bit_or lev0 (lev1 * 2 ^ 32) in
    bit_and state registered

-- The conditions that start the handler of pin `i`, which is high or not.
unfoldable pub starts : Handler → Bool → Bool
starts h high =
    if not high && (h.mode == falling || h.mode == change) && has_fn h.fn
    then true
    else high && (h.mode == rising || h.mode == change) && has_fn h.fn

-- `_BV(i)` as the task masks the 64 bits of the levels with it: the sign of the `int` spreads.
unfoldable pub wide_bit : ℕ → ℕ
wide_bit i = if i == 31 then 2 ^ 64 - 2 ^ 31 else bit_value i

-- The loops over the changed bits, at pin `i`.
unfoldable pub scan : ℕ → (ℕ → Handler) → ℕ → ℕ → ℕ → Option (List ℕ)
scan zero handlers state i changed = none
scan (suc fuel) handlers state i changed =
    let later = scan fuel handlers state (i + 1) changed in
    let more = scan fuel handlers state i (bit_and changed (complement (bit_value i))) in
    if changed == 0
    then some []
    else if bit_and changed (bit_value i) == 0
    then later
    else if starts (handlers i) (not (bit_and state (wide_bit i) == 0))
    then elim more [ none ↦ none | some pins ↦ some (i ∷ pins) ]
    else more

-- A pass of `_isr_check_task` while pins are registered: the pins whose handlers it starts.
unfoldable pub pass : ℕ → ℕ → Watch → Option (List ℕ) × Watch
pass lev0 lev1 w =
    let state = levels lev0 lev1 w.registered in
    let changed = u32 (bit_xor state w.last) in
    if w.registered == 0
    then (some [], w)
    else if changed == 0
    then (some [], w)
    else (scan 66 w.handlers state 0 changed, record w { last = state })

abbrev pub put_handler : ℕ → Handler → (ℕ → Handler) → (ℕ → Handler)
put_handler pin h handlers = λ p. if p == pin then h else handlers p

-- `beyond` is what `_BV` and `<<` give for a count from 32 on, which C leaves undefined.
module _ (beyond : ℕ → ℕ) where
  -- `_BV(pin)`, or `1 << pin`, as a 64-bit operand.
  unfoldable pub shifted_one : ℕ → ℕ
  shifted_one pin = if ltb pin 32 then wide_bit pin else beyond pin

  unfoldable pub attach_interrupt : ℕ → ℕ → ℕ → ℕ → ℕ → Watch → Watch
  attach_interrupt lev0 lev1 pin user_func mode w =
      let level = if digital_read lev0 lev1 pin == 0 then 0 else shifted_one pin in
      if ltb pin 46
      then record {
        handlers = put_handler pin (record { mode = u8 mode; fn = some user_func }) w.handlers;
        registered = bit_or w.registered (shifted_one pin);
        last = bit_or w.last level;
      }
      else w

  unfoldable pub detach_interrupt : ℕ → Watch → Watch
  detach_interrupt pin w =
      if ltb pin 46
      then record w {
        handlers = put_handler pin (record { mode = 0; fn = none }) w.handlers;
        registered = bit_and w.registered (2 ^ 64 - 1 - shifted_one pin);
      }
      else w

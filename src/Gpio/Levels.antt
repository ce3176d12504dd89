-- ===== src/Gpio/Levels.antt =====
-- What `digitalWrite` does to the output pins, as the set and clear registers define it, and what
-- `digitalRead` reads.
use ras_pi_arduino.Prelude.{ℕ, ◌+◌, ◌-◌, ◌*◌, ◌<◌, ◌^◌, ◌≡◌, refl, arith}
use ras_pi_arduino.Prelude.{Bool, true, false, not, ◌&&◌, Option, none, some, List, [], ◌∷◌, ◌++◌}
use ras_pi_arduino.Prelude.{ltb, leb, ◌==◌, if◌then◌else◌, bit_and}
use ras_pi_arduino.Prelude.Bits.{bit_value, test_bit, test_bit-lt, bit_and-two_pow, bit_value-eq}
use ras_pi_arduino.Prelude.Bits.{test_bit-shift_high, test_bit-shift_low, test_bit-small}
use native.Mathlib.Nat.{one-le-pow}
use ras_pi_arduino.Machine.{Machine, Event, stored, waited, store, gpset0, gpset1, gpclr0, gpclr1}
use ras_pi_arduino.Gpio.{digital_write, digital_read}

-- The bank of 32 pins, and the bit in it, of a pin.
abbrev bank_bit : ℕ → ℕ → ℕ → ℕ
bank_bit base word pin =
    if leb base pin && ltb pin (base + 32) then test_bit word (pin - base) else 0

-- What one event says of an output pin: a one stored in a set register raises it, in a clear
-- register lowers it; zeros and every other store leave it.
abbrev pub drive : Event → ℕ → Option Bool
drive (stored a w) pin =
    if a == gpset0 && bank_bit 0 w pin == 1
    then some true
    else if a == gpset1 && bank_bit 32 w pin == 1
    then some true
    else if a == gpclr0 && bank_bit 0 w pin == 1
    then some false
    else if a == gpclr1 && bank_bit 32 w pin == 1
    then some false
    else none
drive (waited n) pin = none

-- The level that a sequence of events leaves on a pin that was at `before`.
pub level_after : List Event → ℕ → Bool → Bool
level_after [] pin before = before
level_after (e ∷ es) pin before =
    level_after es pin (elim (drive e pin) [ none ↦ before | some v ↦ v ])

level_after-append :
    (es fs : List Event) (pin : ℕ) (before : Bool)
    → level_after (es ++ fs) pin before ≡ level_after fs pin (level_after es pin before)
unfolding level_after
level_after-append [] fs pin before = refl
level_after-append (e ∷ es) fs pin before = level_after-append es fs pin _

abbrev pub level : Machine → ℕ → Bool → Bool
level m pin before = level_after m.trace pin before

pub test_bit-bit_value : (k i : ℕ) → k < 32 → test_bit (bit_value k) i ≡ (if i == k then 1 else 0)
test_bit-bit_value k i h =
    let e : bit_value k ≡ 1 * 2 ^ k = omega (arith, bit_value-eq k h) in
    rw e (
      ground (
        arith,
        test_bit-shift_low 1 k i,
        test_bit-shift_high 1 k i,
        test_bit-small 1 1 (i - k),
        same,
      ))
  where
    same : i ≡ k → test_bit 1 (i - k) ≡ 1
    same e = let z : i - k ≡ 0 = omega arith in rw z

-- `digitalWrite(pin, val)` puts `pin` at `val != 0` if it is one of the 46 pins, and leaves every
-- other pin at its level.
pub level-digital_write :
    (pin val q : ℕ) (before : Bool) (m : Machine)
    → level (digital_write pin val m) q before
      ≡ (if q == pin && ltb pin 46 then not (val == 0) else level m q before)
unfolding digital_write store level_after
level-digital_write pin val q before m = ground (
  arith,
  level_after-append m.trace (stored gpset0 (bit_value pin) ∷ []) q before,
  level_after-append m.trace (stored gpset1 (bit_value (pin - 32)) ∷ []) q before,
  level_after-append m.trace (stored gpclr0 (bit_value pin) ∷ []) q before,
  level_after-append m.trace (stored gpclr1 (bit_value (pin - 32)) ∷ []) q before,
  test_bit-bit_value pin q,
  test_bit-bit_value (pin - 32) (q - 32),
)

pub read_bit :
    (w k : ℕ) → k < 32 → (if not (bit_and w (bit_value k) == 0) then 1 else 0) ≡ test_bit w k
read_bit w k h =
    rw (bit_value-eq k h, bit_and-two_pow) (ground (arith, test_bit-lt w k, one-le-pow k 2))

-- `digitalRead(pin)` is the bit of the pin in the level registers, and 0 for a pin beyond them.
pub digital_read_lem :
    (lev0 lev1 pin : ℕ)
    → digital_read lev0 lev1 pin ≡ (
        if ltb pin 32
        then test_bit lev0 pin
        else if ltb pin 46
        then test_bit lev1 (pin - 32)
        else 0)
unfolding digital_read
digital_read_lem lev0 lev1 pin = ground (arith, read_bit lev0 pin, read_bit lev1 (pin - 32))

-- The one store of a `digitalWrite` to one of the 46 pins.
pub write_event : ℕ → ℕ → Event
write_event pin val =
    if ltb pin 32
    then stored (if not (val == 0) then gpset0 else gpclr0) (bit_value pin)
    else stored (if not (val == 0) then gpset1 else gpclr1) (bit_value (pin - 32))

pub trace-digital_write :
    (pin val : ℕ) (m : Machine)
    → pin < 46
    → (digital_write pin val m).trace ≡ m.trace ++ (write_event pin val ∷ [])
unfolding digital_write store write_event
trace-digital_write pin val m h = ground arith

-- It speaks of its pin only.
pub drive-write_event :
    (pin val q : ℕ)
    → pin < 46
    → drive (write_event pin val) q ≡ (if q == pin then some (not (val == 0)) else none)
unfolding write_event
drive-write_event pin val q h =
    ground (arith, test_bit-bit_value pin q, test_bit-bit_value (pin - 32) (q - 32))

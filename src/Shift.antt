-- ===== src/Shift.antt =====
-- cores/piduino/wiring_shift.c: a byte sent or received on a data pin and a clock pin.
pub mod Wires
pub mod Out
pub mod In
mod Tests
use ras_pi_arduino.Prelude.{ℕ, zero, suc, ◌+◌, ◌-◌, ◌*◌, ◌^◌, bit_and, bit_or, not}
use ras_pi_arduino.Prelude.{◌==◌, if◌then◌else◌}
use ras_pi_arduino.Prelude.Bits.{u8}
use ras_pi_arduino.Machine.{Machine, wait}
use ras_pi_arduino.Gpio.{digital_write, digital_read}

-- LSBFIRST is 0, and every other order counts as MSBFIRST.
unfoldable pub bit_index : ℕ → ℕ → ℕ
bit_index order i = if order == 0 then i else 7 - i

abbrev pub truth : ℕ → ℕ
truth x = if not (x == 0) then 1 else 0

module _ (data_pin clock_pin order : ℕ) where
  -- One round of the loop of `shiftOut`.
  unfoldable pub shift_out_bit : ℕ → ℕ → Machine → Machine
  shift_out_bit val i m =
      let on_data = digital_write data_pin (truth (bit_and val (2 ^ bit_index order i))) m in
      let high = wait 1 (digital_write clock_pin 1 on_data) in
      wait 1 (digital_write clock_pin 0 high)

  -- The rounds that are left, from round `i` on.
  unfoldable pub shift_out_from : ℕ → ℕ → ℕ → Machine → Machine
  shift_out_from val zero i m = m
  shift_out_from val (suc n) i m = shift_out_from val n (i + 1) (shift_out_bit val i m)

  unfoldable pub shift_out : ℕ → Machine → Machine
  shift_out val m = shift_out_from val 8 0 m

  -- `reads i` is what `GPLEV0` and `GPLEV1` read in round `i`.
  module _ (reads : ℕ → ℕ × ℕ) where
    unfoldable pub shift_in_from : ℕ → ℕ → ℕ → Machine → ℕ × Machine
    shift_in_from zero i value m = (value, m)
    shift_in_from (suc n) i value m =
        let high = wait 1 (digital_write clock_pin 1 m) in
        let bit = digital_read (reads i).0 (reads i).1 data_pin in
        let low = wait 1 (digital_write clock_pin 0 high) in
        shift_in_from n (i + 1) (u8 (bit_or value (bit * 2 ^ bit_index order i))) low

    unfoldable pub shift_in : Machine → ℕ × Machine
    shift_in m = shift_in_from 8 0 0 m

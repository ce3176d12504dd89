-- ===== src/Gpio.antt =====
-- cores/piduino/wiring_digital.c: the function of a pin, its level, and its pull resistor.
pub mod Select
pub mod Levels
mod Tests
use ras_pi_arduino.Prelude.{ℕ, ◌+◌, ◌-◌, ◌*◌, ◌/◌, ◌^◌, bit_and, bit_or, not}
use ras_pi_arduino.Prelude.{ltb, ◌==◌, if◌then◌else◌}
use ras_pi_arduino.Prelude.Bits.{bit_value, complement}
use ras_pi_arduino.Machine.{Machine, store, wait, gpfsel, gpfselb, gpset0, gpset1, gpclr0, gpclr1}
use ras_pi_arduino.Machine.{gppud, gppudclk0, gppudclk1}

-- The three bits of `GPFSEL` that choose the function of a pin: cleared, then set.
unfoldable pub select_function : ℕ → ℕ → Machine → Machine
select_function pin mode m =
    let a = gpfsel pin in
    let cleared = store a (bit_and (m.mem a) (complement (0x07 * 2 ^ gpfselb pin))) m in
    store a (bit_or (cleared.mem a) (bit_and mode 0x07 * 2 ^ gpfselb pin)) cleared

-- `GPPUDCLKn = …` for the bank of the pin; a pin from 46 on has no bank.
unfoldable pub clock_pull : ℕ → (ℕ → ℕ) → Machine → Machine
clock_pull pin word m =
    if ltb pin 32
    then store gppudclk0 (word pin) m
    else if ltb pin 46
    then store gppudclk1 (word (pin - 32)) m
    else m

-- The pull-up or pull-down sequence: the control word, a clock on the pin, and both taken back.
unfoldable pub set_pull : ℕ → ℕ → Machine → Machine
set_pull pin pud m =
    let clocked = wait 10 (clock_pull pin bit_value (wait 10 (store gppud pud m))) in
    clock_pull pin (λ _. 0) (store gppud 0 clocked)

unfoldable pub pin_mode : ℕ → ℕ → Machine → Machine
pin_mode pin mode m =
    let selected = select_function pin mode m in
    if bit_and mode 0x07 == 0 then set_pull pin (bit_and mode 0x30 / 2 ^ 4) selected else selected

unfoldable pub digital_write : ℕ → ℕ → Machine → Machine
digital_write pin val m =
    if ltb pin 32
    then if not (val == 0) then store gpset0 (bit_value pin) m else store gpclr0 (bit_value pin) m
    else if ltb pin 46
    then if not (val == 0)
      then store gpset1 (bit_value (pin - 32)) m
      else store gpclr1 (bit_value (pin - 32)) m
    else m

-- `lev0` and `lev1` are the words that `GPLEV0` and `GPLEV1` read.
unfoldable pub digital_read : ℕ → ℕ → ℕ → ℕ
digital_read lev0 lev1 pin =
    if ltb pin 32
    then if not (bit_and lev0 (bit_value pin) == 0) then 1 else 0
    else if ltb 45 pin
    then 0
    else if not (bit_and lev1 (bit_value (pin - 32)) == 0)
    then 1
    else 0

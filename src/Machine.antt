-- ===== src/Machine.antt =====
-- The peripheral registers that cores/piduino/bcm2835_registers.h names, by their address below
-- BCM2835_BASE, and the stores and delays that a program makes, in order. A register that the
-- code reads back holds what was last stored there; a register that the hardware changes (levels,
-- status words, FIFOs, counters) is an argument of the code that reads it.
use ras_pi_arduino.Prelude.{ℕ, ◌+◌, ◌*◌, ◌/◌, ◌%◌, ◌≢◌, ◌≡◌, arith, List, [], ◌∷◌, ◌++◌}
use ras_pi_arduino.Prelude.{◌==◌, if◌then◌else◌}

pub data Event : Type 0 where
  stored : ℕ → ℕ → Event
  waited : ℕ → Event

pub record Machine : Type 0 where
  pub mem : ℕ → ℕ
  pub trace : List Event

-- `*reg = v`.
unfoldable pub store : ℕ → ℕ → Machine → Machine
store a v m = record {
  mem = λ b. if b == a then v else m.mem b;
  trace = m.trace ++ (stored a v ∷ []);
}

-- `delayMicroseconds(n)`.
unfoldable pub wait : ℕ → Machine → Machine
wait n m = record m { trace = m.trace ++ (waited n ∷ []) }

pub mem-store_self : (a v : ℕ) (m : Machine) → (store a v m).mem a ≡ v
unfolding store
mem-store_self a v m = ground arith

pub mem-store_ne : (a v b : ℕ) (m : Machine) → b ≢ a → (store a v m).mem b ≡ m.mem b
unfolding store
mem-store_ne a v b m h = ground arith

-- GPIO.
abbrev pub gpio_base : ℕ
gpio_base = 0x200000

-- `GPFSEL(p)` and `GPFSELB(p)`.
abbrev pub gpfsel : ℕ → ℕ
gpfsel p = gpio_base + p / 10 * 4

abbrev pub gpfselb : ℕ → ℕ
gpfselb p = p % 10 * 3

abbrev pub gpset0 : ℕ
gpset0 = 0x20001c

abbrev pub gpset1 : ℕ
gpset1 = 0x200020

abbrev pub gpclr0 : ℕ
gpclr0 = 0x200028

abbrev pub gpclr1 : ℕ
gpclr1 = 0x20002c

abbrev pub gppud : ℕ
gppud = 0x200094

abbrev pub gppudclk0 : ℕ
gppudclk0 = 0x200098

abbrev pub gppudclk1 : ℕ
gppudclk1 = 0x20009c

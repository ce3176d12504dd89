-- ===== src/Ids.antt =====
-- The bus of the identification memory, cores/piduino/wiring_ids.c: the controller BSC0 on the pins
-- 0 and 1; and the clock divider that both buses compute.
use ras_pi_arduino.Prelude.{
  ℕ, ◌+◌, ◌*◌, ◌/◌, ◌%◌, ◌^◌, ◌≤◌, ◌<◌, ◌≡◌, ◌∙◌, refl, ap, arith, min, false,
}
use ras_pi_arduino.Prelude.{Option, none, some, List, bit_and, ◌==◌, if◌then◌else◌}
use native.Mathlib.Nat.{div-le_of_le-mul}
use ras_pi_arduino.Prelude.Bits.{bit_and_step}
use ras_pi_arduino.Prelude.Fields.{bit_and_mask}
use ras_pi_arduino.Machine.{Machine, store}
use ras_pi_arduino.Gpio.{pin_mode}
use ras_pi_arduino.I2c.{bsc0, write_to, read_from}

-- `BSCF2DIV(f)`; a division by zero is a fault.
unfoldable pub divider : ℕ → Option ℕ
divider f = if f == 0 then none else some (bit_and (150000000 / f + 1) 0xfffe)

-- BSC0DIV.
abbrev bsc0div : ℕ
bsc0div = 0x205014

unfoldable pub ids_set_freq : ℕ → Machine → Option Machine
ids_set_freq frequency m = elim (divider frequency) [
  | none ↦ none
  | some d ↦ some (store bsc0div d m)
]

-- ALT0 is 4, INPUT is 0.
unfoldable pub ids_begin : Machine → Option Machine
ids_begin m = ids_set_freq 100000 (pin_mode 1 4 (pin_mode 0 4 m))

unfoldable pub ids_end : Machine → Machine
ids_end m = pin_mode 1 0 (pin_mode 0 0 m)

unfoldable pub ids_write : ℕ → List ℕ → ℕ → List ℕ → Machine → Option (ℕ × Machine)
ids_write = write_to bsc0

unfoldable pub ids_read :
    ℕ → List ℕ → ℕ → (ℕ → ℕ) → List ℕ → Machine → Option (ℕ × List ℕ × Machine)
ids_read = read_from bsc0

even_part : (x : ℕ) → x < 2 ^ 16 → bit_and x 0xfffe ≡ x / 2 * 2
even_part x h =
    bit_and_step x 0xfffe ∙ ap (λ t. t * 2 + min (x % 2) 0) (bit_and_mask 15 (x / 2)) ∙ omega arith

-- The divider for a frequency that fits its register is even, and the nearest even number from
-- the quotient of the core clock on.
pub divider_lem :
    (f : ℕ)
    → 2289 ≤ f
    → (d : ℕ) × (divider f ≡ some d) × (d % 2 ≡ 0) × (150000000 / f ≤ d) × (d ≤ 150000000 / f + 1)
unfolding divider
divider_lem f h =
    let q = 150000000 / f in
    let small : q ≤ 65534 = div-le_of_le-mul f (omega arith) in
    let e = even_part (q + 1) (omega (arith, small)) in
    let nonzero : (f == 0) ≡ false = ground arith in
    (
      bit_and (q + 1) 0xfffe,
      rw nonzero refl,
      rw e (omega arith),
      rw e (omega arith),
      rw e (omega arith),
    )

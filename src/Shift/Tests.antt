-- ===== src/Shift/Tests.antt =====
-- A byte sent and received on pins 17 and 27.
use ras_pi_arduino.Prelude.{ℕ, ◌*◌, ◌^◌, ◌≡◌, refl, true, false, List, [], ◌∷◌, arith}
use ras_pi_arduino.Prelude.{Bool, ap, sym, ◌∙◌, ◌++◌, get_or, if◌then◌else◌}
use ras_pi_arduino.Machine.{Machine}
use ras_pi_arduino.Gpio.{digital_read}
use ras_pi_arduino.Shift.{shift_out, shift_in}
use ras_pi_arduino.Shift.Wires.{Receiver, observe_all, watch}
use ras_pi_arduino.Shift.Out.{taken-shift_out}
use ras_pi_arduino.Shift.In.{copies, shift_in-shift_out}

abbrev idle : Machine
idle = record { mem = λ _. 0; trace = [] }

abbrev low_wires : Receiver
low_wires = record { data_level = false; clock_level = false; taken = [] }

abbrev bits_of_0x16 : List Bool
bits_of_0x16 = false ∷ false ∷ false ∷ true ∷ false ∷ true ∷ true ∷ false ∷ []

taken-shift_out_example : (watch 17 27 (shift_out 17 27 1 0x16 idle) low_wires).taken ≡ bits_of_0x16
unfolding observe_all
taken-shift_out_example =
    taken-shift_out 17 27 1 0x16 idle low_wires (λ e. absurd (omega arith)) (omega arith)
      (omega arith) refl

-- The level register while 0x16 comes in on pin 17, the highest bit first.
abbrev levels : ℕ → ℕ × ℕ
levels i = ((if get_or bits_of_0x16 i false then 1 else 0) * 2 ^ 17, 0)

on_pin_17 : (b : Bool) → digital_read ((if b then 1 else 0) * 2 ^ 17) 0 17 ≡ (if b then 1 else 0)
unfolding digital_read
on_pin_17 true = refl
on_pin_17 false = refl

shift_in-shift_out_example :
    ((shift_in 17 27 1 levels idle).0 ≡ 0x16)
    × ((watch 17 27 (shift_in 17 27 1 levels idle).1 low_wires).taken ≡ [] ++ copies 8 false)
unfolding observe_all
shift_in-shift_out_example =
    shift_in-shift_out 17 27 17 27 1 0x16 levels idle idle low_wires low_wires
      (λ e. absurd (omega arith)) (omega arith) (omega arith) (λ e. absurd (omega arith))
      (omega arith) (omega arith) refl refl refl
      (λ i h.
        on_pin_17 (get_or bits_of_0x16 i false)
        ∙ ap (λ xs. if get_or xs i false then 1 else 0) (sym taken-shift_out_example))

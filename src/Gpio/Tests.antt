-- ===== src/Gpio/Tests.antt =====
-- The pins of a board at concrete values.
use ras_pi_arduino.Prelude.{◌≡◌, refl, [], arith}
use ras_pi_arduino.Machine.{Machine, store, gpfsel}
use ras_pi_arduino.Gpio.{select_function, pin_mode}
use ras_pi_arduino.Gpio.Select.{function_bit, function_bit-pin_mode}

abbrev idle : Machine
idle = record { mem = λ _. 0; trace = [] }

-- Pin 18 to alternate function 5, with pin 17 an output in the same register.
abbrev output_17 : Machine
output_17 = record { mem = λ _. 0x200000; trace = [] }

pin_18_word : (pin_mode 18 2 output_17).mem (gpfsel 18) ≡ 0x2200000
unfolding pin_mode select_function store
pin_18_word = refl

function_bit-pin_mode_example : function_bit (pin_mode 18 2 output_17) 17 0 ≡ 1
function_bit-pin_mode_example =
    function_bit-pin_mode 18 2 17 0 output_17 (omega arith) (omega arith) (omega arith)

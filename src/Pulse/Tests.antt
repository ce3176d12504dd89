-- ===== src/Pulse/Tests.antt =====
-- A pulse of 40 microseconds on pin 4, and a wait of 5.
use ras_pi_arduino.Prelude.{ℕ, ◌≡◌, refl, arith, some, none, List, [], ◌∷◌, map, ltb, if◌then◌else◌}
use ras_pi_arduino.Gpio.{digital_read}
use ras_pi_arduino.Pulse.{
  delay_microseconds, polled, slept, Sample, since, pulse_loops, halt, halt_from,
}
use ras_pi_arduino.Pulse.Laws.{pulse_loops-Pulse, delay_microseconds-waits, counter}

abbrev high : ℕ → Sample
high t = record { clock = t; lev0 = 16; lev1 = 0 }

abbrev low : ℕ → Sample
low t = record { clock = t; lev0 = 0; lev1 = 0 }

pulse_loops-Pulse_example :
    pulse_loops 4 1 1000
      (high 0 ∷ high 1 ∷ low 5 ∷ low 9 ∷ high 12 ∷ high 13 ∷ high 30 ∷ low 52 ∷ low 53 ∷ [])
    ≡ some (since 13 (low 53), [])
unfolding digital_read
pulse_loops-Pulse_example =
    pulse_loops-Pulse 4 1 1000 (high 0) (high 1 ∷ []) (low 5) (low 9 ∷ []) (high 12) (high 13)
      (high 30 ∷ []) (low 52) (low 53) [] ((refl, omega arith), tt) refl ((refl, omega arith), tt)
      refl ((refl, omega arith), tt) refl

halted : halt 5 (100 ∷ 101 ∷ 103 ∷ 106 ∷ []) ≡ some (106, [])
unfolding halt halt_from
halted = refl

-- Near the end of the counter's range the loop waits for one value: it passes it by, and goes on.
passed_by : halt 5 (4294967295 ∷ 3 ∷ 5 ∷ 90 ∷ []) ≡ none
unfolding halt halt_from
passed_by = refl

-- A wait of 3 microseconds, from 2 before the counter goes over.
delay_microseconds-waits_example :
    (rest : List ℕ) × (delay_microseconds 3
        (4294967294 ∷ map (counter 4294967294) (0 ∷ 1 ∷ 2 ∷ 3 ∷ 4 ∷ []))
      ≡ some (if ltb 3 1000 then polled (counter 4294967294 3) else slept 3, rest))
delay_microseconds-waits_example =
    delay_microseconds-waits 3 4294967294 (0 ∷ 1 ∷ 2 ∷ 3 ∷ 4 ∷ []) (omega arith) (omega arith)
      (omega arith)
      (
        omega arith,
        omega arith,
        (
          omega arith,
          omega arith,
          (omega arith, omega arith, (omega arith, omega arith, (omega arith, omega arith, tt))),
        ),
      )
      (omega arith)

-- ===== src/Pulse.antt =====
-- cores/piduino/wiring_pulse.c and delayMicroseconds of cores/piduino/wiring.c. A sample is what the
-- counter of microseconds and the two level registers hold at a moment at which the code reads one
-- of them, or a pin and the counter behind it; the samples come in the order of the reads.
pub mod Laws
mod Tests
use ras_pi_arduino.Prelude.{
  ℕ, ◌+◌, ◌-◌, ◌^◌, ◌*◌, Bool, true, false, not, ◌&&◌, Option, none, some, List, [], ◌∷◌,
}
use ras_pi_arduino.Prelude.{ltb, ◌==◌, if◌then◌else◌, ◌>>=◌}
use ras_pi_arduino.Prelude.Bits.{u32}
use ras_pi_arduino.Machine.{Machine}
use ras_pi_arduino.Gpio.{pin_mode, digital_read}

pub record Sample : Type 0 where
  pub clock : ℕ
  pub lev0 : ℕ
  pub lev1 : ℕ

-- `micros() - start`.
abbrev pub since : ℕ → Sample → ℕ
since start s = u32 (s.clock + 2 ^ 32 - start)

-- Is the pin at this level?
abbrev pub is_at : ℕ → ℕ → Sample → Bool
is_at pin state s = digital_read s.lev0 s.lev1 pin == state

-- `while(test && (micros() - start) < timeout);`, and the samples behind it; none while it waits.
unfoldable pub wait_while : (Sample → Bool) → ℕ → ℕ → List Sample → Option (List Sample)
wait_while test timeout start [] = none
wait_while test timeout start (s ∷ rest) =
    let more = wait_while test timeout start rest in
    if test s && ltb (since start s) timeout then more else some rest

-- The last loop of `pulseIn`, and what it returns.
unfoldable pub measure : ℕ → ℕ → ℕ → List Sample → Option (ℕ × List Sample)
measure pin state timeout [] = none
measure pin state timeout (s ∷ rest) = elim (wait_while (is_at pin state) timeout s.clock rest) [
  | none ↦ none
  | some [] ↦ none
  | some (e ∷ end) ↦ some (since s.clock e, end)
]

-- The three loops of `pulseIn`.
unfoldable pub pulse_loops : ℕ → ℕ → ℕ → List Sample → Option (ℕ × List Sample)
pulse_loops pin state timeout [] = none
pulse_loops pin state timeout (s ∷ samples) =
    elim (wait_while (is_at pin state) timeout s.clock samples) [
      | none ↦ none
      | some rest ↦ elim (wait_while (λ t. not (is_at pin state t)) timeout s.clock rest) [
        | none ↦ none
        | some rest' ↦ measure pin state timeout rest'
      ]
    ]

unfoldable pub pulse_in : ℕ → ℕ → ℕ → List Sample → Machine → Option (ℕ × List Sample) × Machine
pulse_in pin state timeout samples m = (pulse_loops pin state timeout samples, pin_mode pin 0 m)

-- The loops of `_halt` over what the counter reads, with the last of the reads.
unfoldable pub halt_from : Bool → ℕ → List ℕ → Option (ℕ × List ℕ)
halt_from wraps compare [] = none
halt_from wraps compare (c ∷ reads) =
    let more = halt_from wraps compare reads in
    if (if wraps then not (u32 (c + 2 ^ 32 - compare) == 0) else ltb c compare)
    then more
    else some (c, reads)

unfoldable pub halt : ℕ → List ℕ → Option (ℕ × List ℕ)
halt microseconds [] = none
halt microseconds (start ∷ reads) =
    let compare = u32 (start + microseconds) in halt_from (ltb compare start) compare reads

-- What `delayMicroseconds` waits in: the loop, with the last of its reads, or usleep, with its
-- argument.
pub data Delay : Type 0 where
  polled slept : ℕ → Delay

unfoldable pub delay_microseconds : ℕ → List ℕ → Option (Delay × List ℕ)
delay_microseconds m reads = elim (ltb m 1000) [
  | true ↦ do (last, rest) ← halt m reads; some (polled last, rest)
  | false ↦ some (slept m, reads)
]

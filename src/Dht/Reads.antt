-- ===== src/Dht/Reads.antt =====
-- When a reading ends, and what a reading that fails leaves.
use ras_pi_arduino.Prelude.{ℕ, ◌+◌, ◌-◌, ◌^◌, ◌≤◌, ◌<◌, ◌≡◌, ◌≢◌, refl, ◌∙◌, arith, Bool, not}
use ras_pi_arduino.Prelude.{
  false, some, List, [], ◌∷◌, ◌++◌, map, All, ltb, leb, ◌==◌, inl, inr, ◌⊎◌, if◌then◌else◌,
}
use ras_pi_arduino.Prelude.Bits.{u32, test_bit}
use ras_pi_arduino.Gpio.Levels.{read_bit}
use ras_pi_arduino.Machine.{Machine}
use ras_pi_arduino.Gpio.{pin_mode}
use ras_pi_arduino.Dht.{
  Dht, Error, Sample, Outcome, failed, got, waiting, elapsed, wait_from, wait_to, direct_read,
}
use ras_pi_arduino.Dht.{
  no_error, and_then, decode, bus_hung, request, acknowledge, read_times, conclude, read_data,
}

-- What a poll reads `t` microseconds after the start: the counter, which wraps, and the levels.
abbrev pub poll_at : ℕ → ℕ × ℕ → Sample
poll_at start p = record { clock = u32 (start + p.0); lev0 = p.1 }

abbrev pub is_high : ℕ → ℕ → Bool
is_high pin lev0 = test_bit lev0 pin == 1

direct_read-is_high : (pin lev0 : ℕ) → pin < 32 → direct_read pin lev0 ≡ is_high pin lev0
unfolding direct_read
direct_read-is_high pin lev0 h = ground (arith, read_bit lev0 pin h)

elapsed-poll_at :
    (start : ℕ) (p : ℕ × ℕ) → start < 2 ^ 32 → p.0 < 2 ^ 32 → elapsed start (poll_at start p) ≡ p.0
elapsed-poll_at start p h k = omega arith

module _ (pin : ℕ) (level : Bool) (timeout start : ℕ) where
  -- Before the timeout, with the pin still at the level.
  abbrev pub Stays : ℕ × ℕ → Type 0
  Stays p = (p.0 < timeout) × (is_high pin p.1 ≡ level)

  abbrev pub Leaves : ℕ × ℕ → Type 0
  Leaves p = (timeout ≤ p.0) ⊎ (is_high pin p.1 ≡ not level)

  module _ (pin_lt : pin < 32) (start_lt : start < 2 ^ 32) where
    wait_from-last :
        (error : Error) (last : ℕ × ℕ) (rest : List Sample)
        → last.0 < 2 ^ 32
        → Leaves last
        → wait_from pin level error timeout start (poll_at start last ∷ rest)
          ≡ (if leb timeout last.0 then failed error else got start rest)
    unfolding wait_from
    wait_from-last error last rest small ends =
        rw (elapsed-poll_at start last start_lt small) (elim ends [
          | inl late ↦ ground (arith, late)
          | inr other ↦
              let read = direct_read-is_high pin last.1 pin_lt ∙ other in rw read (ground arith)
        ])

    wait_from-held :
        (error : Error) (held : List (ℕ × ℕ)) (last : ℕ × ℕ) (rest : List Sample)
        → timeout ≤ 2 ^ 32
        → All Stays held
        → last.0 < 2 ^ 32
        → Leaves last
        → wait_from pin level error timeout start
            (map (poll_at start) held ++ (poll_at start last ∷ rest))
          ≡ (if leb timeout last.0 then failed error else got start rest)
    unfolding wait_from
    wait_from-held error [] last rest fits held small ends =
        wait_from-last error last rest small ends
    wait_from-held error (p ∷ ps) last rest fits ((early, same), held) small ends =
        let read = direct_read-is_high pin p.1 pin_lt ∙ same in
        rw (wait_from, elapsed-poll_at start p start_lt (omega arith), read)
          (ground (arith, early, wait_from-held error ps last rest fits held small ends))

-- `WAITTO` goes on exactly as long as its polls come less than the timeout after the first read of
-- the counter and find the pin at the level. At the first that does not, it ends: with the error if
-- the poll is late, and else it goes on with the reading. Any number of polls may see the same
-- microsecond, the counter may wrap, the pin is one of the first 32, and the
-- timeout and the last poll are in the range of the counter.
pub wait_to-ends :
    (pin : ℕ) (level : Bool) (error : Error) (timeout start lev0 : ℕ) (held : List (ℕ × ℕ))
    (last : ℕ × ℕ) (rest : List Sample)
    → pin < 32
    → start < 2 ^ 32
    → timeout ≤ 2 ^ 32
    → All (Stays pin level timeout start) held
    → last.0 < 2 ^ 32
    → Leaves pin level timeout start last
    → wait_to pin level error timeout (
        record { clock = start; lev0 = lev0 }
        ∷ (map (poll_at start) held ++ (poll_at start last ∷ rest)))
      ≡ (if leb timeout last.0 then failed error else got start rest)
unfolding wait_to
wait_to-ends pin level error timeout start lev0 held last rest pin_lt start_lt fits before small
      ends =
    wait_from-held pin level timeout start pin_lt start_lt error held last rest fits before small
      ends

conclude-Kept :
    (d d' : Dht) (m m' : Machine) (o : Outcome (List ℕ)) (e : Error)
    → conclude d m o ≡ some (e, d', m')
    → e ≢ no_error
    → d' ≡ d
unfolding conclude decode
conclude-Kept d d' m m' (failed e') e done fails = ground arith
conclude-Kept d d' m m' waiting e done fails = ground arith
conclude-Kept d d' m m' (got times rest) e done fails = ground arith

-- A reading that fails keeps the humidity and the temperature; it keeps the time of the last
-- reading too exactly if it came within two seconds of it.
pub read_data-fails :
    (now : ℕ) (samples : List Sample) (d d' : Dht) (m m' : Machine) (e : Error)
    → read_data now samples d m ≡ some (e, d', m')
    → e ≢ no_error
    → (d'.last_humidity ≡ d.last_humidity)
      × (d'.last_temperature ≡ d.last_temperature)
      × (d'.last_read_time
          ≡ (if ltb (u32 (now + 2 ^ 32 - d.last_read_time)) 2000 then d.last_read_time else now))
unfolding read_data
read_data-fails now samples d d' m m' e done fails =
    elim (wait_to d.pin false bus_hung 250 samples)
        as (λ o. wait_to d.pin false bus_hung 250 samples ≡ o → Goal) [
          | failed e' ↦ λ w. ground (arith, w)
          | waiting ↦ λ w. ground (arith, w)
          | got start rest ↦ λ w. ground (
            arith,
            w,
            conclude-Kept (record d { last_read_time = now }) d'
                (request d.pin (pin_mode d.pin 0 m)) m'
                (and_then (acknowledge d.pin rest) (λ _ s. read_times d.pin 40 s)) e,
          )
        ]
      refl
  where
    Goal : Type 0
    Goal =
        (d'.last_humidity ≡ d.last_humidity)
        × (d'.last_temperature ≡ d.last_temperature)
        × (d'.last_read_time
            ≡ (if ltb (u32 (now + 2 ^ 32 - d.last_read_time)) 2000 then d.last_read_time else now))

-- ===== src/Dht.antt =====
-- libraries/DHT22: the reading of the humidity and temperature sensor. A sample is what the counter
-- of microseconds and the level register of the first 32 pins hold at a moment at which the code
-- reads one of them or both; the samples come in the order of the reads.
pub mod Decode
pub mod Reads
mod Tests
use ras_pi_arduino.Prelude.{ℕ, zero, suc, ◌+◌, ◌-◌, ◌*◌, ◌/◌, ◌^◌, ◌≡◌, Bool, true, false, not}
use ras_pi_arduino.Prelude.{Option, none, some, List, [], ◌∷◌, bit_and, bit_or}
use ras_pi_arduino.Prelude.{ltb, leb, ◌==◌, if◌then◌else◌, get_or}
use ras_pi_arduino.Prelude.Bits.{u8, u32, complement, bit_value}
use ras_pi_arduino.Prelude.Signed.{ℤ, pos, negsuc, negate, to_word}
use ras_pi_arduino.Machine.{Machine, store, wait, gpfsel, gpfselb, gpclr0}
use ras_pi_arduino.Gpio.{pin_mode}

-- `DHT22_ERROR_t`.
pub data Error : Type 0 where
  no_error bus_hung not_present ack_too_long1 ack_too_long2 ack_too_long3 : Error
  sync_timeout data_timeout bad_checksum too_quick : Error

pub record Dht : Type 0 where
  pub pin : ℕ
  pub last_read_time : ℕ
  pub last_humidity : ℤ
  pub last_temperature : ℤ

-- `DHT22_ERROR_VALUE`.
abbrev pub error_value : ℤ
error_value = negsuc 994

unfoldable pub create : ℕ → Dht
create pin = record {
  pin = pin;
  last_read_time = 0;
  last_humidity = error_value;
  last_temperature = error_value;
}

pub record Sample : Type 0 where
  pub clock : ℕ
  pub lev0 : ℕ

-- What a part of the reading comes to: it returns an error, goes on, or is still waiting after the
-- last sample.
pub data Outcome {ℓ} (A : Type ℓ) : Type ℓ where
  failed : Error → Outcome A
  got : A → List Sample → Outcome A
  waiting : Outcome A

unfoldable pub and_then {ℓ κ} :
    {A : Type ℓ} {B : Type κ} → Outcome A → (A → List Sample → Outcome B) → Outcome B
and_then (failed e) next = failed e
and_then (got a rest) next = next a rest
and_then waiting next = waiting

-- `DIRECT_READ(pin)`.
unfoldable pub direct_read : ℕ → ℕ → Bool
direct_read pin lev0 = ltb 0 (bit_and lev0 (bit_value pin))

-- The microseconds from `start` on, as the code subtracts them.
abbrev pub elapsed : ℕ → Sample → ℕ
elapsed start s = u32 (s.clock + 2 ^ 32 - start)

module _ (pin : ℕ) where
  -- The loop of `WAITTO(level, error, timeout)`, which began at `start`.
  unfoldable pub wait_from : Bool → Error → ℕ → ℕ → List Sample → Outcome ℕ
  wait_from level error timeout start [] = waiting
  wait_from level error timeout start (s ∷ rest) =
      let more = wait_from level error timeout start rest in
      if leb timeout (elapsed start s)
      then failed error
      else if (if direct_read pin s.lev0 then level else not level)
      then more
      else got start rest

  -- `WAITTO`, with what it leaves in `startWait`.
  unfoldable pub wait_to : Bool → Error → ℕ → List Sample → Outcome ℕ
  wait_to level error timeout [] = waiting
  wait_to level error timeout (s ∷ rest) = wait_from level error timeout s.clock rest

  unfoldable pub acknowledge : List Sample → Outcome ℕ
  acknowledge samples = and_then (wait_to false not_present 40 samples) (λ _ s.
      and_then (wait_to true ack_too_long1 60 s) (λ _ s.
        and_then (wait_to false ack_too_long2 100 s) (λ _ s. wait_to true ack_too_long3 100 s)))

  -- `bitTimes[i] = micros() - startWait`.
  unfoldable pub bit_time : ℕ → List Sample → Outcome ℕ
  bit_time start [] = waiting
  bit_time start (s ∷ rest) = got (u8 (elapsed start s)) rest

  -- The loop over the data pulses, `n` of them.
  unfoldable pub read_times : ℕ → List Sample → Outcome (List ℕ)
  read_times zero samples = got [] samples
  read_times (suc n) samples = and_then (wait_to false sync_timeout 150 samples) (λ _ s.
      and_then (wait_to true data_timeout 150 s) (λ start s.
        and_then (bit_time start s)
          (λ time s. and_then (read_times n s) (λ times s. got (time ∷ times) s))))

  -- The pin as an output that is low, for a moment, and then as an input again.
  unfoldable pub request : Machine → Machine
  request m =
      let output = store (gpfsel pin) (bit_or (m.mem (gpfsel pin)) (2 ^ gpfselb pin)) m in
      let low = wait 1200 (store gpclr0 (bit_value pin) output) in
      store (gpfsel pin) (bit_and (low.mem (gpfsel pin)) (complement (0x07 * 2 ^ gpfselb pin))) low

-- A loop that collects the bits of a number from the times, `n` of them from bit `i` of the number
-- and time `i + off` on.
unfoldable pub or_bits : List ℕ → ℕ → ℕ → ℕ → ℕ → ℕ → ℕ
or_bits times off top zero i value = value
or_bits times off top (suc n) i value =
    or_bits times off top n (i + 1)
      (if ltb 40 (get_or times (i + off) 0) then bit_or value (2 ^ (top - i)) else value)

unfoldable pub decode : List ℕ → Dht → Error × Dht
decode times d =
    let humidity = or_bits times 0 15 16 0 0 in
    let temperature = or_bits times 16 15 16 0 0 in
    let checksum = or_bits times 32 7 8 0 0 in
    let sum =
      u8 (humidity / 2 ^ 8)
      + bit_and humidity 0xff
      + u8 (temperature / 2 ^ 8)
      + bit_and temperature 0xff in
    if not (checksum == bit_and sum 0xff) then (bad_checksum, d) else (
      no_error,
      record d {
        last_humidity = pos (bit_and humidity 0x7fff);
        last_temperature =
            if not (bit_and temperature 0x8000 == 0)
            then pos (bit_and (to_word 32 (negate temperature)) 0x7fff)
            else pos temperature;
      },
    )

-- What `readData` returns, and leaves; none while it waits.
unfoldable pub conclude : Dht → Machine → Outcome (List ℕ) → Option (Error × Dht × Machine)
conclude d m (failed e) = some (e, d, m)
conclude d m (got times rest) = let (e, d') = decode times d in some (e, d', m)
conclude d m waiting = none

-- `readData` at the time `now` that `millis()` gives.
unfoldable pub read_data : ℕ → List Sample → Dht → Machine → Option (Error × Dht × Machine)
read_data now samples d m =
    let d' = record d { last_read_time = now } in
    let input = pin_mode d.pin 0 m in
    if ltb (u32 (now + 2 ^ 32 - d.last_read_time)) 2000
    then some (too_quick, d, m)
    else elim (wait_to d.pin false bus_hung 250 samples) [
      | failed e ↦ some (e, d', input)
      | waiting ↦ none
      | got start rest ↦
          conclude d' (request d.pin input)
            (and_then (acknowledge d.pin rest) (λ _ s. read_times d.pin 40 s))
    ]

-- ===== src/Dht/Tests.antt =====
-- A frame of 65.2 % and -10.1 degrees, and a bus that stays low.
use ras_pi_arduino.Prelude.{
  ℕ, zero, suc, ◌+◌, ◌-◌, ◌/◌, ◌%◌, ◌^◌, ◌≡◌, refl, ap, ◌∙◌, arith, Bool, true, false,
}
use ras_pi_arduino.Prelude.{inl, not, some, List, [], ◌∷◌, ◌++◌, ltb, ◌==◌, if◌then◌else◌, get_or}
use ras_pi_arduino.Prelude.Bits.{test_bit}
use ras_pi_arduino.Prelude.Fields.{every, every_lem}
use ras_pi_arduino.Prelude.Signed.{pos}
use ras_pi_arduino.Machine.{Machine}
use ras_pi_arduino.Gpio.{pin_mode}
use ras_pi_arduino.Dht.{
  Sample, wait_from, or_bits, failed, no_error, bad_checksum, create, decode, read_data, wait_to,
  bus_hung,
}
use ras_pi_arduino.Dht.Decode.{Sends, decode_lem}
use ras_pi_arduino.Dht.Reads.{wait_to-ends}

agree : Bool → Bool → Bool
agree true b = b
agree false b = not b

agree-eq : (a b : Bool) → agree a b ≡ true → a ≡ b
unfolding agree
agree-eq true b h = ground (arith, h)
agree-eq false b h = ground (arith, h)

abbrev sent_at : List ℕ → ℕ → ℕ → ℕ → ℕ → Bool
sent_at times off n value k =
    agree (ltb 40 (get_or times (n - 1 - k + off) 0)) (test_bit value k == 1)

Sends-every :
    (times : List ℕ) (off n value : ℕ)
    → every n (sent_at times off n value) ≡ true
    → Sends times off n value
Sends-every times off n value passed i k e =
    ap (λ j. ltb 40 (get_or times (j + off) 0)) {y = n - 1 - k} (omega arith)
    ∙ agree-eq (ltb 40 (get_or times (n - 1 - k + off) 0)) (test_bit value k == 1)
        (every_lem n (sent_at times off n value) k (omega arith) passed)

abbrev pulses : ℕ → ℕ → List ℕ
pulses zero value = []
pulses (suc n) value = (if test_bit value n == 1 then 70 else 27) ∷ pulses n value

abbrev frame : List ℕ
frame = pulses 16 652 ++ (pulses 16 0x8065 ++ pulses 8 0x73)

decode_lem_example : decode frame (create 4) ≡ (
    if 0x73 == (652 / 2 ^ 8 + 652 % 2 ^ 8 + 0x8065 / 2 ^ 8 + 0x8065 % 2 ^ 8) % 2 ^ 8
    then (
      no_error,
      record (create 4) {
        last_humidity = pos (652 % 2 ^ 15);
        last_temperature =
            if ltb 0x8065 (2 ^ 15) then pos 0x8065 else pos ((2 ^ 16 - 0x8065) % 2 ^ 15);
      },
    )
    else (bad_checksum, create 4))
unfolding agree every
decode_lem_example =
    decode_lem frame 652 0x8065 0x73 (create 4) (omega arith) (omega arith) (omega arith)
      (Sends-every frame 0 16 652 refl) (Sends-every frame 16 16 0x8065 refl)
      (Sends-every frame 32 8 0x73 refl)

-- The temperature that the code reports for -101.
negative_temperature : (decode frame (create 4)).1.last_temperature ≡ pos 32667
unfolding decode or_bits create
negative_temperature = refl

abbrev at : ℕ → Sample
at t = record { clock = t; lev0 = 0 }

-- The pin stays low while the counter wraps: two polls in one microsecond, one before the wrap of
-- the counter and one behind it, which is late.
wait_to-ends_example :
    wait_to 4 false bus_hung 3
      (at 0xfffffffe ∷ at 0xfffffffe ∷ at 0xffffffff ∷ at 0xffffffff ∷ at 1 ∷ at 9 ∷ [])
    ≡ failed bus_hung
wait_to-ends_example =
    wait_to-ends 4 false bus_hung 3 0xfffffffe 0 ((0, 0) ∷ (1, 0) ∷ (1, 0) ∷ []) (3, 0) (at 9 ∷ [])
      (omega arith) (omega arith) (omega arith)
      ((omega arith, refl), ((omega arith, refl), ((omega arith, refl), tt))) (omega arith)
      (inl (omega arith))

abbrev machine : Machine
machine = record { mem = λ a. 0; trace = [] }

hung :
    read_data 5000 (at 7 ∷ at 300 ∷ []) (create 4) machine
    ≡ some (bus_hung, record (create 4) { last_read_time = 5000 }, pin_mode 4 0 machine)
unfolding read_data create wait_to wait_from
hung = refl

-- ===== src/Dht/Decode.antt =====
-- The times of the forty pulses, and the three numbers that the sensor sent.
use ras_pi_arduino.Prelude.{ℕ, zero, suc, ◌+◌, ◌-◌, ◌*◌, ◌/◌, ◌%◌, ◌^◌, ◌<◌, ◌≡◌, ap, ◌∙◌, arith}
use ras_pi_arduino.Prelude.{List, bit_or, ltb, ◌==◌, if◌then◌else◌, get_or}
use ras_pi_arduino.Prelude.Bits.{test_bit, test_bit-lt, bit_and-two_pow}
use ras_pi_arduino.Prelude.Fields.{bit_and_mask, bit_or-fields, mod-top}
use ras_pi_arduino.Prelude.Signed.{pos}
use ras_pi_arduino.Dht.{Dht, no_error, bad_checksum, or_bits, decode}
use native.Mathlib.Nat.{pow-suc, one-le-pow, mod-eq_of_lt}

-- The sensor sends a number of `n` bits, the highest first, from time `off` on: a time above 40
-- stands for a one.
abbrev pub Sends : List ℕ → ℕ → ℕ → ℕ → Type 0
Sends times off n value =
    (i k : ℕ) → i + suc k ≡ n → ltb 40 (get_or times (i + off) 0) ≡ (test_bit value k == 1)

or_step :
    (q n b : ℕ)
    → b < 2
    → (if b == 1 then bit_or (q * 2 ^ suc n) (2 ^ n) else q * 2 ^ suc n) ≡ (q * 2 + b) * 2 ^ n
or_step q n b h = ground (
  arith,
  ap (λ (t : ℕ). q * t) (pow-suc 2 n),
  bit_or-fields (suc n) q (2 ^ n) (omega (arith, pow-suc 2 n, one-le-pow n 2)),
)

or_bits-from :
    (times : List ℕ) (off top n i q value : ℕ)
    → i + n ≡ suc top
    → ((j k : ℕ) → j + suc k ≡ n → ltb 40 (get_or times (i + j + off) 0) ≡ (test_bit value k == 1))
    → or_bits times off top n i (q * 2 ^ n) ≡ q * 2 ^ n + value % 2 ^ n
unfolding or_bits
or_bits-from times off top zero i q value e sent = omega arith
or_bits-from times off top (suc n) i q value e sent =
    let shift : top - i ≡ n = omega arith in
    let first : ltb 40 (get_or times (i + off) 0) ≡ (test_bit value n == 1) =
      ap (λ k. ltb 40 (get_or times (k + off) 0)) {y = i + 0} (omega arith)
      ∙ sent 0 n (omega arith) in
    let next =
      or_bits-from times off top n (i + 1) (q * 2 + test_bit value n) value (omega arith) (λ j k p.
        ap (λ k. ltb 40 (get_or times (k + off) 0)) {y = i + suc j} (omega arith)
        ∙ sent (suc j) k (omega arith)) in
    let split = or_step q n (test_bit value n) (test_bit-lt value n) in
    rw (shift, first, split, next)
      (omega (arith, ap (λ (t : ℕ). q * t) (pow-suc 2 n), mod-top n value))

pub or_bits-Sends :
    (times : List ℕ) (off top value : ℕ)
    → value < 2 ^ suc top
    → Sends times off (suc top) value
    → or_bits times off top (suc top) 0 0 ≡ value
or_bits-Sends times off top value small sent = omega (
  arith,
  or_bits-from times off top (suc top) 0 0 value (omega arith)
      (λ j k p. ap (λ i. ltb 40 (get_or times (i + off) 0)) {y = j} (omega arith) ∙ sent j k p),
  mod-eq_of_lt small,
  ap (or_bits times off top (suc top) 0) {x = 0} {y = 0 * 2 ^ suc top} (omega arith),
)

-- If the times are those of a humidity and a temperature of 16 bits and of a checksum of 8 bits,
-- then the reading fails exactly if the checksum is not the sum of the four bytes, modulo 256. Else
-- the humidity is its low 15 bits; a temperature below 2 ^ 15 is what was sent, and of any other
-- one the code takes the low 15 bits of the negated number.
pub decode_lem :
    (times : List ℕ) (h t c : ℕ) (d : Dht)
    → h < 2 ^ 16
    → t < 2 ^ 16
    → c < 2 ^ 8
    → Sends times 0 16 h
    → Sends times 16 16 t
    → Sends times 32 8 c
    → decode times d ≡ (
        if c == (h / 2 ^ 8 + h % 2 ^ 8 + t / 2 ^ 8 + t % 2 ^ 8) % 2 ^ 8
        then (
          no_error,
          record d {
            last_humidity = pos (h % 2 ^ 15);
            last_temperature = if ltb t (2 ^ 15) then pos t else pos ((2 ^ 16 - t) % 2 ^ 15);
          },
        )
        else (bad_checksum, d))
unfolding decode
decode_lem times h t c d small_h small_t small_c sent_h sent_t sent_c =
    rw
      (
        or_bits-Sends times 0 15 h small_h sent_h,
        or_bits-Sends times 16 15 t small_t sent_t,
        or_bits-Sends times 32 7 c small_c sent_c,
      )
      (ground (
        arith,
        bit_and_mask 8 h,
        bit_and_mask 8 t,
        bit_and_mask 8 (h / 2 ^ 8 % 2 ^ 8 + h % 2 ^ 8 + t / 2 ^ 8 % 2 ^ 8 + t % 2 ^ 8),
        bit_and_mask 15 h,
        bit_and_mask 15 (2 ^ 32 - t),
        bit_and-two_pow 15 t,
        mod-top 15 t,
      ))

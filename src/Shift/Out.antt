-- ===== src/Shift/Out.antt =====
-- `shiftOut` sends the bits of its byte in the order that it is given.
use ras_pi_arduino.Prelude.{ℕ, zero, suc, ◌+◌, ◌<◌, ◌^◌, ◌≡◌, ◌≢◌, refl, ap, sym, ◌∙◌, arith}
use ras_pi_arduino.Prelude.{
  Bool, true, false, not, if◌then◌else◌, Bool-cases, inl, inr, List, [], ◌∷◌, ◌++◌, append_assoc,
  append-nil,
}
use ras_pi_arduino.Prelude.{◌==◌, bit_and}
use ras_pi_arduino.Prelude.Bits.{test_bit, test_bit-lt, bit_and-two_pow}
use native.Mathlib.Nat.{one-le-pow}
use ras_pi_arduino.Machine.{Machine}
use ras_pi_arduino.Shift.{bit_index, truth, shift_out_bit, shift_out_from, shift_out}
use ras_pi_arduino.Shift.Wires.{Receiver, watch, put_data, put_clock, watch-wait}
use ras_pi_arduino.Shift.Wires.{watch-write_data, watch-write_clock}

-- The bits of `val` in the order of transmission, from round `i` on, `n` of them.
unfoldable pub bits_sent : ℕ → ℕ → ℕ → ℕ → List Bool
bits_sent order val zero i = []
bits_sent order val (suc n) i =
    (test_bit val (bit_index order i) == 1) ∷ bits_sent order val n (i + 1)

-- The bits of a byte from the lowest to the highest if the order is LSBFIRST, which is 0, and from
-- the highest to the lowest otherwise.
abbrev pub byte_bits : ℕ → ℕ → List Bool
byte_bits order val =
    if order == 0
    then bit 0 ∷ bit 1 ∷ bit 2 ∷ bit 3 ∷ bit 4 ∷ bit 5 ∷ bit 6 ∷ bit 7 ∷ []
    else bit 7 ∷ bit 6 ∷ bit 5 ∷ bit 4 ∷ bit 3 ∷ bit 2 ∷ bit 1 ∷ bit 0 ∷ []
  where
    bit : ℕ → Bool
    bit k = test_bit val k == 1

pub bits_sent-byte_bits : (order val : ℕ) → bits_sent order val 8 0 ≡ byte_bits order val
unfolding bits_sent bit_index
bits_sent-byte_bits order val = elim (Bool-cases (order == 0)) [
  | inl h ↦ rw h refl
  | inr h ↦ rw h refl
]

truth_of_bit : (val k : ℕ) → not (truth (bit_and val (2 ^ k)) == 0) ≡ (test_bit val k == 1)
truth_of_bit val k = rw bit_and-two_pow (ground (arith, test_bit-lt val k, one-le-pow k 2))

module _ (d c order : ℕ) (apart : d ≢ c) (d_pin : d < 46) (c_pin : c < 46) where
  -- One round: with the clock low, the receiver takes one bit, and the clock is low again.
  watch-shift_out_bit :
      (val i : ℕ) (m : Machine) (r : Receiver)
      → watch d c (shift_out_bit d c order val i m) r
        ≡ put_clock false
            (put_clock true (put_data (test_bit val (bit_index order i) == 1) (watch d c m r)))
  unfolding shift_out_bit
  watch-shift_out_bit val i m r = rw (
    watch-wait,
    watch-write_clock d c apart 0 _ r c_pin,
    watch-wait,
    watch-write_clock d c apart 1 _ r c_pin,
    watch-write_data d c apart _ m r d_pin,
    truth_of_bit,
  )

  pub taken-shift_out_from :
      (val n i : ℕ) (m : Machine) (r : Receiver)
      → (watch d c m r).clock_level ≡ false
      → (watch d c (shift_out_from d c order val n i m) r).taken
        ≡ (watch d c m r).taken ++ bits_sent order val n i
  unfolding shift_out_from bits_sent put_clock put_data
  taken-shift_out_from val zero i m r low = sym (append-nil _)
  taken-shift_out_from val (suc n) i m r low =
      taken-shift_out_from val n (i + 1) (shift_out_bit d c order val i m) r
        (rw watch-shift_out_bit)
      ∙ rw (watch-shift_out_bit, low)
          (append_assoc (watch d c m r).taken ((test_bit val (bit_index order i) == 1) ∷ [])
            (bits_sent order val n (i + 1)))

-- A receiver that takes the data wire at each rise of the clock, which is low before, gets from
-- `shiftOut` the eight bits of the byte, the lowest first under LSBFIRST and the highest first
-- under any other order; the two pins differ and are among the 46.
pub taken-shift_out :
    (d c order val : ℕ) (m : Machine) (r : Receiver)
    → d ≢ c
    → d < 46
    → c < 46
    → (watch d c m r).clock_level ≡ false
    → (watch d c (shift_out d c order val m) r).taken ≡ (watch d c m r).taken ++ byte_bits order val
unfolding shift_out
taken-shift_out d c order val m r apart d_pin c_pin low =
    taken-shift_out_from d c order apart d_pin c_pin val 8 0 m r low
    ∙ ap (λ bits. (watch d c m r).taken ++ bits) (bits_sent-byte_bits order val)

-- ===== src/Shift/In.antt =====
-- `shiftIn` assembles the byte whose bits it reads, and undoes `shiftOut`.
use ras_pi_arduino.Prelude.{ℕ, zero, suc, ◌+◌, ◌-◌, ◌*◌, ◌<◌, ◌^◌, max, ◌≡◌, refl, ap, ◌∙◌, arith}
use ras_pi_arduino.Prelude.{◌≢◌, sym, Bool, true, false, List, [], ◌∷◌, ◌++◌, get_or}
use ras_pi_arduino.Prelude.{append_assoc, append-nil}
use ras_pi_arduino.Prelude.{ltb, ◌==◌, if◌then◌else◌, bit_or}
use ras_pi_arduino.Prelude.Bits.{u8, test_bit, test_bit-lt, test_bit-or, test_bit_ext, bit_or-lt}
use ras_pi_arduino.Prelude.Bits.{
  test_bit-shift_high, test_bit-shift_low, test_bit-small, test_bit-zero,
}
use native.Mathlib.Nat.{pow-le-pow_right}
use ras_pi_arduino.Machine.{Machine, wait}
use ras_pi_arduino.Gpio.{digital_read, digital_write}
use ras_pi_arduino.Shift.{bit_index, shift_out, shift_in_from, shift_in}
use ras_pi_arduino.Shift.Wires.{Receiver, watch, put_clock, watch-wait, watch-write_clock}
use ras_pi_arduino.Shift.Out.{bits_sent, byte_bits, bits_sent-byte_bits, taken-shift_out}

-- A place in the byte is filled in the round of the same number, counted from the end of the byte
-- where the transmission starts.
bit_index-bit_index : (order k : ℕ) → k < 8 → bit_index order (bit_index order k) ≡ k
unfolding bit_index
bit_index-bit_index order k h = ground arith

bit_index-lt : (order k : ℕ) → k < 8 → bit_index order k < 8
unfolding bit_index
bit_index-lt order k h = ground arith

one_bit : (b k j : ℕ) → b < 2 → test_bit (b * 2 ^ k) j ≡ (if j == k then b else 0)
one_bit b k j h =
    ground
      (arith, test_bit-shift_low b k j, test_bit-shift_high b k j, test_bit-small 1 b (j - k), same)
  where
    same : j ≡ k → test_bit b (j - k) ≡ b
    same e = let z : j - k ≡ 0 = omega arith in rw z (omega arith)

module _ (data_pin clock_pin order : ℕ) (reads : ℕ → ℕ × ℕ) (val : ℕ) where
  -- The reads give the bits of `val` in the order of transmission.
  abbrev Delivers : Type 0
  Delivers =
      (i : ℕ)
      → i < 8
      → digital_read (reads i).0 (reads i).1 data_pin ≡ test_bit val (bit_index order i)

  -- What is assembled before round `i`.
  record Assembled (i value : ℕ) : Type 0 where
    byte : value < 256
    bits :
        (k : ℕ)
        → k < 8
        → test_bit value k ≡ (if ltb (bit_index order k) i then test_bit val k else 0)

  abbrev next_value : ℕ → ℕ → ℕ
  next_value i value =
      u8 (bit_or value (digital_read (reads i).0 (reads i).1 data_pin * 2 ^ bit_index order i))

  Assembled-next :
      (i value : ℕ) → Delivers → i < 8 → Assembled i value → Assembled (i + 1) (next_value i value)
  Assembled-next i value sent h a = record {
    byte = omega arith;
    bits = λ k hk.
        no_wrap k
        ∙ ground (
          arith,
          a.bits k hk,
          one_bit (test_bit val place) place k (test_bit-lt val place),
          bit_index-bit_index order k hk,
          bit_index-bit_index order i h,
          ap (bit_index order) {x = k} {y = place},
          ap (bit_index order) {x = bit_index order k} {y = i},
          ap (test_bit val) {x = k} {y = place},
        );
  }
    where
      place : ℕ
      place = bit_index order i

      add : ℕ
      add = test_bit val place * 2 ^ place

      add-lt : (b : ℕ) → b < 2 → b * 2 ^ place < 256
      add-lt b hb = grind (
        arith,
        pow-le-pow_right {n = 2} (omega arith) {i = place} {j = 7}
            (omega (arith, bit_index-lt order i h)),
      )

      no_wrap : (k : ℕ) → test_bit (next_value i value) k ≡ max (test_bit value k) (test_bit add k)
      no_wrap k =
          ap (λ b. test_bit (u8 (bit_or value (b * 2 ^ place))) k) (sent i h)
          ∙ ap (λ x. test_bit x k) {x = u8 (bit_or value add)} {y = bit_or value add}
              (omega (
                arith,
                bit_or-lt 8 value add a.byte (add-lt (test_bit val place) (test_bit-lt val place)),
              ))
          ∙ test_bit-or value add k

  shift_in_from-Assembled :
      (n i value : ℕ) (m : Machine)
      → Delivers
      → n + i ≡ 8
      → Assembled i value
      → Assembled 8 (shift_in_from data_pin clock_pin order reads n i value m).0
  unfolding shift_in_from
  shift_in_from-Assembled zero i value m sent e a = let e' : i ≡ 8 = omega arith in rw e' at a
  shift_in_from-Assembled (suc n) i value m sent e a =
      shift_in_from-Assembled n (i + 1) _ _ sent (omega arith)
        (Assembled-next i value sent (omega arith) a)

  shift_in-Delivers :
      (m : Machine) → val < 256 → Delivers → (shift_in data_pin clock_pin order reads m).0 ≡ val
  unfolding shift_in
  shift_in-Delivers m small sent =
      test_bit_ext 8 (shift_in_from data_pin clock_pin order reads 8 0 0 m).0 val end.byte small
        (λ k hk. ground (arith, end.bits k hk, bit_index-lt order k hk))
    where
      start : Assembled 0 0
      start = record { byte = omega arith; bits = λ k hk. ground (arith, test_bit-zero k) }

      end : Assembled 8 (shift_in_from data_pin clock_pin order reads 8 0 0 m).0
      end = shift_in_from-Assembled 8 0 0 m sent refl start

abbrev pub copies : ℕ → Bool → List Bool
copies zero b = []
copies (suc n) b = b ∷ copies n b

-- The bit that a round of `shiftOut` sends, by its place in the byte.
get_or-bits_sent :
    (order val n j i : ℕ)
    → i < n
    → get_or (bits_sent order val n j) i false ≡ (test_bit val (bit_index order (j + i)) == 1)
unfolding bits_sent
get_or-bits_sent order val zero j i h = absurd (omega arith)
get_or-bits_sent order val (suc n) j zero h =
    ap (λ k. test_bit val (bit_index order k) == 1) {x = j} {y = j + 0} (omega arith)
get_or-bits_sent order val (suc n) j (suc i) h =
    get_or-bits_sent order val n (j + 1) i (omega arith)
    ∙ ap (λ k. test_bit val (bit_index order k) == 1) {x = j + 1 + i} {y = j + suc i} (omega arith)

module _ (data_pin clock_pin : ℕ) (apart : data_pin ≢ clock_pin) (c_pin : clock_pin < 46) where
  -- One round raises the clock once, and leaves it low.
  watch-round :
      (m : Machine) (r : Receiver)
      → watch data_pin clock_pin
          (wait 1 (digital_write clock_pin 0 (wait 1 (digital_write clock_pin 1 m))))
          r
        ≡ put_clock false (put_clock true (watch data_pin clock_pin m r))
  watch-round m r = rw (
    watch-wait,
    watch-write_clock data_pin clock_pin apart 0 _ r c_pin,
    watch-wait,
    watch-write_clock data_pin clock_pin apart 1 _ r c_pin,
  )

  clock-shift_in_from :
      (order n i value : ℕ) (reads : ℕ → ℕ × ℕ) (m : Machine) (r before : Receiver)
      → watch data_pin clock_pin m r ≡ before
      → before.clock_level ≡ false
      → (watch data_pin clock_pin
          (shift_in_from data_pin clock_pin order reads n i value m).1
          r).taken
        ≡ before.taken ++ copies n before.data_level
  unfolding shift_in_from put_clock
  clock-shift_in_from order zero i value reads m r before e low =
      ap (λ x. x.taken) e ∙ sym (append-nil before.taken)
  clock-shift_in_from order (suc n) i value reads m r before e low =
      clock-shift_in_from order n (i + 1) _ reads _ r (put_clock false (put_clock true before))
        (watch-round m r ∙ ap (λ x. put_clock false (put_clock true x)) e) refl
      ∙ rw low (append_assoc before.taken (before.data_level ∷ []) (copies n before.data_level))

-- `shiftIn` returns the byte that `shiftOut` sends under the same order, if its data pin reads in
-- the eight rounds, one after the other, the bits that a receiver of `shiftOut` takes, with its
-- clock low and nothing taken before; and it raises its own clock, which is low before, eight times.
-- The data and the clock pin of each side differ, and the pins that are driven are among the 46.
pub shift_in-shift_out :
    (d c data_pin clock_pin order val : ℕ) (reads : ℕ → ℕ × ℕ) (out m : Machine) (r r' : Receiver)
    → d ≢ c
    → d < 46
    → c < 46
    → data_pin ≢ clock_pin
    → clock_pin < 46
    → val < 256
    → (watch d c out r).clock_level ≡ false
    → (watch d c out r).taken ≡ []
    → (watch data_pin clock_pin m r').clock_level ≡ false
    → ((i : ℕ)
        → i < 8
        → digital_read (reads i).0 (reads i).1 data_pin
          ≡ (if get_or (watch d c (shift_out d c order val out) r).taken i false then 1 else 0))
    → ((shift_in data_pin clock_pin order reads m).0 ≡ val)
      × ((watch data_pin clock_pin (shift_in data_pin clock_pin order reads m).1 r').taken
          ≡ (watch data_pin clock_pin m r').taken
            ++ copies 8 (watch data_pin clock_pin m r').data_level)
unfolding shift_in
shift_in-shift_out d c data_pin clock_pin order val reads out m r r' da dp cp apart c_pin small low
      none low' sent =
    (
      shift_in-Delivers data_pin clock_pin order reads val m small delivers,
      clock-shift_in_from data_pin clock_pin apart c_pin order 8 0 0 reads m r' _ refl low',
    )
  where
    all_taken : (watch d c (shift_out d c order val out) r).taken ≡ byte_bits order val
    all_taken =
        taken-shift_out d c order val out r da dp cp low ∙ ap (λ xs. xs ++ byte_bits order val) none

    delivers : Delivers data_pin clock_pin order reads val
    delivers i h =
        sent i h
        ∙ ap (λ xs. if get_or xs i false then 1 else 0)
            (all_taken ∙ sym (bits_sent-byte_bits order val))
        ∙ ap (λ b. if b then 1 else 0) (get_or-bits_sent order val 8 0 i h)
        ∙ ground (arith, test_bit-lt val (bit_index order i))

-- ===== src/Gpio/Select.antt =====
-- `pinMode` sets the function of its pin, and of no other.
use ras_pi_arduino.Prelude.{
  ℕ, zero, suc, ◌+◌, ◌-◌, ◌*◌, ◌/◌, ◌^◌, ◌≤◌, ◌<◌, min, max, bit_and, bit_or,
}
use ras_pi_arduino.Prelude.{◌≡◌, ◌≢◌, ◌⊎◌, inl, inr, refl, ap, ◌∙◌, arith, ◌==◌, if◌then◌else◌}
use ras_pi_arduino.Prelude.Bits.{complement, test_bit, test_bit-and, test_bit-or, test_bit-lt}
use ras_pi_arduino.Prelude.Bits.{
  test_bit-shift_high, test_bit-shift_low, test_bit-flip, test_bit-small,
}
use native.Mathlib.Nat.{pow-le-pow_right}
use native.Mathlib.Decide.{ℕ_discrete as dec_eq}
use ras_pi_arduino.Machine.{Machine, store, wait, mem-store_self, mem-store_ne, gpfsel, gpfselb}
use ras_pi_arduino.Gpio.{select_function, clock_pull, set_pull, pin_mode}

-- Bit `i` of the function code that the registers hold for a pin.
abbrev pub function_bit : Machine → ℕ → ℕ → ℕ
function_bit m pin i = test_bit (m.mem (gpfsel pin)) (gpfselb pin + i)

seven_low : (k : ℕ) → k < 3 → test_bit 7 k ≡ 1
seven_low zero h = refl
seven_low (suc zero) h = refl
seven_low (suc (suc zero)) h = refl
seven_low (suc (suc (suc k))) h = absurd (omega arith)

-- A register whose field of three bits at `s` is cleared and then set from `mode`.
abbrev pub with_field : ℕ → ℕ → ℕ → ℕ
with_field r s mode = bit_or (bit_and r (complement (0x07 * 2 ^ s))) (bit_and mode 0x07 * 2 ^ s)

module _ (r s mode j : ℕ) (fits : s ≤ 29) (word : j < 32) where
  mask_bit : test_bit (complement (0x07 * 2 ^ s)) j ≡ 1 - test_bit (0x07 * 2 ^ s) j
  mask_bit =
      test_bit-flip 32 (0x07 * 2 ^ s) j (omega (arith, pow-le-pow_right {n = 2} (omega arith) fits))
        word

  as_bits :
      test_bit (with_field r s mode) j
      ≡ max
          (min (test_bit r j) (1 - test_bit (0x07 * 2 ^ s) j))
          (test_bit (bit_and mode 0x07 * 2 ^ s) j)
  as_bits = rw (test_bit-or, test_bit-and r (complement (0x07 * 2 ^ s)) j, mask_bit)

  -- Inside the field stands the new value.
  field_inside : s ≤ j → j < s + 3 → test_bit (with_field r s mode) j ≡ test_bit mode (j - s)
  field_inside lo hi = omega (
    arith,
    as_bits,
    test_bit-shift_high 7 s j lo,
    test_bit-shift_high (bit_and mode 7) s j lo,
    test_bit-and mode 7 (j - s),
    seven_low (j - s) (omega arith),
    test_bit-lt mode (j - s),
    test_bit-lt r j,
  )

  -- Outside the field nothing changes.
  field_outside : (j < s) ⊎ (s + 3 ≤ j) → test_bit (with_field r s mode) j ≡ test_bit r j
  field_outside (inl lo) = omega (
    arith,
    as_bits,
    test_bit-shift_low 7 s j lo,
    test_bit-shift_low (bit_and mode 7) s j lo,
    test_bit-lt r j,
  )
  field_outside (inr hi) = omega (
    arith,
    as_bits,
    test_bit-shift_high 7 s j (omega arith),
    test_bit-shift_high (bit_and mode 7) s j (omega arith),
    test_bit-and mode 7 (j - s),
    test_bit-small 3 7 (j - s) (omega arith) (omega arith),
    test_bit-lt r j,
  )

mem-select_self :
    (pin mode : ℕ) (m : Machine)
    → (select_function pin mode m).mem (gpfsel pin)
      ≡ with_field (m.mem (gpfsel pin)) (gpfselb pin) mode
unfolding select_function
mem-select_self pin mode m =
    mem-store_self (gpfsel pin) _ _
    ∙ ap (λ r. bit_or r (bit_and mode 0x07 * 2 ^ gpfselb pin)) (mem-store_self (gpfsel pin) _ m)

mem-select_ne :
    (pin mode a : ℕ) (m : Machine) → a ≢ gpfsel pin → (select_function pin mode m).mem a ≡ m.mem a
unfolding select_function
mem-select_ne pin mode a m h =
    rw (mem-store_ne (gpfsel pin) _ a _ h, mem-store_ne (gpfsel pin) _ a _ h)

-- The pull sequence stores to no function register.
mem-set_pull : (pin pud a : ℕ) (m : Machine) → a < 0x200094 → (set_pull pin pud m).mem a ≡ m.mem a
unfolding set_pull clock_pull wait store
mem-set_pull pin pud a m h = ground arith

mem-pin_mode :
    (pin mode a : ℕ) (m : Machine)
    → a < 0x200094
    → (pin_mode pin mode m).mem a ≡ (select_function pin mode m).mem a
unfolding pin_mode
mem-pin_mode pin mode a m h =
    ground (arith, mem-set_pull pin (bit_and mode 0x30 / 2 ^ 4) a (select_function pin mode m) h)

-- After `pinMode(pin, mode)` the three function bits of `pin` are the low bits of `mode`, and those
-- of every other pin are what they were, for the pins that the function registers have.
pub function_bit-pin_mode :
    (pin mode q i : ℕ) (m : Machine)
    → pin < 60
    → q < 60
    → i < 3
    → function_bit (pin_mode pin mode m) q i
      ≡ (if q == pin then test_bit mode i else function_bit m q i)
function_bit-pin_mode pin mode q i m hp hq hi = mem-bit ∙ elim (dec_eq q pin) [
  | yes e ↦ ground (arith, inside e)
  | no ne ↦ elim (dec_eq (gpfsel q) (gpfsel pin)) [
    | yes e ↦ ground (arith, other_field ne e)
    | no ne' ↦ ground (arith, other_word ne')
  ]
]
  where
    after : Machine
    after = select_function pin mode m

    mem-bit : function_bit (pin_mode pin mode m) q i ≡ function_bit after q i
    mem-bit =
        ap (λ r. test_bit r (gpfselb q + i)) (mem-pin_mode pin mode (gpfsel q) m (omega arith))

    inside : q ≡ pin → function_bit after q i ≡ test_bit mode i
    inside e =
        rw (e, mem-select_self)
          (field_inside (m.mem (gpfsel pin)) (gpfselb pin) mode (gpfselb pin + i) (omega arith)
              (omega arith) (omega arith) (omega arith)
            ∙ ap (λ k. test_bit mode k) {x = gpfselb pin + i - gpfselb pin} {y = i} (omega arith))

    other_field : q ≢ pin → gpfsel q ≡ gpfsel pin → function_bit after q i ≡ function_bit m q i
    other_field ne e =
        rw (e, mem-select_self)
          (field_outside (m.mem (gpfsel pin)) (gpfselb pin) mode (gpfselb q + i) (omega arith)
            (omega arith) (omega arith))

    other_word : gpfsel q ≢ gpfsel pin → function_bit after q i ≡ function_bit m q i
    other_word ne = ap (λ r. test_bit r (gpfselb q + i)) (mem-select_ne pin mode (gpfsel q) m ne)

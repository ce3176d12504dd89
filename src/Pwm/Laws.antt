-- ===== src/Pwm/Laws.antt =====
-- The divider of the modulation clock.
use ras_pi_arduino.Prelude.{
  ℕ, ◌+◌, ◌*◌, ◌/◌, ◌%◌, ◌^◌, ◌≤◌, ◌<◌, ◌≡◌, refl, ap, ◌∙◌, arith, some, bit_and, ◌==◌, false,
}
use ras_pi_arduino.Prelude.Bits.{u32}
use ras_pi_arduino.Prelude.Fields.{bit_and_mask}
use ras_pi_arduino.Pwm.{setup_div}

-- The divider is even, at least the quotient of the oscillator's clock by the product of the
-- frequency and the range, and at most one more; the product is below 2 ^ 32 and not 0, and the
-- quotient fits the twelve bits of the divider.
pub setup_div_lem :
    (frequency range : ℕ)
    → 0 < frequency * range
    → frequency * range < 2 ^ 32
    → 19200000 / (frequency * range) ≤ 4094
    → (d : ℕ) × (setup_div frequency range ≡ some d)
      × (d % 2 ≡ 0)
      × (19200000 / (frequency * range) ≤ d)
      × (d ≤ 19200000 / (frequency * range) + 1)
unfolding setup_div
setup_div_lem frequency range some_product small fits =
    let n = frequency * range in
    let q = 19200000 / n in
    let exact : u32 n ≡ n = omega arith in
    let nonzero : (n == 0) ≡ false = ground arith in
    let e : bit_and (q + bit_and q 1) 0xfff ≡ (q + q % 2) % 2 ^ 12 =
      ap (λ t. bit_and (q + t) 0xfff) (bit_and_mask 1 q) ∙ bit_and_mask 12 (q + q % 2) in
    (
      bit_and (q + bit_and q 1) 0xfff,
      rw (exact, nonzero) refl,
      rw e (omega arith),
      rw e (omega arith),
      rw e (omega arith),
    )

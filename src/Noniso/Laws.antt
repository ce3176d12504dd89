-- ===== src/Noniso/Laws.antt =====
-- The conversions give the numeral of their number in every base from 2 to 16.
use ras_pi_arduino.Prelude.{
  ℕ, Bool, zero, ◌⊎◌, suc, ◌+◌, ◌-◌, ◌*◌, ◌/◌, ◌≤◌, ◌<◌, ◌^◌, ◌≡◌, ◌≢◌, refl, ap, subst, ◌∙◌, arith,
}
use ras_pi_arduino.Prelude.{
  true, false, inl, inr, Option, none, some, List, [], ◌∷◌, ◌++◌, reverse, reverse-append,
}
use ras_pi_arduino.Prelude.{◌==◌, if◌then◌else◌, Bool-cases, ==→eq}
use ras_pi_arduino.Prelude.Signed.{ℤ, abs, is_negative}
use ras_pi_arduino.Prelude.Fields.{every, every_lem}
use native.Mathlib.Nat.{div-add-mod', pow-suc, mod-lt}
use ras_pi_arduino.Numeral.{digit_value, Spells, Spells-single, Spells-snoc}
use ras_pi_arduino.Noniso.{
  hex_digit, emit_digits, ultoa, utoa, ltoa, itoa, bad_base, with_sign, abs_word, reverse_chars,
}
use ras_pi_arduino.Noniso.Reverse.{reverse_chars_lem}

digit_value-hex_digit : (d : ℕ) → d < 16 → digit_value (hex_digit d) ≡ d
digit_value-hex_digit d h = ==→eq _ _ (every_lem 16 (λ k. digit_value (hex_digit k) == k) d h table)
  where
    table : every 16 (λ k. digit_value (hex_digit k) == k) ≡ true
    table = unfold every digit_value hex_digit in refl

-- The digits that the loop emits, read from the last to the first.
record Emits (base n : ℕ) (r : Option (List ℕ)) : Type 0 where
  out : List ℕ
  returns : r ≡ some out
  spells : Spells base n (reverse out)

fuel_left : (fuel q : ℕ) → q < 2 ^ fuel → q ≢ 0 → 0 < fuel
fuel_left zero q h ne = absurd (ne (omega arith))
fuel_left (suc fuel) q h ne = omega arith

emit_digits-Emits :
    (fuel base n : ℕ)
    → 2 ≤ base
    → base ≤ 16
    → n < 2 ^ fuel
    → 0 < fuel
    → Emits base n (emit_digits fuel base n)
unfolding emit_digits
emit_digits-Emits zero base n lo hi enough p = absurd (omega arith)
emit_digits-Emits (suc fuel) base n lo hi enough p = elim (Bool-cases (n / base == 0)) [
  | inl last ↦ rw last record {
    out = c ∷ [];
    returns = refl;
    spells =
        subst (λ k. Spells base k (c ∷ [])) (value_of_c ∙ only (==→eq _ _ last))
          (Spells-single base c c_digit);
  }
  | inr more ↦
      let ne : n / base ≢ 0 = λ e. ground arith in
      let rest =
        emit_digits-Emits fuel base (n / base) lo hi halved (fuel_left fuel (n / base) halved ne) in
      rw (more, rest.returns)
        record {
          out = c ∷ rest.out;
          returns = refl;
          spells = rw (reverse-append (c ∷ []) rest.out) (
              subst (λ k. Spells base k (reverse rest.out ++ (c ∷ []))) whole
                (Spells-snoc base (n / base) (reverse rest.out) c ne c_digit rest.spells));
        }
]
  where
    d : ℕ
    d = n - n / base * base

    c : ℕ
    c = hex_digit d

    d-lt : d < base
    d-lt = omega (arith, div-add-mod' n base, mod-lt n {m = base} (omega arith))

    halved : n / base < 2 ^ fuel
    halved =
        let twice : n / base * 2 ≤ n / base * base = grind arith in
        omega (arith, twice, div-add-mod' n base, pow-suc 2 fuel)

    value_of_c : digit_value c ≡ d
    value_of_c = digit_value-hex_digit d (omega (arith, d-lt))

    c_digit : digit_value c < base
    c_digit = rw value_of_c d-lt

    only : n / base ≡ 0 → d ≡ n
    only e = rw e (omega arith)

    whole : n / base * base + digit_value c ≡ n
    whole = rw value_of_c (omega (arith, div-add-mod' n base))

-- A base from 2 to 16.
abbrev pub IsBase : ℕ → Type 0
IsBase base = (2 ≤ base) × (base ≤ 16)

-- `r` is the numeral of `n`.
pub record Prints (base n : ℕ) (r : Option (List ℕ)) : Type 0 where
  pub text : List ℕ
  pub returns : r ≡ some text
  pub spells : Spells base n text

-- `ultoa` prints every number of 32 bits in every base from 2 to 16; its loop ends.
pub ultoa-Prints :
    (value base : ℕ) → IsBase base → value < 2 ^ 32 → Prints base value (ultoa value base)
unfolding ultoa
ultoa-Prints value base b small =
    let e = emit_digits-Emits 32 base value b.0 b.1 small (omega arith) in
    let good : bad_base base ≡ false = ground arith in
    rw (good, e.returns)
      record {
        text = reverse e.out;
        returns = ap some (reverse_chars_lem e.out);
        spells = e.spells;
      }

-- `utoa` agrees with `ultoa`, as `itoa` does with `ltoa`: `int` and `long` have the same width.
pub utoa-ultoa : (value base : ℕ) → utoa value base ≡ ultoa value base
unfolding utoa ultoa
utoa-ultoa value base = refl

pub itoa-ltoa : (value : ℤ) (base : ℕ) → itoa value base ≡ ltoa value base
unfolding itoa ltoa
itoa-ltoa value base = refl

-- The numeral of the absolute value, behind a minus sign for a negative number.
pub record PrintsSigned (base : ℕ) (z : ℤ) (r : Option (List ℕ)) : Type 0 where
  pub text : List ℕ
  pub returns : r ≡ some (if is_negative z then b'-' ∷ text else text)
  pub spells : Spells base (abs z) text

-- `ltoa` prints every number of 32 bits but the least, in every base from 2 to 16.
pub ltoa-PrintsSigned :
    (z : ℤ) (base : ℕ) → IsBase base → abs z < 2 ^ 31 → PrintsSigned base z (ltoa z base)
unfolding ltoa with_sign
ltoa-PrintsSigned z base b small =
    let e = emit_digits-Emits 32 base (abs z) b.0 b.1 (omega arith) (omega arith) in
    let good : bad_base base ≡ false = ground arith in
    let word : abs_word z ≡ some (abs z) = ground arith in
    rw (good, word, e.returns)
      record {
        text = reverse e.out;
        returns = ap some (signed (is_negative z) e.out);
        spells = e.spells;
      }
  where
    signed :
        (s : Bool) (out : List ℕ)
        → reverse_chars (if s then out ++ (b'-' ∷ []) else out)
          ≡ (if s then b'-' ∷ reverse out else reverse out)
    signed true out = reverse_chars_lem (out ++ (b'-' ∷ [])) ∙ reverse-append out (b'-' ∷ [])
    signed false out = reverse_chars_lem out

-- A base out of range gives the empty string.
pub bad_base_lem :
    (value base : ℕ) (z : ℤ)
    → (base < 2) ⊎ (16 < base)
    → (ultoa value base ≡ some []) × (ltoa z base ≡ some [])
unfolding ultoa ltoa
bad_base_lem value base z h = ground arith

-- The least `long` has no numeral: the conversion reads outside its text of digits.
pub ltoa_least : (z : ℤ) (base : ℕ) → IsBase base → abs z ≡ 2 ^ 31 → ltoa z base ≡ none
unfolding ltoa
ltoa_least z base b e = ground arith

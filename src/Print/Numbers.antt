-- ===== src/Print/Numbers.antt =====
-- `print` writes the numeral of its number.
use ras_pi_arduino.Prelude.{
  ℕ, zero, suc, ◌+◌, ◌-◌, ◌*◌, ◌/◌, ◌%◌, ◌≤◌, ◌<◌, ◌^◌, ◌≡◌, ◌≢◌, refl, sym, ap, subst, ◌∙◌, arith,
}
use ras_pi_arduino.Prelude.{
  true, false, inl, inr, Option, some, List, [], ◌∷◌, ◌++◌, append_assoc, append-nil,
}
use ras_pi_arduino.Prelude.{length, length-append, All, ltb, ◌==◌, if◌then◌else◌, Bool-cases, ==→eq}
use ras_pi_arduino.Prelude.Bits.{u8}
use ras_pi_arduino.Prelude.Fields.{every, every_lem}
use ras_pi_arduino.Prelude.Signed.{ℤ, pos, negsuc, abs, is_negative, IsLong}
use ras_pi_arduino.Numeral.{digit_value, Spells, Spells-single, Spells-snoc, IsDigit}
use ras_pi_arduino.Print.{number_char, number_digits, c_string, print_number, print_long}
use native.Mathlib.Nat.{div-add-mod, pow-suc, mod-lt}

digit_value-number_char : (d : ℕ) → d < 36 → digit_value (number_char d) ≡ d
digit_value-number_char d h =
    ==→eq _ _ (every_lem 36 (λ k. digit_value (number_char k) == k) d h table)
  where
    table : every 36 (λ k. digit_value (number_char k) == k) ≡ true
    table = unfold every digit_value number_char in refl

-- The numeral of `n` in front of what was there before, in at most `room` characters.
record Fills (base n room : ℕ) (str : List ℕ) (r : Option (List ℕ)) : Type 0 where
  ds : List ℕ
  returns : r ≡ some (ds ++ str)
  spells : Spells base n ds
  fits : length ds ≤ room

quotient-lt : (n base room : ℕ) → 2 ≤ base → n < 2 ^ suc room → n / base < 2 ^ room
quotient-lt n base room lo h =
    let twice : n / base * 2 ≤ base * (n / base) = grind arith in
    omega (arith, twice, div-add-mod n base, pow-suc 2 room)

room_left : (room q : ℕ) → q < 2 ^ room → q ≢ 0 → 0 < room
room_left zero q h ne = absurd (ne (omega arith))
room_left (suc room) q h ne = omega arith

number_digits-Fills :
    (room base n : ℕ) (str : List ℕ)
    → 2 ≤ base
    → base ≤ 36
    → n < 2 ^ room
    → 0 < room
    → Fills base n room str (number_digits room base n str)
unfolding number_digits
number_digits-Fills zero base n str lo hi enough p = absurd (omega arith)
number_digits-Fills (suc room) base n str lo hi enough p = elim (Bool-cases (n / base == 0)) [
  | inl last ↦ rw last record {
    ds = c ∷ [];
    returns = refl;
    spells =
        subst (λ k. Spells base k (c ∷ [])) (value_of_c ∙ only (==→eq _ _ last))
          (Spells-single base c c_digit);
    fits = omega arith;
  }
  | inr more ↦
      let ne : n / base ≢ 0 = λ e. ground arith in
      let half = quotient-lt n base room lo enough in
      let rest =
        number_digits-Fills room base (n / base) (c ∷ str) lo hi half
          (room_left room (n / base) half ne) in
      rw more record {
        ds = rest.ds ++ (c ∷ []);
        returns = rest.returns ∙ ap some (sym (append_assoc rest.ds (c ∷ []) str));
        spells =
            subst (λ k. Spells base k (rest.ds ++ (c ∷ []))) whole
              (Spells-snoc base (n / base) rest.ds c ne c_digit rest.spells);
        fits = omega (arith, rest.fits, length-append rest.ds (c ∷ []));
      }
]
  where
    d : ℕ
    d = u8 (n - base * (n / base))

    c : ℕ
    c = number_char d

    same : d ≡ n - base * (n / base)
    same = omega (arith, div-add-mod n base, mod-lt n {m = base} (omega arith))

    d-lt : d < base
    d-lt = omega (arith, same, div-add-mod n base, mod-lt n {m = base} (omega arith))

    value_of_c : digit_value c ≡ d
    value_of_c = digit_value-number_char d (omega (arith, d-lt))

    c_digit : digit_value c < base
    c_digit = rw value_of_c d-lt

    only : n / base ≡ 0 → d ≡ n
    only e = omega (arith, same, ap (λ (t : ℕ). base * t) e)

    whole : n / base * base + digit_value c ≡ n
    whole = rw value_of_c (omega (arith, same, div-add-mod n base))

-- A string of digits holds no NUL.
c_string-digits : (base : ℕ) (ds : List ℕ) → base ≤ 36 → All (IsDigit base) ds → c_string ds ≡ ds
unfolding c_string
c_string-digits base [] h a = refl
c_string-digits base (c ∷ cs) h a =
    let ne : (c == 0) ≡ false = unfold digit_value in ground arith in
    rw (ne, c_string-digits base cs h a.1)

-- The numeral of `n`, in at most 32 characters.
pub record Prints (base n : ℕ) (r : Option (List ℕ)) : Type 0 where
  pub text : List ℕ
  pub returns : r ≡ some text
  pub spells : Spells base n text
  pub fits : length text ≤ 32

-- `printNumber` writes the numeral of every number of 32 bits in every base from 2 to 36; the loop
-- ends, and stays inside its buffer of 32 characters.
pub print_number-Prints :
    (n base : ℕ) → 2 ≤ base → base ≤ 36 → n < 2 ^ 32 → Prints base n (print_number n base)
unfolding print_number
print_number-Prints n base lo hi small =
    let f = number_digits-Fills 32 base n [] lo hi small (omega arith) in
    let b : (if ltb base 2 then 10 else base) ≡ base = ground arith in
    rw (b, print_number, f.returns)
      record {
        text = f.ds;
        returns =
            ap some (ap c_string (append-nil f.ds) ∙ c_string-digits base f.ds hi f.spells.digits);
        spells = f.spells;
        fits = f.fits;
      }

pub record PrintsSigned (z : ℤ) (r : Option (List ℕ)) : Type 0 where
  pub text : List ℕ
  pub returns : r ≡ some (if is_negative z then b'-' ∷ text else text)
  pub spells : Spells 10 (abs z) text

-- `print(n)` of a `long` writes in decimal its absolute value, behind a minus sign if it is
-- negative, the least number included.
pub print_long-PrintsSigned : (z : ℤ) → IsLong z → PrintsSigned z (print_long z 10)
unfolding print_long
print_long-PrintsSigned (pos n) h =
    let word : n % 2 ^ 32 ≡ n = omega arith in
    let p = print_number-Prints n 10 (omega arith) (omega arith) (omega arith) in
    rw word record { text = p.text; returns = p.returns; spells = p.spells }
print_long-PrintsSigned (negsuc n) h =
    let word : suc n % 2 ^ 32 ≡ suc n = omega arith in
    let p = print_number-Prints (suc n) 10 (omega arith) (omega arith) (omega arith) in
    rw (word, print_long, p.returns) record { text = p.text; returns = refl; spells = p.spells }

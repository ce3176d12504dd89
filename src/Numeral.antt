-- ===== src/Numeral.antt =====
-- What a string of digits says: the specification of the code that prints and reads numbers.
use ras_pi_arduino.Prelude.{ℕ, ◌+◌, ◌-◌, ◌*◌, ◌≤◌, ◌<◌, ◌≡◌, ◌≢◌, refl, ap, ◌∙◌, arith}
use ras_pi_arduino.Prelude.{Bool, ◌&&◌, List, [], ◌∷◌, ◌++◌, All, length, length-append}
use ras_pi_arduino.Prelude.{leb, if◌then◌else◌, get_or}

abbrev pub is_decimal : ℕ → Bool
is_decimal c = leb b'0' c && leb c b'9'

-- The value of a digit of either case; 36 for a character that is no digit.
unfoldable pub digit_value : ℕ → ℕ
digit_value c =
    if is_decimal c
    then c - b'0'
    else if leb b'a' c && leb c b'z'
    then c - b'a' + 10
    else if leb b'A' c && leb c b'Z'
    then c - b'A' + 10
    else 36

module _ (base : ℕ) where
  -- The number that digits spell after `acc` has been read.
  unfoldable pub numeral_from : ℕ → List ℕ → ℕ
  numeral_from acc [] = acc
  numeral_from acc (c ∷ cs) = numeral_from (acc * base + digit_value c) cs

  abbrev pub IsDigit : ℕ → Type 0
  IsDigit c = digit_value c < base

  pub numeral_from-snoc :
      (acc : ℕ) (cs : List ℕ) (c : ℕ)
      → numeral_from acc (cs ++ (c ∷ [])) ≡ numeral_from acc cs * base + digit_value c
  unfolding numeral_from
  numeral_from-snoc acc [] c = refl
  numeral_from-snoc acc (d ∷ cs) c = numeral_from-snoc (acc * base + digit_value d) cs c

  -- `ds` is the numeral of `n`: it has its value, at least one digit, only digits, and no zero in
  -- front, but for the one digit of zero.
  pub record Spells (n : ℕ) (ds : List ℕ) : Type 0 where
    pub value : numeral_from 0 ds ≡ n
    pub digits : All IsDigit ds
    pub some_digit : 1 ≤ length ds
    pub no_zero : n ≢ 0 → digit_value (get_or ds 0 0) ≢ 0
    pub single : n ≡ 0 → length ds ≡ 1

  pub All-snoc : (ds : List ℕ) (c : ℕ) → All IsDigit ds → IsDigit c → All IsDigit (ds ++ (c ∷ []))
  All-snoc [] c h k = (k, tt)
  All-snoc (d ∷ ds) c h k = (h.0, All-snoc ds c h.1 k)

  get_or-snoc : (ds : List ℕ) (c : ℕ) → 1 ≤ length ds → get_or (ds ++ (c ∷ [])) 0 0 ≡ get_or ds 0 0
  get_or-snoc [] c h = absurd (omega arith)
  get_or-snoc (d ∷ ds) c h = refl

  pub numeral_from_mono : (acc : ℕ) (ds : List ℕ) → 1 ≤ base → acc ≤ numeral_from acc ds
  unfolding numeral_from
  numeral_from_mono acc [] h = omega arith
  numeral_from_mono acc (d ∷ ds) h =
      let rest : acc * base + digit_value d ≤ numeral_from (acc * base + digit_value d) ds =
        numeral_from_mono (acc * base + digit_value d) ds h in
      grind arith

  -- A numeral of one digit.
  pub Spells-single : (c : ℕ) → IsDigit c → Spells (digit_value c) (c ∷ [])
  unfolding numeral_from
  Spells-single c h = record {
    value = omega arith;
    digits = (h, tt);
    some_digit = omega arith;
    no_zero = λ p. p;
    single = λ _. refl;
  }

  -- A digit behind the numeral of a number that is not zero.
  pub Spells-snoc :
      (n : ℕ) (ds : List ℕ) (c : ℕ)
      → n ≢ 0
      → IsDigit c
      → Spells n ds
      → Spells (n * base + digit_value c) (ds ++ (c ∷ []))
  Spells-snoc n ds c ne h s = record {
    value = numeral_from-snoc 0 ds c ∙ ap (λ t. t * base + digit_value c) s.value;
    digits = All-snoc ds c s.digits h;
    some_digit = omega (arith, length-append ds (c ∷ []));
    no_zero = λ _. rw (get_or-snoc ds c s.some_digit) (s.no_zero ne);
    single = λ e. absurd (ne (grind arith));
  }

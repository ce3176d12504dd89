-- ===== src/Ip/Parse.antt =====
-- Reading what was printed gives the address back, and what is read is a dotted quad.
use ras_pi_arduino.Prelude.{ℕ, suc, ◌+◌, ◌-◌, ◌*◌, ◌≤◌, ◌<◌, ◌≡◌, refl, sym, ap, ◌∙◌, arith}
use ras_pi_arduino.Prelude.{true, false, some, List, [], ◌∷◌, ◌++◌, append_assoc, append-nil}
use ras_pi_arduino.Prelude.{length, set, All, ◌==◌}
use ras_pi_arduino.Prelude.Bits.{u8, u16}
use ras_pi_arduino.Numeral.{
  is_decimal, digit_value, numeral_from, numeral_from_mono, IsDigit, Spells,
}
use ras_pi_arduino.Print.{print_unsigned}
use ras_pi_arduino.Print.Numbers.{Prints, print_number-Prints}
use ras_pi_arduino.Ip.{Address, from_string_from, from_string, print_to}

-- A character of a decimal numeral is one that the code takes for a digit.
decimal_digit : (c : ℕ) → IsDigit 10 c → (is_decimal c ≡ true) × (digit_value c ≡ c - b'0')
unfolding digit_value
decimal_digit c h = ground arith

-- The digits of a number up to 255 bring the accumulator to that number.
read_digits :
    (acc dots : ℕ) (ds rest : List ℕ) (a : Address)
    → All (IsDigit 10) ds
    → numeral_from 10 acc ds ≤ 255
    → from_string_from acc dots (ds ++ rest) a
      ≡ from_string_from (numeral_from 10 acc ds) dots rest a
unfolding from_string_from numeral_from
read_digits acc dots [] rest a all small = refl
read_digits acc dots (c ∷ ds) rest a all small =
    let d = decimal_digit c all.0 in
    let mono : acc * 10 + digit_value c ≤ 255 =
      omega (arith, numeral_from_mono 10 (acc * 10 + digit_value c) ds (omega arith)) in
    let same : u16 (acc * 10 + (c - b'0')) ≡ acc * 10 + digit_value c = omega (arith, d.1) in
    step d.0 same (omega arith) ∙ read_digits (acc * 10 + digit_value c) dots ds rest a all.1 small
  where
    step :
        is_decimal c ≡ true
        → u16 (acc * 10 + (c - b'0')) ≡ acc * 10 + digit_value c
        → acc * 10 + digit_value c ≤ 255
        → from_string_from acc dots ((c ∷ ds) ++ rest) a
          ≡ from_string_from (acc * 10 + digit_value c) dots (ds ++ rest) a
    step digit same mono = ground (arith, ap (λ t. from_string_from t dots (ds ++ rest) a) same)

-- A dot stores the accumulator.
read_dot :
    (acc dots : ℕ) (rest : List ℕ) (a : Address)
    → acc < 256
    → dots < 3
    → from_string_from acc dots (b'.' ∷ rest) a
      ≡ from_string_from 0 (suc dots) rest (set a dots acc)
unfolding from_string_from
read_dot acc dots rest a h k =
    let no : (dots == 3) ≡ false = ground arith in
    let next : u8 (dots + 1) ≡ suc dots = omega arith in
    let byte : u8 acc ≡ acc = omega arith in
    ground (
      arith,
      ap (λ t. from_string_from 0 t rest (set a dots acc)) next,
      ap (λ t. from_string_from 0 (u8 (dots + 1)) rest (set a dots t)) byte,
    )

octet : (n : ℕ) → n < 256 → Prints 10 n (print_unsigned n 10)
unfolding print_unsigned
octet n h = print_number-Prints n 10 (omega arith) (omega arith) (omega arith)

-- An octet and the dot behind it.
read_octet :
    (n dots : ℕ) (ds rest : List ℕ) (before : Address)
    → Spells 10 n ds
    → n < 256
    → dots < 3
    → from_string_from 0 dots (ds ++ (b'.' ∷ rest)) before
      ≡ from_string_from 0 (suc dots) rest (set before dots n)
read_octet n dots ds rest before s h k =
    read_digits 0 dots ds (b'.' ∷ rest) before s.digits (rw s.value (omega arith))
    ∙ rw s.value (read_dot n dots rest before h k)

read_last :
    (n : ℕ) (ds : List ℕ) (before : Address)
    → Spells 10 n ds
    → n < 256
    → from_string_from 0 3 ds before ≡ (true, set before 3 n)
unfolding from_string_from
read_last n ds before s h =
    ap (λ t. from_string_from 0 3 t before) (sym (append-nil ds))
    ∙ read_digits 0 3 ds [] before s.digits (rw s.value (omega arith))
    ∙ rw s.value (let byte : u8 n ≡ n = omega arith in rw byte)

overwrite :
    (a b c d : ℕ) (before : Address)
    → length before ≡ 4
    → set (set (set (set before 0 a) 1 b) 2 c) 3 d ≡ a ∷ b ∷ c ∷ d ∷ []
overwrite a b c d [] h = absurd (omega arith)
overwrite a b c d (w ∷ []) h = absurd (omega arith)
overwrite a b c d (w ∷ x ∷ []) h = absurd (omega arith)
overwrite a b c d (w ∷ x ∷ y ∷ []) h = absurd (omega arith)
overwrite a b c d (w ∷ x ∷ y ∷ z ∷ []) h = refl
overwrite a b c d (w ∷ x ∷ y ∷ z ∷ v ∷ vs) h = absurd (omega arith)

-- `fromString` of what `printTo` prints succeeds and gives the address, whatever was there before.
pub from_string-print_to :
    (a b c d : ℕ) (before : Address)
    → a < 256
    → b < 256
    → c < 256
    → d < 256
    → length before ≡ 4
    → (text : List ℕ) × (print_to (a ∷ b ∷ c ∷ d ∷ []) ≡ some text)
      × (from_string text before ≡ (true, a ∷ b ∷ c ∷ d ∷ []))
unfolding print_to from_string
from_string-print_to a b c d before ha hb hc hd four =
    let p = octet a ha in
    let q = octet b hb in
    let r = octet c hc in
    let s = octet d hd in
    let dot : List ℕ = b'.' ∷ [] in
    (
      (((((p.text ++ dot) ++ q.text) ++ dot) ++ r.text) ++ dot) ++ s.text,
      rw (p.returns, q.returns, r.returns, s.returns),
      simp append_assoc (
          read_octet a 0 p.text _ before p.spells ha (omega arith)
          ∙ read_octet b 1 q.text _ _ q.spells hb (omega arith)
          ∙ read_octet c 2 r.text _ _ r.spells hc (omega arith)
          ∙ read_last d s.text _ s.spells hd
          ∙ ap (λ t. (true, t)) (overwrite a b c d before four)),
    )

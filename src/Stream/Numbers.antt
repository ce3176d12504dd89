-- ===== src/Stream/Numbers.antt =====
-- `parseInt` reads what `print` writes.
use ras_pi_arduino.Prelude.{ℕ, zero, suc, ◌+◌, ◌-◌, ◌*◌, ◌≤◌, ◌<◌, ◌^◌, ◌≡◌, ◌≢◌, refl, ap, arith}
use ras_pi_arduino.Prelude.{Bool, true, false, ◌||◌, Option, none, some, List, [], ◌∷◌, ◌++◌, map}
use ras_pi_arduino.Prelude.{◌⊎◌}
use ras_pi_arduino.Prelude.{length, length-append, All, ◌==◌, if◌then◌else◌, inl, inr}
use ras_pi_arduino.Prelude.Bits.{u32}
use ras_pi_arduino.Prelude.Signed.{ℤ, pos, negsuc, IsLong}
use ras_pi_arduino.Numeral.{
  is_decimal, digit_value, numeral_from, numeral_from_mono, IsDigit, Spells,
}
use ras_pi_arduino.Print.{print_long}
use ras_pi_arduino.Print.Numbers.{print_long-PrintsSigned}
use ras_pi_arduino.Stream.{Slot, byte, poll, timed_peek, timed_peek_from, skip_all}
use ras_pi_arduino.Stream.{may_skip, found, peek_next_digit, take_char, parse_digits, parse_int}

abbrev pub bytes : List ℕ → List Slot
bytes = map byte

-- NO_IGNORE_CHAR, the default: no byte of a number.
abbrev pub no_ignore_char : ℕ
no_ignore_char = 1

-- A number ends here: the next byte is no digit and no ignored byte, or does not come in time.
abbrev pub ends_number : Option ℕ → Bool
ends_number none = true
ends_number (some c) = if is_decimal c || c == no_ignore_char then false else true

decimal_digit :
    (c : ℕ) → IsDigit 10 c → (is_decimal c ≡ true) × (c ≡ digit_value c + b'0') × (c ≤ b'9')
unfolding digit_value
decimal_digit c h = ground arith

module _ (timeout : ℕ) (rest : List Slot)
    (stop : ends_number (timed_peek timeout rest).0 ≡ true) where
  take_digit :
      (c value : ℕ) (negative : Bool)
      → IsDigit 10 c
      → value * 10 + digit_value c < 2 ^ 32
      → take_char no_ignore_char c value negative ≡ (value * 10 + digit_value c, negative)
  unfolding take_char
  take_digit c value negative h small =
      let d = decimal_digit c h in
      let same : u32 (value * 10 + c - b'0') ≡ value * 10 + digit_value c = omega (arith, d.1) in
      ground (arith, d.0, d.1, d.2)

  parse_digits_lem :
      (fuel c value : ℕ) (negative : Bool) (ds : List ℕ)
      → length ds < fuel
      → All (IsDigit 10) (c ∷ ds)
      → numeral_from 10 value (c ∷ ds) < 2 ^ 32
      → parse_digits timeout fuel no_ignore_char c value negative (bytes (c ∷ ds) ++ rest)
        ≡ some (numeral_from 10 value (c ∷ ds), negative, (timed_peek timeout rest).1)
  unfolding parse_digits numeral_from poll timed_peek timed_peek_from
  parse_digits_lem zero c value negative ds h all small = absurd (omega arith)
  parse_digits_lem (suc fuel) c value negative [] h all small =
      ground (arith, take_digit c value negative all.0 small, stop)
  parse_digits_lem (suc fuel) c value negative (d ∷ ds) h all small =
      let low : value * 10 + digit_value c < 2 ^ 32 =
        omega (arith, numeral_from_mono 10 (value * 10 + digit_value c) (d ∷ ds) (omega arith)) in
      ground (
        arith,
        take_digit c value negative all.0 low,
        decimal_digit d all.1.0,
        parse_digits_lem fuel d (value * 10 + digit_value c) negative ds (omega arith) all.1 small,
      )

  -- The same behind a minus sign.
  parse_digits-minus :
      (fuel c : ℕ) (ds : List ℕ)
      → suc (length ds) < fuel
      → All (IsDigit 10) (c ∷ ds)
      → numeral_from 10 0 (c ∷ ds) < 2 ^ 32
      → parse_digits timeout fuel no_ignore_char b'-' 0 false (bytes (b'-' ∷ c ∷ ds) ++ rest)
        ≡ some (numeral_from 10 0 (c ∷ ds), true, (timed_peek timeout rest).1)
  unfolding parse_digits poll timed_peek timed_peek_from take_char
  parse_digits-minus zero c ds h all small = absurd (omega arith)
  parse_digits-minus (suc fuel) c ds h all small =
      ground
        (arith, decimal_digit c all.0, parse_digits_lem fuel c 0 true ds (omega arith) all small)

-- A byte that `parseInt` passes over before a number.
abbrev pub IsJunk : ℕ → Type 0
IsJunk c = (is_decimal c ≡ false) × (c ≢ b'-')

skip_junk :
    (timeout fuel c : ℕ) (junk : List ℕ) (rest : List Slot)
    → length junk < fuel
    → All IsJunk junk
    → (is_decimal c ≡ true) ⊎ (c ≡ b'-')
    → peek_next_digit timeout fuel skip_all false (bytes junk ++ (byte c ∷ rest))
      ≡ found c (byte c ∷ rest)
unfolding peek_next_digit may_skip poll timed_peek timed_peek_from
skip_junk timeout zero c junk rest h all start = absurd (omega arith)
skip_junk timeout (suc fuel) c [] rest h all start = ground arith
skip_junk timeout (suc fuel) c (j ∷ junk) rest h all start =
    ground (arith, skip_junk timeout fuel c junk rest (omega arith) all.1 start)

length-bytes : (cs : List ℕ) → length (bytes cs) ≡ length cs
length-bytes [] = refl
length-bytes (c ∷ cs) = ap suc (length-bytes cs)

module _ (timeout : ℕ) (junk : List ℕ) (rest : List Slot) (skipped : All IsJunk junk)
    (stop : ends_number (timed_peek timeout rest).0 ≡ true) where
  found_at :
      (c : ℕ) (input : List Slot)
      → (is_decimal c ≡ true) ⊎ (c ≡ b'-')
      → peek_next_digit timeout
          (suc (length (bytes junk ++ (byte c ∷ input))))
          skip_all
          false
          (bytes junk ++ (byte c ∷ input))
        ≡ found c (byte c ∷ input)
  found_at c input start =
      skip_junk timeout (suc (length (bytes junk ++ (byte c ∷ input)))) c junk input
        (omega (arith, length-append (bytes junk) (byte c ∷ input), length-bytes junk)) skipped
        start

  abbrev Reads : ℤ → List ℕ → Type 0
  Reads z text =
      parse_int timeout skip_all no_ignore_char (bytes junk ++ (bytes text ++ rest))
      ≡ some (z, (timed_peek timeout rest).1)

  read_positive : (n : ℕ) (text : List ℕ) → n < 2 ^ 31 → Spells 10 n text → Reads (pos n) text
  unfolding parse_int
  read_positive n [] small s = absurd (omega (arith, s.some_digit))
  read_positive n (c ∷ ds) small s =
      let e = found_at c (bytes ds ++ rest) (inl (decimal_digit c s.digits.0).0) in
      let p =
        parse_digits_lem timeout rest stop (suc (length (bytes (c ∷ ds) ++ rest))) c 0 false ds
          (omega (arith, length-append (bytes ds) rest, length-bytes ds)) s.digits
          (rw s.value (omega arith)) in
      ground (arith, e, p, s.value)

  read_negative :
      (k : ℕ) (text : List ℕ) → k < 2 ^ 31 → Spells 10 (suc k) text → Reads (negsuc k) (b'-' ∷ text)
  unfolding parse_int
  read_negative k [] small s = absurd (omega (arith, s.some_digit))
  read_negative k (c ∷ ds) small s =
      let e = found_at b'-' (bytes (c ∷ ds) ++ rest) (inr refl) in
      let p =
        parse_digits-minus timeout rest stop (suc (length (bytes (b'-' ∷ c ∷ ds) ++ rest))) c ds
          (omega (arith, length-append (bytes ds) rest, length-bytes ds)) s.digits
          (rw s.value (omega arith)) in
      ground (arith, e, p, s.value)

-- `parseInt` on what `print` writes for a `long`, with bytes in front that are neither digits nor
-- minus signs, and a byte behind that ends the number or none in time, returns that `long`, and
-- leaves the stream at that byte.
pub parse_int-print_long :
    (timeout : ℕ) (z : ℤ) (junk : List ℕ) (rest : List Slot)
    → IsLong z
    → All IsJunk junk
    → ends_number (timed_peek timeout rest).0 ≡ true
    → (text : List ℕ) × (print_long z 10 ≡ some text)
      × (parse_int timeout skip_all no_ignore_char (bytes junk ++ (bytes text ++ rest))
          ≡ some (z, (timed_peek timeout rest).1))
parse_int-print_long timeout (pos n) junk rest long skipped stop =
    let p = print_long-PrintsSigned (pos n) long in
    (p.text, p.returns, read_positive timeout junk rest skipped stop n p.text long p.spells)
parse_int-print_long timeout (negsuc k) junk rest long skipped stop =
    let p = print_long-PrintsSigned (negsuc k) long in
    (b'-' ∷ p.text, p.returns, read_negative timeout junk rest skipped stop k p.text long p.spells)

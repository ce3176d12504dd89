-- ===== src/Noniso.antt =====
-- `ltoa`, `ultoa`, `itoa` and `utoa` of cores/piduino/stdlib_noniso.cpp. The result is the string
-- in the buffer, without its terminator; `long` and `int` have 32 bits on the ARM of the board.
mod Tests
pub mod Reverse
pub mod Laws
use ras_pi_arduino.Prelude.{ℕ, zero, suc, ◌+◌, ◌-◌, ◌*◌, ◌/◌, ◌<◌, ◌^◌, Bool, true, false, ◌||◌}
use ras_pi_arduino.Prelude.{Option, none, some, List, [], ◌∷◌, ◌++◌, length, get_or, set}
use ras_pi_arduino.Prelude.{ltb, ◌==◌, if◌then◌else◌}
use ras_pi_arduino.Prelude.Signed.{ℤ, pos, negsuc, abs, is_negative}

-- `reverse(begin, end)` on the array from offset `i` to before offset `e`, with the rounds that
-- are left at most.
unfoldable pub reverse_range : ℕ → ℕ → ℕ → List ℕ → List ℕ
reverse_range zero i e buf = buf
reverse_range (suc rounds) i e buf =
    let tmp = get_or buf (e - 1) 0 in
    let swapped = set (set buf (e - 1) (get_or buf i 0)) i tmp in
    let rest = reverse_range rounds (i + 1) (e - 1) swapped in if ltb (i + 1) e then rest else buf

-- A round takes two characters off the range.
unfoldable pub reverse_chars : List ℕ → List ℕ
reverse_chars buf = reverse_range (length buf) 0 (length buf) buf

-- `"0123456789abcdef"[d]`; the code reads it at a `d` below the base.
abbrev hex_digits : List ℕ
hex_digits =
    b'0' ∷ b'1' ∷ b'2' ∷ b'3' ∷ b'4' ∷ b'5' ∷ b'6' ∷ b'7' ∷ b'8' ∷ b'9' ∷ b'a' ∷ b'b' ∷ b'c' ∷ b'd'
    ∷ b'e' ∷ b'f' ∷ []

unfoldable pub hex_digit : ℕ → ℕ
hex_digit d = get_or hex_digits d 0

-- The loop over the quotients, which writes the lowest digit first; `none` if the fuel runs out.
unfoldable pub emit_digits : ℕ → ℕ → ℕ → Option (List ℕ)
emit_digits zero base quotient = none
emit_digits (suc fuel) base quotient =
    let tmp = quotient / base in
    let c = hex_digit (quotient - tmp * base) in
    let rest = emit_digits fuel base tmp in
    if tmp == 0 then some (c ∷ []) else elim rest [ none ↦ none | some cs ↦ some (c ∷ cs) ]

abbrev pub bad_base : ℕ → Bool
bad_base base = ltb base 2 || ltb 16 base

-- A quotient of 32 bits loses at least one bit in each round.
unfoldable pub ultoa : ℕ → ℕ → Option (List ℕ)
ultoa value base =
    if bad_base base
    then some []
    else elim (emit_digits 32 base value) [ none ↦ none | some out ↦ some (reverse_chars out) ]

unfoldable pub utoa : ℕ → ℕ → Option (List ℕ)
utoa value base =
    if bad_base base
    then some []
    else elim (emit_digits 32 base value) [ none ↦ none | some out ↦ some (reverse_chars out) ]

-- `abs(value)`. The least `long` has no positive counterpart: the quotient stays negative and the
-- first digit is read from before the text, a fault.
abbrev pub abs_word : ℤ → Option ℕ
abs_word z = if ltb (abs z) (2 ^ 31) then some (abs z) else none

unfoldable pub with_sign : ℤ → List ℕ → List ℕ
with_sign z out = reverse_chars (if is_negative z then out ++ (b'-' ∷ []) else out)

unfoldable pub ltoa : ℤ → ℕ → Option (List ℕ)
ltoa value base = if bad_base base then some [] else elim (abs_word value) [
  | none ↦ none
  | some quotient ↦ elim (emit_digits 32 base quotient) [
    | none ↦ none
    | some out ↦ some (with_sign value out)
  ]
]

unfoldable pub itoa : ℤ → ℕ → Option (List ℕ)
itoa value base = if bad_base base then some [] else elim (abs_word value) [
  | none ↦ none
  | some quotient ↦ elim (emit_digits 32 base quotient) [
    | none ↦ none
    | some out ↦ some (with_sign value out)
  ]
]

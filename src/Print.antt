-- ===== src/Print.antt =====
-- The printing of numbers in cores/piduino/Print.cpp. A function gives the bytes that it sends to
-- `write(uint8_t)`, whose number it returns; `long` has 32 bits. `none` means that the loop ran out
-- of fuel, or wrote before the start of its buffer.
mod Tests
pub mod Numbers
use ras_pi_arduino.Prelude.{ℕ, zero, suc, ◌+◌, ◌-◌, ◌*◌, ◌/◌, ◌<◌, ◌^◌, true, false}
use ras_pi_arduino.Prelude.{Option, none, some, List, [], ◌∷◌, ◌++◌, ltb, ◌==◌, if◌then◌else◌}
use ras_pi_arduino.Prelude.Bits.{u8, u32}
use ras_pi_arduino.Prelude.Signed.{ℤ, abs, is_negative, to_word}

-- A digit as `printNumber` writes it.
unfoldable pub number_char : ℕ → ℕ
number_char c = u8 (if ltb c 10 then c + b'0' else c + b'A' - 10)

-- The loop of `printNumber`, which fills its buffer from the end. The buffer has room for 32
-- characters before the terminator, and each round takes one: the fuel is the room left.
unfoldable pub number_digits : ℕ → ℕ → ℕ → List ℕ → Option (List ℕ)
number_digits zero base n str = none
number_digits (suc room) base n str =
    let m = n / base in
    let c = u8 (n - base * m) in
    let rest = number_digits room base m (number_char c ∷ str) in
    if m == 0 then some (number_char c ∷ str) else rest

-- `write(str)`: the bytes before the first NUL.
unfoldable pub c_string : List ℕ → List ℕ
c_string [] = []
c_string (c ∷ cs) = if c == 0 then [] else c ∷ c_string cs

unfoldable pub print_number : ℕ → ℕ → Option (List ℕ)
print_number n base =
    let b = if ltb base 2 then 10 else base in
    elim (number_digits 32 b n []) [ none ↦ none | some str ↦ some (c_string str) ]

-- `print(unsigned long, int)`.
unfoldable pub print_unsigned : ℕ → ℕ → Option (List ℕ)
print_unsigned n base = if base == 0 then some (u8 n ∷ []) else print_number n (u8 base)

-- `print(long, int)`; the negation of the least number wraps to itself.
unfoldable pub print_long : ℤ → ℕ → Option (List ℕ)
print_long n base =
    if base == 0
    then some (u8 (to_word 32 n) ∷ [])
    else if base == 10
    then if is_negative n
      then elim (print_number (u32 (abs n)) 10) [ none ↦ none | some s ↦ some (b'-' ∷ s) ]
      else print_number (to_word 32 n) 10
    else print_number (to_word 32 n) (u8 base)

-- `println()`, and `println` of what another call prints.
unfoldable pub println : List ℕ
println = b'\x0d' ∷ b'\x0a' ∷ []

unfoldable pub print_line : Option (List ℕ) → Option (List ℕ)
print_line none = none
print_line (some s) = some (s ++ println)

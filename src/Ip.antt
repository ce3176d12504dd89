-- ===== src/Ip.antt =====
-- cores/piduino/IPAddress.cpp: an IPv4 address as four bytes, read from text and printed.
mod Tests
pub mod Parse
use ras_pi_arduino.Prelude.{ℕ, ◌+◌, ◌-◌, ◌*◌, Bool, true, false, ◌&&◌, Option, none, some}
use ras_pi_arduino.Prelude.{List, [], ◌∷◌, ◌++◌, length, get_or, set, ltb, ◌==◌, if◌then◌else◌}
use ras_pi_arduino.Prelude.Bits.{u8, u16}
use ras_pi_arduino.Numeral.{is_decimal}
use ras_pi_arduino.Print.{print_unsigned}

-- `_address.bytes`.
abbrev pub Address : Type 0
Address = List ℕ

-- `IPAddress()` and `IPAddress(a, b, c, d)`.
unfoldable pub zero_address : Address
zero_address = 0 ∷ 0 ∷ 0 ∷ 0 ∷ []

unfoldable pub from_octets : ℕ → ℕ → ℕ → ℕ → Address
from_octets a b c d = u8 a ∷ u8 b ∷ u8 c ∷ u8 d ∷ []

-- The loop of `fromString`, with its accumulator and its count of dots. It stores the bytes as it
-- goes, so a failure leaves those that it has read.
unfoldable pub from_string_from : ℕ → ℕ → List ℕ → Address → Bool × Address
from_string_from acc dots [] address =
    if dots == 3 then (true, set address 3 (u8 acc)) else (false, address)
from_string_from acc dots (c ∷ cs) address = elim (is_decimal c) [
  | true ↦
      let acc' : ℕ = u16 (acc * 10 + (c - b'0')) in
      elim (ltb 255 acc') [
        | true ↦ (false, address)
        | false ↦ from_string_from acc' dots cs address
      ]
  | false ↦ elim (c == b'.') [
    | true ↦ elim (dots == 3) [
      | true ↦ (false, address)
      | false ↦ from_string_from 0 (u8 (dots + 1)) cs (set address dots (u8 acc))
    ]
    | false ↦ (false, address)
  ]
]

unfoldable pub from_string : List ℕ → Address → Bool × Address
from_string text address = from_string_from 0 0 text address

-- `operator==`.
unfoldable pub equals : Address → Address → Bool
equals a b =
    get_or a 0 0 == get_or b 0 0
    && get_or a 1 0 == get_or b 1 0
    && get_or a 2 0 == get_or b 2 0
    && get_or a 3 0 == get_or b 3 0

infixl 5 ◌then_print◌
abbrev ◌then_print◌ : Option (List ℕ) → Option (List ℕ) → Option (List ℕ)
none then_print q = none
some s then_print none = none
some s then_print some t = some (s ++ t)

-- `printTo`: what it prints, and with it the count that it returns.
unfoldable pub print_to : Address → Option (List ℕ)
print_to a =
    let dot = some (b'.' ∷ []) in
    print_unsigned (get_or a 0 0) 10
    then_print dot
    then_print print_unsigned (get_or a 1 0) 10
    then_print dot
    then_print print_unsigned (get_or a 2 0) 10
    then_print dot
    then_print print_unsigned (get_or a 3 0) 10

-- ===== src/Stream.antt =====
-- The parsing methods of cores/piduino/Stream.cpp. What a stream will deliver is a list of slots: a
-- byte that is there, or a poll that finds nothing and the milliseconds until the next poll. After
-- the last slot nothing comes. An `int` that is a byte or -1 is an option.
mod Tests
pub mod Timing
pub mod Numbers
pub mod Find
pub mod Searches
use ras_pi_arduino.Prelude.{ℕ, zero, suc, ◌+◌, ◌-◌, ◌*◌, ◌^◌, Bool, true, false, ◌&&◌, ◌||◌}
use ras_pi_arduino.Prelude.{
  Option, none, some, List, [], ◌∷◌, ◌++◌, length, ltb, ◌==◌, if◌then◌else◌,
}
use ras_pi_arduino.Prelude.Bits.{u32}
use ras_pi_arduino.Prelude.Signed.{ℤ, pos, from_word}
use ras_pi_arduino.Numeral.{is_decimal}

pub data Slot : Type 0 where
  gap : ℕ → Slot
  byte : ℕ → Slot

-- `read()` of the stream, for the state that it leaves.
unfoldable pub poll : List Slot → List Slot
poll [] = []
poll (s ∷ input) = input

module _ (timeout : ℕ) where
  -- The loops of `timedRead` and `timedPeek` after `elapsed` milliseconds of waiting, which
  -- `millis() - _startMillis` gives modulo 2 ^ 32.
  unfoldable pub timed_read_from : ℕ → List Slot → Option ℕ × List Slot
  timed_read_from elapsed [] = (none, [])
  timed_read_from elapsed (byte c ∷ input) = (some c, input)
  timed_read_from elapsed (gap d ∷ input) =
      if ltb (u32 (elapsed + d)) timeout then timed_read_from (elapsed + d) input else (none, input)

  unfoldable pub timed_peek_from : ℕ → List Slot → Option ℕ × List Slot
  timed_peek_from elapsed [] = (none, [])
  timed_peek_from elapsed (byte c ∷ input) = (some c, byte c ∷ input)
  timed_peek_from elapsed (gap d ∷ input) =
      if ltb (u32 (elapsed + d)) timeout then timed_peek_from (elapsed + d) input else (none, input)

  unfoldable pub timed_read : List Slot → Option ℕ × List Slot
  timed_read input = timed_read_from 0 input

  unfoldable pub timed_peek : List Slot → Option ℕ × List Slot
  timed_peek input = timed_peek_from 0 input

  -- `readBytes`: the bytes that it stores, whose number it returns.
  unfoldable pub read_bytes : ℕ → List Slot → List ℕ × List Slot
  read_bytes zero input = ([], input)
  read_bytes (suc n) input =
      let (c, rest) = timed_read input in
      elim c [ none ↦ ([], rest) | some b ↦ let (bs, end) = read_bytes n rest in (b ∷ bs, end) ]

  unfoldable pub read_bytes_until : ℕ → ℕ → List Slot → List ℕ × List Slot
  read_bytes_until terminator zero input = ([], input)
  read_bytes_until terminator (suc n) input =
      let (c, rest) = timed_read input in
      elim c [
        | none ↦ ([], rest)
        | some b ↦
            let more = read_bytes_until terminator n rest in
            if b == terminator then ([], rest) else (b ∷ more.0, more.1)
      ]

pub data Lookahead : Type 0 where
  skip_all skip_none skip_whitespace : Lookahead

-- The `switch` of `peekNextDigit`: may this character be passed over?
unfoldable pub may_skip : Lookahead → ℕ → Bool
may_skip skip_all c = true
may_skip skip_none c = false
may_skip skip_whitespace c = c == b' ' || c == b'\x09' || c == b'\x0d' || c == b'\x0a'

-- What the loops return for -1 and on fuel that ran out.
pub data Found : Type 0 where
  found : ℕ → List Slot → Found
  nothing : List Slot → Found
  out_of_fuel : Found

-- One character of a number: the new value, modulo 2 ^ 32, and sign.
unfoldable pub take_char : ℕ → ℕ → ℕ → Bool → ℕ × Bool
take_char ignore c value negative =
    if c == ignore
    then (value, negative)
    else if c == b'-'
    then (value, true)
    else if is_decimal c
    then (u32 (value * 10 + c - b'0'), negative)
    else (value, negative)

module _ (timeout : ℕ) where
  -- `peekNextDigit`; each round but the last takes a byte.
  unfoldable pub peek_next_digit : ℕ → Lookahead → Bool → List Slot → Found
  peek_next_digit zero lookahead detect_decimal input = out_of_fuel
  peek_next_digit (suc fuel) lookahead detect_decimal input =
      let (c, rest) = timed_peek timeout input in
      elim c [
        | none ↦ nothing rest
        | some b ↦
            let more = peek_next_digit fuel lookahead detect_decimal (poll rest) in
            if b == b'-' || is_decimal b || (detect_decimal && b == b'.')
            then found b rest
            else if may_skip lookahead b
            then more
            else nothing rest
      ]

  -- The loop of `parseInt` at the character `c`, with which `input` begins.
  unfoldable pub parse_digits : ℕ → ℕ → ℕ → ℕ → Bool → List Slot → Option (ℕ × Bool × List Slot)
  parse_digits zero ignore c value negative input = none
  parse_digits (suc fuel) ignore c value negative input =
      let (value', negative') = take_char ignore c value negative in
      let (next, rest) = timed_peek timeout (poll input) in
      elim next [
        | none ↦ some (value', negative', rest)
        | some d ↦
            let more = parse_digits fuel ignore d value' negative' rest in
            if is_decimal d || d == ignore then more else some (value', negative', rest)
      ]

  -- `parseInt`: the number, and what is left of the stream.
  unfoldable pub parse_int : Lookahead → ℕ → List Slot → Option (ℤ × List Slot)
  parse_int lookahead ignore input =
      elim (peek_next_digit (suc (length input)) lookahead false input) [
        | out_of_fuel ↦ none
        | nothing rest ↦ some (pos 0, rest)
        | found c rest ↦ elim (parse_digits (suc (length rest)) ignore c 0 false rest) [
          | none ↦ none
          | some r ↦ some (from_word 32 (if r.1 then u32 (2 ^ 32 - r.0) else r.0), r.2)
        ]
      ]

-- ===== src/Stream/Tests.antt =====
-- A stream that pauses, and the number -42 behind a blank.
use ras_pi_arduino.Prelude.{ℕ, ◌≡◌, refl, List, [], ◌∷◌, arith, some, ◌++◌}
use ras_pi_arduino.Prelude.Signed.{ℤ, negsuc}
use ras_pi_arduino.Prelude.{Bool, false, ◌⊎◌}
use ras_pi_arduino.Stream.Find.{find, find_until, find_from}
use ras_pi_arduino.Stream.Searches.{bytes_in, find_until-Found}
use ras_pi_arduino.Print.{print_long}
use ras_pi_arduino.Stream.{
  Slot, gap, byte, timed_read, timed_peek, timed_peek_from, timed_read_from, skip_all, parse_int,
}
use ras_pi_arduino.Stream.Timing.{parse_int-returns}
use ras_pi_arduino.Stream.Numbers.{bytes, no_ignore_char, parse_int-print_long}

abbrev pauses : List ℕ
pauses = 400 ∷ 599 ∷ []

parse_int-returns_example :
    (r : ℤ × List Slot) × (parse_int 1000 skip_all 1 (byte b' ' ∷ gap 5 ∷ byte b'7' ∷ []) ≡ some r)
parse_int-returns_example = parse_int-returns 1000 skip_all 1 (byte b' ' ∷ gap 5 ∷ byte b'7' ∷ [])

parse_int-print_long_example :
    (text : List ℕ) × (print_long (negsuc 41) 10 ≡ some text)
    × (parse_int 1000 skip_all no_ignore_char
          (bytes (b' ' ∷ []) ++ (bytes text ++ (byte b'x' ∷ [])))
        ≡ some (negsuc 41, (timed_peek 1000 (byte b'x' ∷ [])).1))
unfolding timed_peek timed_peek_from
parse_int-print_long_example =
    parse_int-print_long 1000 (negsuc 41) (b' ' ∷ []) (byte b'x' ∷ []) (omega arith)
      ((refl, λ e. absurd (omega (arith, e))), tt) refl

find_until-Found_example :
    (r : Bool × List Slot) × (find_until 1000
        (b'o' ∷ b'k' ∷ [])
        []
        (byte b'o' ∷ gap 5 ∷ byte b'k' ∷ byte b'!' ∷ [])
      ≡ some r)
    × ((r.0 ≡ false)
        ⊎ ((v : List ℕ) × (bytes_in (byte b'o' ∷ gap 5 ∷ byte b'k' ∷ byte b'!' ∷ [])
              ≡ v ++ ((b'o' ∷ b'k' ∷ []) ++ bytes_in r.1))))
find_until-Found_example =
    find_until-Found 1000 (b'o' ∷ b'k' ∷ []) [] (byte b'o' ∷ gap 5 ∷ byte b'k' ∷ byte b'!' ∷ [])
      (λ e. omega (arith, e))

-- The target "aab" stands in "aaab", but is not found.
missed :
    find 1000 (b'a' ∷ b'a' ∷ b'b' ∷ []) (byte b'a' ∷ byte b'a' ∷ byte b'a' ∷ byte b'b' ∷ [])
    ≡ some (false, [])
unfolding find find_until find_from timed_read timed_read_from
missed = refl

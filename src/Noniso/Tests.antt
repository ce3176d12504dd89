-- ===== src/Noniso/Tests.antt =====
-- Conversions of 255 and of small signed numbers.
use ras_pi_arduino.Prelude.{ℕ, List, [], ◌∷◌, arith}
use ras_pi_arduino.Noniso.{ultoa}
use ras_pi_arduino.Noniso.Laws.{Prints, ultoa-Prints}

abbrev word : List ℕ
word = b'a' ∷ b'b' ∷ b'c' ∷ []

ultoa-Prints_example : Prints 16 255 (ultoa 255 16)
ultoa-Prints_example = ultoa-Prints 255 16 (omega arith, omega arith) (omega arith)

-- ===== src/Spi/Tests.antt =====
-- Two bytes to a chip, under a clock that idles high.
use ras_pi_arduino.Prelude.{◌≡◌, ◌++◌, refl, arith, false, some, List, [], ◌∷◌, map}
use ras_pi_arduino.Prelude.Bits.{u8}
use ras_pi_arduino.Machine.{Machine}
use ras_pi_arduino.Spi.Chip.{Chip, heard}
use ras_pi_arduino.Spi.Session.{Exchange, session, bytes_in_mode, session-Taken}

abbrev quiet : Machine
quiet = record { mem = λ _. 0; trace = [] }

abbrev chip : Chip
chip = record { active = false; phase = 0; polarity = 0; taken = [] }

abbrev calls : List Exchange
calls =
    record { polls = 0 ∷ 0x20000 ∷ []; incoming = 0x17; value = 0x9f }
    ∷ record { polls = 0x20000 ∷ []; incoming = 0x142; value = 0 }
    ∷ []

chip_gets : bytes_in_mode 8 calls ≡ (0x9f, 0, 1) ∷ (0, 0, 1) ∷ []
chip_gets = refl

session-Taken_example :
    (m' : Machine) × (session 4000000 8 calls quiet ≡ some (map (λ x. u8 x.incoming) calls, m'))
    × ((heard m' chip).taken ≡ (heard quiet chip).taken ++ bytes_in_mode 8 calls)
session-Taken_example =
    session-Taken 4000000 8 calls quiet chip (λ e. absurd (omega (arith, e))) (refl, (refl, tt))

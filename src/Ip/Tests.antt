-- ===== src/Ip/Tests.antt =====
-- The address 192.168.1.254.
use ras_pi_arduino.Prelude.{ℕ, ◌≡◌, refl, List, [], ◌∷◌, arith, some, true}
use ras_pi_arduino.Ip.{from_string, print_to}
use ras_pi_arduino.Ip.Parse.{from_string-print_to}

from_string-print_to_example :
    (text : List ℕ) × (print_to (192 ∷ 168 ∷ 1 ∷ 254 ∷ []) ≡ some text)
    × (from_string text (1 ∷ 2 ∷ 3 ∷ 4 ∷ []) ≡ (true, 192 ∷ 168 ∷ 1 ∷ 254 ∷ []))
from_string-print_to_example =
    from_string-print_to 192 168 1 254 (1 ∷ 2 ∷ 3 ∷ 4 ∷ []) (omega arith) (omega arith)
      (omega arith) (omega arith) refl

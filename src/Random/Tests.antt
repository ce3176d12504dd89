-- ===== src/Random/Tests.antt =====
-- Numbers from -100 to 1023.
use ras_pi_arduino.Prelude.{◌≡◌, refl, arith, true, none, some}
use ras_pi_arduino.Prelude.Signed.{ℤ, pos, negsuc}
use ras_pi_arduino.Random.{at_most, as_long, map}
use ras_pi_arduino.Random.Scale.{map-Scales}

map_rounds : map (pos 7) (negsuc 9) (pos 10) (pos 100) (negsuc 99) ≡ some (negsuc 69)
unfolding map as_long
map_rounds = refl

map_of_empty_range : map (pos 7) (pos 3) (pos 3) (pos 0) (pos 9) ≡ none
unfolding map as_long
map_of_empty_range = refl

map-Scales_example :
    (u v : ℤ) × (map (pos 512) (pos 0) (pos 1023) (negsuc 99) (pos 255) ≡ some u)
    × (map (pos 600) (pos 0) (pos 1023) (negsuc 99) (pos 255) ≡ some v)
    × (at_most (negsuc 99) u ≡ true)
    × (at_most u v ≡ true)
    × (at_most v (pos 255) ≡ true)
    × (map (pos 0) (pos 0) (pos 1023) (negsuc 99) (pos 255) ≡ some (negsuc 99))
    × (map (pos 1023) (pos 0) (pos 1023) (negsuc 99) (pos 255) ≡ some (pos 255))
map-Scales_example =
    map-Scales (pos 512) (pos 600) (pos 0) (pos 1023) (negsuc 99) (pos 255) refl refl refl refl refl
      (omega arith) (omega arith) (omega arith) (omega arith)

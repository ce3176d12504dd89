-- ===== src/Registers/Tests.antt =====
-- The ninth page cannot be mapped.
use ras_pi_arduino.Prelude.{◌≡◌, refl, Bool, true, false, List, ◌∷◌, ◌++◌, length, replicate}
use ras_pi_arduino.Registers.{null, bases, map_registers}
use ras_pi_arduino.Registers.Pages.{mapped_or_undone, map_registers_lem}

abbrev answers : List Bool
answers = replicate 8 true ++ (false ∷ replicate 4 true)

map_registers_lem_example :
    map_registers 0x1f000000 true answers (replicate (length bases) null)
    ≡ mapped_or_undone 0x1f000000 bases true answers
map_registers_lem_example = map_registers_lem 0x1f000000 true answers (unfold bases in refl)

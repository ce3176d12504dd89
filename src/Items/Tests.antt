-- ===== src/Items/Tests.antt =====
-- A list of strings, with the equality of the class String.
use ras_pi_arduino.Prelude.{ℕ, ◌≡◌, arith, some, List, [], ◌∷◌}
use ras_pi_arduino.Text.{Text, unset, equals}
use ras_pi_arduino.Items.{Items}
use ras_pi_arduino.Items.Refine.{Holds, new_heap, new_heap-Holds}
use ras_pi_arduino.Items.Calls.{Call, add, contains, get, remove_at, remove_string, length_of, free}
use ras_pi_arduino.Items.Calls.{perform_all, on_list_all, perform_all-on_list_all}

abbrev empty : Items Text
empty = record { first = 0; heap = new_heap }

abbrev word : ℕ → Text
word c = record { buffer = some (c ∷ []); capacity = 1 }

abbrev calls : List (Call Text)
calls =
    add (word b'a')
    ∷ add (word b'b')
    ∷ add (word b'c')
    ∷ remove_at 1
    ∷ contains (word b'b')
    ∷ get 1
    ∷ remove_string (word b'a')
    ∷ length_of
    ∷ free
    ∷ []

perform_all-on_list_all_example :
    (s' : Items Text) × (perform_all equals unset 10 calls empty
      ≡ some ((on_list_all equals unset calls []).0, s'))
    × Holds s' (on_list_all equals unset calls []).1
perform_all-on_list_all_example =
    perform_all-on_list_all equals unset 10 calls new_heap-Holds (omega arith)

-- ===== src/Text/Tests.antt =====
-- Calls on the string "hello".
use ras_pi_arduino.Prelude.{ℕ, ◌≡◌, refl, Bool, true, some, none, [], ◌∷◌}
use ras_pi_arduino.Text.{Text, change_buffer}
use ras_pi_arduino.Text.Search.{has_prefix, strstr, last_match, last_index_of}
use ras_pi_arduino.Text.Edit.{replace, replace_backward, replace_forward, count_matches}

abbrev hello : Text
hello = record { buffer = some (b'h' ∷ b'e' ∷ b'l' ∷ b'l' ∷ b'o' ∷ []); capacity = 5 }

abbrev he : Text
he = record { buffer = some (b'h' ∷ b'e' ∷ []); capacity = 2 }

abbrev always : ℕ → Bool
always n = true

-- A longer replacement that makes a new match in front of it: the loop replaces that one too and
-- leaves the buffer, whose size was counted before.
abbrev aaa : Text
aaa = record { buffer = some (b'a' ∷ b'a' ∷ b'a' ∷ []); capacity = 3 }

outgrown : replace always (b'a' ∷ b'a' ∷ []) (b'a' ∷ b'a' ∷ b'b' ∷ []) aaa ≡ none
unfolding replace replace_backward replace_forward count_matches strstr has_prefix last_match
    last_index_of change_buffer
outgrown = refl

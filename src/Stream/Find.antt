-- ===== src/Stream/Find.antt =====
-- The searching methods of cores/piduino/Stream.cpp, `find` and `findUntil`, and `readString`. A
-- target and a terminator are their bytes; a string that is read has room for its characters.
use ras_pi_arduino.Prelude.{ℕ, zero, suc, ◌+◌, Bool, true, false, ◌&&◌}
use ras_pi_arduino.Prelude.{Option, none, some, List, [], ◌∷◌, length, get_or}
use ras_pi_arduino.Prelude.{ltb, leb, ◌==◌, if◌then◌else◌}
use ras_pi_arduino.Stream.{Slot, timed_read}

module _ (timeout : ℕ) (target terminator : List ℕ) where
  -- The loop of `findUntil`; `index` and `term_index` count the bytes that match.
  unfoldable pub find_from : ℕ → ℕ → ℕ → List Slot → Option (Bool × List Slot)
  find_from zero index term_index input = none
  find_from (suc fuel) index term_index input =
      let (c, rest) = timed_read timeout input in
      elim c [
        | none ↦ some (false, rest)
        | some b ↦
            let i = if b == get_or target index 0 then index else 0 in
            let hit = b == get_or target i 0 in
            let next = if hit then i + 1 else i in
            let ends = ltb 0 (length terminator) && b == get_or terminator term_index 0 in
            let more = find_from fuel next (if ends then term_index + 1 else 0) rest in
            if b == 0
            then some (false, rest)
            else if hit && leb (length target) (i + 1)
            then some (true, rest)
            else if ends && leb (length terminator) (term_index + 1)
            then some (false, rest)
            else more
      ]

  -- `findUntil`.
  unfoldable pub find_until : List Slot → Option (Bool × List Slot)
  find_until input =
      if get_or target 0 0 == 0
      then some (true, input)
      else find_from (suc (length input)) 0 0 input

-- `find`.
unfoldable pub find : ℕ → List ℕ → List Slot → Option (Bool × List Slot)
find timeout target input = find_until timeout target [] input

module _ (timeout : ℕ) where
  -- `readString`, and `readStringUntil` with a terminator.
  unfoldable pub read_string : ℕ → Option ℕ → List Slot → Option (List ℕ × List Slot)
  read_string zero terminator input = none
  read_string (suc fuel) terminator input =
      let (c, rest) = timed_read timeout input in
      elim c [
        | none ↦ some ([], rest)
        | some b ↦
            let more = read_string fuel terminator rest in
            let stops : Bool = elim terminator [ none ↦ false | some t ↦ b == t ] in
            if stops
            then some ([], rest)
            else elim more [ none ↦ none | some r ↦ some (b ∷ r.0, r.1) ]
      ]

-- ===== src/Text.antt =====
-- The class String of cores/piduino/WString.cpp: memory, copying, concatenation and comparison. A
-- buffer is its characters before the NUL, and `len` is their number; no character is NUL, so that
-- the C string functions see the whole text. No buffer is `none`. Whether the allocator has room
-- for a text of a given size is a parameter.
pub mod Search
pub mod Edit
pub mod Laws
mod Tests
use ras_pi_arduino.Prelude.{ℕ, zero, suc, ◌+◌, ◌-◌, ◌^◌, Bool, true, false, not, ◌&&◌, ◌||◌}
use ras_pi_arduino.Prelude.{Option, none, some, List, [], ◌∷◌, ◌++◌, length, take, drop, get_or}
use ras_pi_arduino.Prelude.{ltb, leb, ◌==◌, if◌then◌else◌}
use ras_pi_arduino.Prelude.Bits.{u32}
use ras_pi_arduino.Prelude.Signed.{ℤ}
use ras_pi_arduino.Noniso.{utoa, itoa, ultoa, ltoa}

pub record Text : Type 0 where
  pub buffer : Option (List ℕ)
  pub capacity : ℕ

-- `init` and `invalidate`.
unfoldable pub unset : Text
unset = record { buffer = none; capacity = 0 }

abbrev pub chars : Text → List ℕ
chars t = elim t.buffer [ none ↦ [] | some cs ↦ cs ]

abbrev pub len : Text → ℕ
len t = length (chars t)

abbrev pub is_set : Text → Bool
is_set t = elim t.buffer [ none ↦ false | some cs ↦ true ]

module _ (has_room : ℕ → Bool) where
  -- `changeBuffer`; `realloc` keeps the characters.
  unfoldable pub change_buffer : ℕ → Text → Bool × Text
  change_buffer max_len t =
      if has_room max_len
      then (true, record { buffer = some (chars t); capacity = max_len })
      else (false, t)

  unfoldable pub reserve : ℕ → Text → Bool × Text
  reserve size t = if is_set t && leb size t.capacity then (true, t) else change_buffer size t

  unfoldable pub copy : List ℕ → Text → Text
  copy cstr t =
      let (ok, t') = reserve (length cstr) t in
      if ok then record t' { buffer = some cstr } else unset

  -- `operator =`, of a string and of a C string.
  unfoldable pub assign : Option (List ℕ) → Text → Text
  assign none t = unset
  assign (some cstr) t = copy cstr t

  -- The constructors from a C string or a string, and those from a number in a base.
  unfoldable pub from_cstr : Option (List ℕ) → Text
  from_cstr none = unset
  from_cstr (some cstr) = copy cstr unset

  unfoldable pub from_char : ℕ → Text
  from_char c = copy (c ∷ []) unset

  unfoldable pub from_unsigned : ℕ → ℕ → Option Text
  from_unsigned value base = elim (utoa value base) [ none ↦ none | some s ↦ some (copy s unset) ]

  unfoldable pub from_int : ℤ → ℕ → Option Text
  from_int value base = elim (itoa value base) [ none ↦ none | some s ↦ some (copy s unset) ]

  unfoldable pub from_unsigned_long : ℕ → ℕ → Option Text
  from_unsigned_long value base = elim (ultoa value base) [
    | none ↦ none
    | some s ↦ some (copy s unset)
  ]

  unfoldable pub from_long : ℤ → ℕ → Option Text
  from_long value base = elim (ltoa value base) [ none ↦ none | some s ↦ some (copy s unset) ]

  -- `concat` of a C string with its length.
  unfoldable pub concat : Option (List ℕ) → Text → Bool × Text
  concat none t = (false, t)
  concat (some cstr) t =
      let (ok, t') = reserve (u32 (len t + length cstr)) t in
      if length cstr == 0
      then (true, t)
      else if ok
      then (true, record t' { buffer = some (chars t' ++ cstr) })
      else (false, t')

  unfoldable pub concat_char : ℕ → Text → Bool × Text
  concat_char c t = concat (some (c ∷ [])) t

  unfoldable pub concat_int : ℤ → Text → Option (Bool × Text)
  concat_int num t = elim (itoa num 10) [ none ↦ none | some s ↦ some (concat (some s) t) ]

  unfoldable pub concat_unsigned : ℕ → Text → Option (Bool × Text)
  concat_unsigned num t = elim (utoa num 10) [ none ↦ none | some s ↦ some (concat (some s) t) ]

  unfoldable pub concat_long : ℤ → Text → Option (Bool × Text)
  concat_long num t = elim (ltoa num 10) [ none ↦ none | some s ↦ some (concat (some s) t) ]

  unfoldable pub concat_unsigned_long : ℕ → Text → Option (Bool × Text)
  concat_unsigned_long num t = elim (ultoa num 10) [
    | none ↦ none
    | some s ↦ some (concat (some s) t)
  ]

  -- `operator +`: a failure invalidates the sum.
  unfoldable pub sum : Option (List ℕ) → Text → Text
  sum cstr t = let (ok, t') = concat cstr t in if ok then t' else unset

-- The sign of a comparison.
pub data Sign : Type 0 where
  below same above : Sign

unfoldable pub strcmp : List ℕ → List ℕ → Sign
strcmp [] [] = same
strcmp [] (b ∷ bs) = below
strcmp (a ∷ as') [] = above
strcmp (a ∷ as') (b ∷ bs) =
    let rest = strcmp as' bs in if ltb a b then below else if ltb b a then above else rest

unfoldable pub compare_to : Text → Text → Sign
compare_to t s =
    if not (is_set t) || not (is_set s)
    then if ltb 0 (len s) then below else if ltb 0 (len t) then above else same
    else strcmp (chars t) (chars s)

abbrev pub is_same : Sign → Bool
is_same below = false
is_same same = true
is_same above = false

unfoldable pub equals : Text → Text → Bool
equals t s = len t == len s && is_same (compare_to t s)

unfoldable pub equals_cstr : Text → Option (List ℕ) → Bool
equals_cstr t none = len t == 0
equals_cstr t (some cstr) = if len t == 0 then length cstr == 0 else is_same (strcmp (chars t) cstr)

-- `operator <`, `>`, `<=` and `>=`.
unfoldable pub less : Text → Text → Bool
less t s = elim (compare_to t s) [ below ↦ true | same ↦ false | above ↦ false ]

unfoldable pub greater : Text → Text → Bool
greater t s = elim (compare_to t s) [ below ↦ false | same ↦ false | above ↦ true ]

unfoldable pub at_most : Text → Text → Bool
at_most t s = elim (compare_to t s) [ below ↦ true | same ↦ true | above ↦ false ]

unfoldable pub at_least : Text → Text → Bool
at_least t s = elim (compare_to t s) [ below ↦ false | same ↦ true | above ↦ true ]

-- `tolower` and `toupper` of the C locale.
unfoldable pub to_lower : ℕ → ℕ
to_lower c = if leb b'A' c && leb c b'Z' then c + 32 else c

unfoldable pub to_upper : ℕ → ℕ
to_upper c = if leb b'a' c && leb c b'z' then c - 32 else c

-- The loop of `equalsIgnoreCase`, over texts of one length.
unfoldable pub same_ignoring_case : List ℕ → List ℕ → Bool
same_ignoring_case [] bs = true
same_ignoring_case (a ∷ as') [] = false
same_ignoring_case (a ∷ as') (b ∷ bs) =
    let rest = same_ignoring_case as' bs in if to_lower a == to_lower b then rest else false

-- Of two different objects.
unfoldable pub equals_ignore_case : Text → Text → Bool
equals_ignore_case t s =
    if not (len t == len s)
    then false
    else if len t == 0
    then true
    else same_ignoring_case (chars t) (chars s)

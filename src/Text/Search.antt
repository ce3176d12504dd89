-- ===== src/Text/Search.antt =====
-- Prefixes, characters and searches of cores/piduino/WString.cpp. An `int` that is an index or -1
-- is an option.
use ras_pi_arduino.Prelude.{ℕ, zero, suc, ◌+◌, ◌-◌, ◌^◌, Bool, true, false, not, ◌||◌}
use ras_pi_arduino.Prelude.{
  Option, none, some, List, [], ◌∷◌, ◌++◌, length, take, drop, get_or, set,
}
use ras_pi_arduino.Prelude.{ltb, leb, ◌==◌, if◌then◌else◌}
use ras_pi_arduino.Prelude.Bits.{u32}
use ras_pi_arduino.Text.{Text, chars, len, is_set}

-- `strncmp(cs, ds, strlen(ds)) == 0`.
unfoldable pub has_prefix : List ℕ → List ℕ → Bool
has_prefix cs [] = true
has_prefix [] (d ∷ ds) = false
has_prefix (c ∷ cs) (d ∷ ds) = let rest = has_prefix cs ds in if c == d then rest else false

-- `strcmp(cs, ds) == 0`.
unfoldable pub same_chars : List ℕ → List ℕ → Bool
same_chars [] [] = true
same_chars [] (d ∷ ds) = false
same_chars (c ∷ cs) [] = false
same_chars (c ∷ cs) (d ∷ ds) = let rest = same_chars cs ds in if c == d then rest else false

unfoldable pub starts_with_at : Text → Text → ℕ → Bool
starts_with_at t s offset =
    if ltb (u32 (len t + (2 ^ 32 - len s))) offset || not (is_set t) || not (is_set s)
    then false
    else has_prefix (drop offset (chars t)) (chars s)

unfoldable pub starts_with : Text → Text → Bool
starts_with t s = if ltb (len t) (len s) then false else starts_with_at t s 0

unfoldable pub ends_with : Text → Text → Bool
ends_with t s =
    if ltb (len t) (len s) || not (is_set t) || not (is_set s)
    then false
    else same_chars (drop (len t - len s) (chars t)) (chars s)

-- `charAt`, and `operator []` where it reads.
unfoldable pub char_at : Text → ℕ → ℕ
char_at t loc = if leb (len t) loc || not (is_set t) then 0 else get_or (chars t) loc 0

unfoldable pub set_char_at : ℕ → ℕ → Text → Text
set_char_at loc c t =
    if ltb loc (len t) then record t { buffer = some (set (chars t) loc c) } else t

-- `getBytes` into a buffer of `bufsize` bytes: those that it stores, the NUL included.
unfoldable pub get_bytes : Text → ℕ → ℕ → List ℕ
get_bytes t bufsize index =
    if bufsize == 0
    then []
    else if leb (len t) index
    then 0 ∷ []
    else let n = if ltb (len t - index) (bufsize - 1) then len t - index else bufsize - 1 in
      take n (drop index (chars t)) ++ (0 ∷ [])

-- `strchr` and `strstr`, as the number of characters passed over.
unfoldable pub strchr : ℕ → List ℕ → Option ℕ
strchr c [] = none
strchr c (d ∷ ds) =
    let rest = elim (strchr c ds) as (λ _. Option ℕ) [ none ↦ none | some i ↦ some (suc i) ] in
    if d == c then some 0 else rest

unfoldable pub strstr : List ℕ → List ℕ → Option ℕ
strstr s [] = if length s == 0 then some 0 else none
strstr s (d ∷ ds) =
    let rest = elim (strstr s ds) as (λ _. Option ℕ) [ none ↦ none | some i ↦ some (suc i) ] in
    if has_prefix (d ∷ ds) s then some 0 else rest

abbrev pub shifted : ℕ → Option ℕ → Option ℕ
shifted k none = none
shifted k (some i) = some (k + i)

unfoldable pub index_of_char : Text → ℕ → ℕ → Option ℕ
index_of_char t ch from =
    if leb (len t) from then none else shifted from (strchr ch (drop from (chars t)))

unfoldable pub index_of : Text → Text → ℕ → Option ℕ
index_of t s from =
    if leb (len t) from then none else shifted from (strstr (chars s) (drop from (chars t)))

-- `strrchr`.
unfoldable pub strrchr : ℕ → List ℕ → Option ℕ
strrchr c [] = none
strrchr c (d ∷ ds) = elim (strrchr c ds) [
  | none ↦ if d == c then some 0 else none
  | some i ↦ some (suc i)
]

unfoldable pub last_index_of_char : Text → ℕ → ℕ → Option ℕ
last_index_of_char t ch from =
    if leb (len t) from then none else strrchr ch (take (from + 1) (chars t))

-- The loop of `lastIndexOf`, at the pointer `p` of the buffer; the fuel is its length.
unfoldable pub last_match : ℕ → List ℕ → List ℕ → ℕ → ℕ → Option ℕ → Option ℕ
last_match zero s cs from p found = found
last_match (suc fuel) s cs from p found = elim (strstr s (drop p cs)) [
  | none ↦ found
  | some i ↦
      let found' = if leb (p + i) from then some (p + i) else found in
      let more = last_match fuel s cs from (suc (p + i)) found' in
      if leb (suc (p + i)) from then more else found'
]

unfoldable pub last_index_of : Text → Text → ℕ → Option ℕ
last_index_of t s from =
    let from' = if leb (len t) from then len t - 1 else from in
    if len s == 0 || len t == 0 || ltb (len t) (len s)
    then none
    else last_match (suc (len t)) (chars s) (chars t) from' 0 none

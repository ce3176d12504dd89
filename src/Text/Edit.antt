-- ===== src/Text/Edit.antt =====
-- The calls of cores/piduino/WString.cpp that cut and change a string.
use ras_pi_arduino.Prelude.{ℕ, zero, suc, ◌+◌, ◌-◌, ◌*◌, Bool, true, not, ◌&&◌, ◌||◌, map, reverse}
use ras_pi_arduino.Prelude.{Option, none, some, List, [], ◌∷◌, ◌++◌, length, take, drop}
use ras_pi_arduino.Prelude.{ltb, leb, ◌==◌, if◌then◌else◌}
use ras_pi_arduino.Prelude.Bits.{u32}
use ras_pi_arduino.Text.{Text, unset, chars, len, is_set, copy, change_buffer, to_lower, to_upper}
use ras_pi_arduino.Text.Search.{strstr, last_index_of}

-- `substring`, with whether the allocator has room for the result.
unfoldable pub substring : (ℕ → Bool) → Text → ℕ → ℕ → Text
substring has_room t left right =
    let l = if ltb right left then right else left in
    let r = if ltb right left then left else right in
    let r' = if ltb (len t) r then len t else r in
    if ltb (len t) l then unset else copy has_room (drop l (take r' (chars t))) unset

unfoldable pub replace_char : ℕ → ℕ → Text → Text
replace_char find with_char t =
    if is_set t
    then record t { buffer = some (map (λ c. if c == find then with_char else c) (chars t)) }
    else t

-- The loop of `replace` that goes forward: the text that it writes from `readFrom` on.
unfoldable pub replace_forward : ℕ → List ℕ → List ℕ → List ℕ → List ℕ
replace_forward zero find by rest = rest
replace_forward (suc fuel) find by rest = elim (strstr find rest) [
  | none ↦ rest
  | some n ↦ take n rest ++ (by ++ replace_forward fuel find by (drop (n + length find) rest))
]

-- The loop that counts the matches.
unfoldable pub count_matches : ℕ → List ℕ → List ℕ → ℕ
count_matches zero find rest = 0
count_matches (suc fuel) find rest = elim (strstr find rest) [
  | none ↦ 0
  | some n ↦ suc (count_matches fuel find (drop (n + length find) rest))
]

-- The loop that goes backward, `index` being one more than in the source. A text that outgrows the
-- capacity is written beyond the buffer, a fault.
unfoldable pub replace_backward : ℕ → List ℕ → List ℕ → ℕ → Text → Option Text
replace_backward zero find by index t = none
replace_backward (suc fuel) find by zero t = some t
replace_backward (suc fuel) find by (suc index) t =
    elim (last_index_of t record { buffer = some find; capacity = length find } index) [
      | none ↦ some t
      | some i ↦
          let cs = take i (chars t) ++ (by ++ drop (i + length find) (chars t)) in
          let more = replace_backward fuel find by i (record t { buffer = some cs }) in
          if ltb t.capacity (length cs) then none else more
    ]

-- `replace` of a string that is not empty.
unfoldable pub replace : (ℕ → Bool) → List ℕ → List ℕ → Text → Option Text
replace has_room find by t =
    let cs = chars t in
    let size = len t + count_matches (suc (len t)) find cs * (length by - length find) in
    let grown = if ltb t.capacity size then change_buffer has_room size t else (true, t) in
    let back = replace_backward (suc (len t)) find by (len t) grown.1 in
    if len t == 0 || length find == 0
    then some t
    else if leb (length by) (length find)
    then some (record t { buffer = some (replace_forward (suc (len t)) find by cs) })
    else if size == len t
    then some t
    else if grown.0
    then back
    else some t

-- `remove`. The sum of the two numbers is kept to 32 bits, and so is the length that is left: a
-- length that passes 2 ^ 32 makes the string longer than its buffer, a fault.
unfoldable pub remove : ℕ → ℕ → Text → Option Text
remove index count t =
    let count' = if ltb (len t) (u32 (index + count)) then len t - index else count in
    if leb (len t) index || count == 0
    then some t
    else if ltb (len t) count'
    then none
    else some (record t {
      buffer =
          some (
            take index (chars t)
            ++ take (len t - count' - index) (drop (index + count') (chars t)));
    })

unfoldable pub remove_from : ℕ → Text → Option Text
remove_from index t = if leb (len t) index then some t else remove index (len t - index) t

unfoldable pub to_lower_case : Text → Text
to_lower_case t = if is_set t then record t { buffer = some (map to_lower (chars t)) } else t

unfoldable pub to_upper_case : Text → Text
to_upper_case t = if is_set t then record t { buffer = some (map to_upper (chars t)) } else t

-- `isspace` of the C locale.
unfoldable pub is_space : ℕ → Bool
is_space c = c == 32 || leb 9 c && leb c 13

-- The loops of `trim`, from the front and from the end.
unfoldable pub drop_spaces : List ℕ → List ℕ
drop_spaces [] = []
drop_spaces (c ∷ cs) = let rest = drop_spaces cs in if is_space c then rest else c ∷ cs

unfoldable pub trim : Text → Text
trim t =
    if not (is_set t) || len t == 0
    then t
    else record t { buffer = some (reverse (drop_spaces (reverse (drop_spaces (chars t))))) }

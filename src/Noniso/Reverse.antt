-- ===== src/Noniso/Reverse.antt =====
-- The swapping loop of `reverse` reverses the array.
use ras_pi_arduino.Prelude.{ℕ, zero, suc, ◌+◌, ◌-◌, ◌≤◌, ◌<◌, ◌≡◌, refl, sym, ap, ap₂, ◌∙◌, arith}
use ras_pi_arduino.Prelude.{◌&&◌, List, [], ◌∷◌, ◌++◌, reverse, reverse-append}
use ras_pi_arduino.Prelude.{
  length, get_or, set, length-set, length-append, get_or-set_self, get_or-set_ne,
}
use ras_pi_arduino.Prelude.{Bool-cases, inl, inr, ltb→lt, ltb, leb, ◌==◌, if◌then◌else◌}
use ras_pi_arduino.Noniso.{reverse_range, reverse_chars}

length-reverse_range :
    (rounds i e : ℕ) (buf : List ℕ) → length (reverse_range rounds i e buf) ≡ length buf
unfolding reverse_range
length-reverse_range zero i e buf = refl
length-reverse_range (suc rounds) i e buf =
    let swapped = set (set buf (e - 1) (get_or buf i 0)) i (get_or buf (e - 1) 0) in
    ground (
      arith,
      length-reverse_range rounds (i + 1) (e - 1) swapped,
      length-set (set buf (e - 1) (get_or buf i 0)) i (get_or buf (e - 1) 0),
      length-set buf (e - 1) (get_or buf i 0),
    )

get_or-swap :
    (buf : List ℕ) (i j k : ℕ)
    → i < length buf
    → j < length buf
    → get_or (set (set buf j (get_or buf i 0)) i (get_or buf j 0)) k 0
      ≡ (if k == i then get_or buf j 0 else if k == j then get_or buf i 0 else get_or buf k 0)
get_or-swap buf i j k hi hj = ground (
  arith,
  length-set buf j (get_or buf i 0),
  get_or-set_self (set buf j (get_or buf i 0)) i (get_or buf j 0) 0,
  get_or-set_ne (set buf j (get_or buf i 0)) i k (get_or buf j 0) 0,
  get_or-set_self buf j (get_or buf i 0) 0,
  get_or-set_ne buf j k (get_or buf i 0) 0,
)

-- With enough rounds, the range is turned round and the rest of the array is left.
get_or-reverse_range :
    (rounds i e k : ℕ) (buf : List ℕ)
    → e ≤ length buf
    → k < length buf
    → e ≤ i + rounds
    → get_or (reverse_range rounds i e buf) k 0
      ≡ (if leb i k && ltb k e then get_or buf (i + e - 1 - k) 0 else get_or buf k 0)
unfolding reverse_range
get_or-reverse_range zero i e k buf he hk enough = ground arith
get_or-reverse_range (suc rounds) i e k buf he hk enough = elim (Bool-cases (ltb (i + 1) e)) [
  | inl more ↦ rw more (
      let swapped = set (set buf (e - 1) (get_or buf i 0)) i (get_or buf (e - 1) 0) in
      let inside : i + 1 < e = ltb→lt (i + 1) e more in
      let mirror : i + 1 + (e - 1) - 1 - k ≡ i + e - 1 - k = omega arith in
      let same : length swapped ≡ length buf =
        length-set (set buf (e - 1) (get_or buf i 0)) i (get_or buf (e - 1) 0)
        ∙ length-set buf (e - 1) (get_or buf i 0) in
      get_or-reverse_range rounds (i + 1) (e - 1) k swapped (omega arith) (omega arith)
        (omega arith)
      ∙ rw
          (
            mirror,
            get_or-swap buf i (e - 1) (i + e - 1 - k) (omega arith) (omega arith),
            get_or-swap buf i (e - 1) k (omega arith) (omega arith),
          )
          (ground (
            arith,
            ap (λ t. get_or buf t 0) {x = k} {y = i + e - 1 - k},
            at k,
            at (i + e - 1 - k),
          )))
  | inr over ↦ rw over (ground (arith, ap (λ t. get_or buf t 0) {x = k} {y = i + e - 1 - k}))
]
  where
    at :
        (j : ℕ)
        → (j ≡ i → get_or buf j 0 ≡ get_or buf i 0)
          × (j ≡ e - 1 → get_or buf j 0 ≡ get_or buf (e - 1) 0)
    at j = (ap (λ t. get_or buf t 0), ap (λ t. get_or buf t 0))

-- An array is known by its elements.
get_or_ext :
    (xs ys : List ℕ)
    → length xs ≡ length ys
    → ((k : ℕ) → k < length xs → get_or xs k 0 ≡ get_or ys k 0)
    → xs ≡ ys
get_or_ext [] [] e h = refl
get_or_ext [] (y ∷ ys) e h = absurd (omega arith)
get_or_ext (x ∷ xs) [] e h = absurd (omega arith)
get_or_ext (x ∷ xs) (y ∷ ys) e h =
    ap₂ ◌∷◌ (h 0 (omega arith)) (get_or_ext xs ys (omega arith) (λ k p. h (suc k) (omega arith)))

get_or-append :
    (xs ys : List ℕ) (k : ℕ)
    → get_or (xs ++ ys) k 0
      ≡ (if ltb k (length xs) then get_or xs k 0 else get_or ys (k - length xs) 0)
get_or-append [] ys k = ground (arith, ap (λ t. get_or ys t 0) {x = k} {y = k - 0})
get_or-append (x ∷ xs) ys zero = ground arith
get_or-append (x ∷ xs) ys (suc k) = ground (
  arith,
  get_or-append xs ys k,
  ap (λ t. get_or ys t 0) {x = k - length xs} {y = suc k - suc (length xs)},
)

length-reverse : (xs : List ℕ) → length (reverse xs) ≡ length xs
length-reverse [] = refl
length-reverse (x ∷ xs) =
    rw (reverse-append (x ∷ []) xs)
      (omega (arith, length-append (reverse xs) (x ∷ []), length-reverse xs))

get_or-reverse :
    (xs : List ℕ) (k : ℕ)
    → k < length xs
    → get_or (reverse xs) k 0 ≡ get_or xs (length xs - 1 - k) 0
get_or-reverse [] k h = absurd (omega arith)
get_or-reverse (x ∷ xs) k h = rw (reverse-append (x ∷ []) xs) (
    get_or-append (reverse xs) (x ∷ []) k
    ∙ ground (
      arith,
      length-reverse xs,
      get_or-reverse xs k,
      ap (λ t. get_or (x ∷ xs) t 0) {x = suc (length xs - 1 - k)} {y = suc (length xs) - 1 - k},
      ap (λ t. get_or (x ∷ xs) t 0) {x = 0} {y = suc (length xs) - 1 - k},
      ap (λ t. get_or (x ∷ []) t 0) {x = 0} {y = k - length (reverse xs)},
    ))

-- `reverse` on a whole string.
pub reverse_chars_lem : (xs : List ℕ) → reverse_chars xs ≡ reverse xs
unfolding reverse_chars
reverse_chars_lem xs =
    get_or_ext (reverse_range (length xs) 0 (length xs) xs) (reverse xs)
      (length-reverse_range (length xs) 0 (length xs) xs ∙ sym (length-reverse xs))
      λ k h.
        let inside : k < length xs =
          omega (arith, length-reverse_range (length xs) 0 (length xs) xs) in
        get_or-reverse_range (length xs) 0 (length xs) k xs (omega arith) inside (omega arith)
        ∙ ground (
          arith,
          ap (λ t. get_or xs t 0) {x = 0 + length xs - 1 - k} {y = length xs - 1 - k},
          get_or-reverse xs k inside,
        )

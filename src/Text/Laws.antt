-- ===== src/Text/Laws.antt =====
-- What the calls of the class String do to its text.
use ras_pi_arduino.Prelude.{
  ℕ, zero, suc, ◌+◌, ◌-◌, ◌^◌, ◌<◌, ◌≤◌, ◌≡◌, ◌≢◌, refl, sym, ap, ap₂, subst, ◌∙◌, arith, Bool,
  true, false, ◌||◌, ◌⊎◌, inl, inr,
}
use ras_pi_arduino.Prelude.{
  some, List, [], ◌∷◌, ◌++◌, length, take, drop, take_all, Bool-cases, ltb→lt, ltb-false→le, ==→eq,
}
use ras_pi_arduino.Prelude.{
  ltb, leb, leb→le, ◌==◌, if◌then◌else◌, append-nil, length-append, length-drop, min, max,
  take-append-drop, drop_all,
}
use ras_pi_arduino.Prelude.Bits.{u32}
use ras_pi_arduino.Text.{Text, unset, chars, len, is_set, change_buffer, reserve, copy, concat}
use ras_pi_arduino.Text.Search.{has_prefix, starts_with, starts_with_at}
use ras_pi_arduino.Text.Edit.{substring, remove}

-- A text fits its buffer.
abbrev pub Fits : Text → Type 0
Fits t = len t ≤ t.capacity

drop-take : (l r : ℕ) (cs : List ℕ) → drop l (take r cs) ≡ take (r - l) (drop l cs)
drop-take zero r cs = ap (λ k. take k cs) {x = r} {y = r - 0} (omega arith)
drop-take (suc l) zero [] = sym (take_all (0 - suc l) [] (omega arith))
drop-take (suc l) zero (c ∷ cs) = ap (λ k. take k (drop l cs)) {x = 0} {y = 0 - suc l} (omega arith)
drop-take (suc l) (suc r) [] = sym (take_all (suc r - suc l) [] (omega arith))
drop-take (suc l) (suc r) (c ∷ cs) =
    drop-take l r cs ∙ ap (λ k. take k (drop l cs)) {x = r - l} {y = suc r - suc l} (omega arith)

module _ (has_room : ℕ → Bool) where
  reserve_keeps : (size : ℕ) (t : Text) → chars (reserve has_room size t).1 ≡ chars t
  unfolding reserve change_buffer
  reserve_keeps size t = ground arith

  reserve_room :
      (size : ℕ) (t : Text)
      → (reserve has_room size t).0 ≡ true
      → size ≤ (reserve has_room size t).1.capacity
  unfolding reserve change_buffer
  reserve_room size t e = ground arith

  reserve_fails :
      (size : ℕ) (t : Text) → (reserve has_room size t).0 ≡ false → (reserve has_room size t).1 ≡ t
  unfolding reserve change_buffer
  reserve_fails size t e = ground arith

  -- A concatenation that was done, or that failed and left the text as it was.
  abbrev pub Joined : Text → List ℕ → Bool × Text → Type 0
  Joined t cstr r =
      ((r.0 ≡ true) × (chars r.1 ≡ chars t ++ cstr) × Fits r.1) ⊎ ((r.0 ≡ false) × (r.1 ≡ t))

  -- `concat` of a C string appends it, within the capacity, or fails and changes nothing; the text
  -- fits its buffer, and the two lengths together are below 2 ^ 32.
  pub concat-Joined :
      (cstr : List ℕ) (t : Text)
      → Fits t
      → len t + length cstr < 2 ^ 32
      → Joined t cstr (concat has_room (some cstr) t)
  unfolding concat
  concat-Joined [] t f h = inl (refl, sym (append-nil (chars t)), f)
  concat-Joined (c ∷ cs) t f h =
      let size = u32 (len t + length (c ∷ cs)) in
      let exact : size ≡ len t + length (c ∷ cs) = omega arith in
      let k = reserve_keeps size t in
      let some_chars : (length (c ∷ cs) == 0) ≡ false = ground arith in
      elim (Bool-cases (reserve has_room size t).0) [
        | inl e ↦
            let room = reserve_room size t e in
            let grown = (reserve has_room size t).1 in
            let done : concat has_room (some (c ∷ cs)) t
                ≡ (true, record grown { buffer = some (chars grown ++ (c ∷ cs)) }) =
              rw (some_chars, e) refl in
            subst (Joined t (c ∷ cs)) (sym done) (
              inl (
                refl,
                ap (λ xs. xs ++ (c ∷ cs)) k,
                omega (arith, length-append (chars grown) (c ∷ cs), ap length k, room, exact),
              ))
        | inr e ↦
            let done : concat has_room (some (c ∷ cs)) t ≡ (false, (reserve has_room size t).1) =
              rw (some_chars, e) refl in
            subst (Joined t (c ∷ cs)) (sym done) (inr (refl, reserve_fails size t e))
      ]

  copy_room : (cs : List ℕ) → has_room (length cs) ≡ true → chars (copy has_room cs unset) ≡ cs
  unfolding copy reserve change_buffer unset
  copy_room cs h = rw h refl

  cut : Text → ℕ → ℕ → Text
  cut t l r =
      let r' = if ltb (len t) r then len t else r in
      if ltb (len t) l then unset else copy has_room (drop l (take r' (chars t))) unset

  cut_lem :
      (t : Text) (l r : ℕ)
      → ((n : ℕ) → has_room n ≡ true)
      → chars (cut t l r) ≡ take (r - l) (drop l (chars t))
  unfolding cut unset
  cut_lem t l r room = elim (Bool-cases (ltb (len t) l)) [
    | inl e ↦
        rw (e, drop_all l (chars t) (omega (arith, ltb→lt (len t) l e)))
          (sym (take_all (r - l) [] (omega arith)))
    | inr e ↦
        let r' = if ltb (len t) r then len t else r in
        rw e (
          copy_room (drop l (take r' (chars t))) (room _)
          ∙ ap (drop l) (clipped (chars t) r)
          ∙ drop-take l r (chars t))
  ]
    where
      clipped :
          (cs : List ℕ) (r : ℕ) → take (if ltb (length cs) r then length cs else r) cs ≡ take r cs
      clipped cs r = elim (Bool-cases (ltb (length cs) r)) [
        | inl e ↦ rw e (
            take_all (length cs) cs (omega arith)
            ∙ sym (take_all r cs (omega (arith, ltb→lt (length cs) r e))))
        | inr e ↦ rw e refl
      ]

  -- `substring` is the characters from the lesser bound up to the greater, those that there are,
  -- whichever order the bounds come in; the allocator has room for every text.
  pub substring_lem :
      (t : Text) (left right : ℕ)
      → ((n : ℕ) → has_room n ≡ true)
      → chars (substring has_room t left right)
        ≡ take (max left right - min left right) (drop (min left right) (chars t))
  unfolding substring cut
  substring_lem t left right room = elim (Bool-cases (ltb right left)) [
    | inl e ↦
        let a : max left right ≡ left = omega (arith, ltb→lt right left e) in
        let b : min left right ≡ right = omega (arith, ltb→lt right left e) in
        rw (e, a, b) (cut_lem t right left room)
    | inr e ↦
        let a : max left right ≡ right = omega (arith, ltb-false→le right left e) in
        let b : min left right ≡ left = omega (arith, ltb-false→le right left e) in
        rw (e, a, b) (cut_lem t left right room)
  ]

-- `remove` cuts out the characters from the index on, as many as there are; the index and the
-- count are below 2 ^ 32 together.
pub remove_lem :
    (index count : ℕ) (t : Text)
    → index + count < 2 ^ 32
    → (t' : Text) × (remove index count t ≡ some t')
      × (chars t' ≡ take index (chars t) ++ drop (index + count) (chars t))
unfolding remove
remove_lem index count t h = elim (Bool-cases (leb (len t) index || count == 0)) [
  | inl e ↦ (
    t,
    rw e refl,
    elim (Bool-cases (count == 0)) [
      | inl z ↦
          sym (take-append-drop index (chars t))
          ∙ ap (λ k. take index (chars t) ++ drop k (chars t)) {x = index} {y = index + count}
              (omega (arith, ==→eq count 0 z))
      | inr z ↦
          let le : len t ≤ index = leb→le (len t) index (ground (arith, e, z)) in
          sym (append-nil (chars t))
          ∙ sym (
              ap₂ (λ xs ys. xs ++ ys) (take_all index (chars t) le)
                (drop_all (index + count) (chars t) (omega arith)))
    ],
  )
  | inr e ↦
      let inside : index < len t = ground (arith, e) in
      let c = if ltb (len t) (u32 (index + count)) then len t - index else count in
      let bound : index + c ≤ len t = ground (arith, inside) in
      let fits : ltb (len t) c ≡ false = ground (arith, bound) in
      (
        record t {
          buffer =
              some (take index (chars t) ++ take (len t - c - index) (drop (index + c) (chars t)));
        },
        rw (e, fits) refl,
        ap (λ ys. take index (chars t) ++ ys)
            (take_all (len t - c - index) (drop (index + c) (chars t))
                (omega (arith, length-drop (index + c) (chars t), bound))
              ∙ same_rest (chars t) index count h inside),
      )
]
  where
    same_rest :
        (cs : List ℕ) (i n : ℕ)
        → i + n < 2 ^ 32
        → i < length cs
        → drop (i + (if ltb (length cs) (u32 (i + n)) then length cs - i else n)) cs
          ≡ drop (i + n) cs
    same_rest cs i n h k =
        let exact : u32 (i + n) ≡ i + n = omega arith in
        elim (Bool-cases (ltb (length cs) (u32 (i + n)))) [
          | inl e ↦ rw e (
              drop_all (i + (length cs - i)) cs (omega arith)
              ∙ sym
                  (drop_all (i + n) cs (omega (arith, ltb→lt (length cs) (u32 (i + n)) e, exact))))
          | inr e ↦ rw e refl
        ]

has_prefix_append : (ds rest : List ℕ) → has_prefix (ds ++ rest) ds ≡ true
unfolding has_prefix
has_prefix_append [] rest = refl
has_prefix_append (d ∷ ds) rest = ground (arith, has_prefix_append ds rest)

has_prefix_rest : (cs ds : List ℕ) → has_prefix cs ds ≡ true → (rest : List ℕ) × (cs ≡ ds ++ rest)
unfolding has_prefix
has_prefix_rest cs [] e = (cs, refl)
has_prefix_rest [] (d ∷ ds) e = ground arith
has_prefix_rest (c ∷ cs) (d ∷ ds) e = elim (Bool-cases (c == d)) [
  | inl q ↦
      let p = has_prefix_rest cs ds (ground (arith, q, e)) in
      (p.0, ap (λ x. x ∷ cs) (==→eq c d q) ∙ ap (λ xs. d ∷ xs) p.1)
  | inr q ↦ absurd (ground (arith, q, e))
]

-- `startsWith` is true exactly for the strings that the text begins with.
abbrev pub Begins : Text → Text → Bool → Type 0
Begins t s true = (rest : List ℕ) × (chars t ≡ chars s ++ rest)
Begins t s false = (rest : List ℕ) → chars t ≢ chars s ++ rest

-- `startsWith` tells whether the text is the other one and more characters; both have a buffer, and
-- are below 2 ^ 32.
pub starts_with-Begins :
    (t s : Text)
    → is_set t ≡ true
    → is_set s ≡ true
    → len t < 2 ^ 32
    → len s < 2 ^ 32
    → Begins t s (starts_with t s)
unfolding starts_with starts_with_at
starts_with-Begins t s a b ht hs = elim (Bool-cases (ltb (len t) (len s))) [
  | inl e ↦ rw e (λ rest q.
      absurd (omega (arith, ltb→lt (len t) (len s) e, ap length q, length-append (chars s) rest)))
  | inr e ↦
      let le : ltb (u32 (len t + (2 ^ 32 - len s))) 0 ≡ false = ground arith in
      rw (e, le, a, b)
        (elim (Bool-cases (has_prefix (chars t) (chars s))) [
          | inl p ↦ rw p (has_prefix_rest (chars t) (chars s) p)
          | inr p ↦ rw p (λ rest q. absurd (
              ground
                (arith, p, ap (λ xs. has_prefix xs (chars s)) q, has_prefix_append (chars s) rest)))
        ])
]

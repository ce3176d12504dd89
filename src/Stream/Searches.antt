-- ===== src/Stream/Searches.antt =====
-- What `find` and `findUntil` of cores/piduino/Stream.cpp take from the stream.
use ras_pi_arduino.Prelude.{
  ℕ, zero, suc, ◌+◌, ◌≤◌, ◌<◌, ◌≡◌, ◌≢◌, refl, sym, ap, ap₂, ◌∙◌, arith, Bool, true, false, ◌&&◌,
}
use ras_pi_arduino.Prelude.{
  some, List, [], ◌∷◌, ◌++◌, append_assoc, append-nil, length, take, get_or, take_all,
}
use ras_pi_arduino.Prelude.{
  ltb, leb, ◌==◌, if◌then◌else◌, ◌⊎◌, inl, inr, Bool-cases, Option-cases, ==→eq, ne→==-false,
}
use ras_pi_arduino.Stream.{Slot, gap, byte, timed_read, timed_read_from}
use ras_pi_arduino.Stream.Find.{find_from, find_until}

-- The bytes that a stream delivers.
abbrev pub bytes_in : List Slot → List ℕ
bytes_in [] = []
bytes_in (gap d ∷ input) = bytes_in input
bytes_in (byte b ∷ input) = b ∷ bytes_in input

bytes_in-timed_read_from :
    (timeout elapsed : ℕ) (input : List Slot) (b : ℕ)
    → (timed_read_from timeout elapsed input).0 ≡ some b
    → (bytes_in input ≡ b ∷ bytes_in (timed_read_from timeout elapsed input).1)
      × (length (timed_read_from timeout elapsed input).1 < length input)
unfolding timed_read_from
bytes_in-timed_read_from timeout elapsed [] b h = absurd (ground (arith, h))
bytes_in-timed_read_from timeout elapsed (byte c ∷ input) b h = ground (arith, h)
bytes_in-timed_read_from timeout elapsed (gap d ∷ input) b h =
    ground (arith, h, bytes_in-timed_read_from timeout (elapsed + d) input b)

bytes_in-timed_read :
    (timeout : ℕ) (input : List Slot) (b : ℕ)
    → (timed_read timeout input).0 ≡ some b
    → (bytes_in input ≡ b ∷ bytes_in (timed_read timeout input).1)
      × (length (timed_read timeout input).1 < length input)
unfolding timed_read
bytes_in-timed_read timeout input b h = bytes_in-timed_read_from timeout 0 input b h

some_length : (xs : List ℕ) → get_or xs 0 0 ≢ 0 → 0 < length xs
some_length [] h = absurd (h refl)
some_length (x ∷ xs) h = omega arith

take-next :
    (xs : List ℕ) (n : ℕ) → n < length xs → take (n + 1) xs ≡ take n xs ++ (get_or xs n 0 ∷ [])
take-next xs n h = ap (λ k. take k xs) {y = suc n} (omega arith) ∙ from xs n h
  where
    from :
        (xs : List ℕ) (n : ℕ) → n < length xs → take (suc n) xs ≡ take n xs ++ (get_or xs n 0 ∷ [])
    from [] n h = absurd (omega arith)
    from (x ∷ xs) zero h = refl
    from (x ∷ xs) (suc n) h = ap (λ t. x ∷ t) (from xs n (omega arith))

module _ (timeout : ℕ) (target terminator : List ℕ) where
  abbrev place : ℕ → ℕ → ℕ
  place b index = if b == get_or target index 0 then index else 0

  abbrev matched : ℕ → ℕ → ℕ
  matched b index =
      if b == get_or target (place b index) 0 then place b index + 1 else place b index

  -- What was seen ends with the first `n` bytes of the target.
  abbrev Ends : List ℕ → ℕ → Type 0
  Ends seen n = (u : List ℕ) × (seen ≡ u ++ take n target)

  Ends-next :
      (seen : List ℕ) (n b : ℕ)
      → n < length target
      → b ≡ get_or target n 0
      → Ends seen n
      → Ends (seen ++ (b ∷ [])) (n + 1)
  Ends-next seen n b h e (u, p) = (
    u,
    ap₂ (λ s c. s ++ (c ∷ [])) p e
        ∙ append_assoc u (take n target) (get_or target n 0 ∷ [])
        ∙ ap (λ t. u ++ t) (sym (take-next target n h)),
  )

  Ends-none : (seen : List ℕ) → Ends seen 0
  Ends-none seen = (seen, sym (append-nil seen))

  Ends-matched :
      (seen : List ℕ) (index b : ℕ)
      → index < length target
      → Ends seen index
      → Ends (seen ++ (b ∷ [])) (matched b index)
  Ends-matched seen index b h e =
      elim (Bool-cases (b == get_or target index 0))
        as (λ _. Ends (seen ++ (b ∷ [])) (matched b index)) [
          | inl m ↦ rw (m, m) (Ends-next seen index b h (==→eq b (get_or target index 0) m) e)
          | inr m ↦
              elim (Bool-cases (b == get_or target 0 0))
                as (λ _. Ends (seen ++ (b ∷ [])) (matched b index)) [
                  | inl k ↦
                      rw (m, k)
                        (Ends-next seen 0 b (omega arith) (==→eq b (get_or target 0 0) k)
                          (Ends-none seen))
                  | inr k ↦ rw (m, k) (Ends-none (seen ++ (b ∷ [])))
                ]
        ]

  -- The search ends, and if it succeeds, then what was seen and taken ends with the target.
  abbrev Search : ℕ → ℕ → ℕ → List ℕ → List Slot → Type 0
  Search fuel index term_index seen input =
      (r : Bool × List Slot) × (find_from timeout target terminator fuel index term_index input
        ≡ some r)
      × ((r.0 ≡ false) ⊎ ((v : List ℕ) × (seen ++ bytes_in input ≡ v ++ (target ++ bytes_in r.1))))

  abbrev whole : ℕ → ℕ → Bool
  whole b index = b == get_or target (place b index) 0 && leb (length target) (place b index + 1)

  abbrev stopped : ℕ → ℕ → Bool
  stopped b term_index =
      (ltb 0 (length terminator) && b == get_or terminator term_index 0)
      && leb (length terminator) (term_index + 1)

  matched-lt :
      (b index : ℕ)
      → index < length target
      → whole b index ≡ false
      → matched b index < length target
  matched-lt b index small w = ground (arith, small, w)

  matched-whole : (b index : ℕ) → whole b index ≡ true → length target ≤ matched b index
  matched-whole b index w = ground (arith, w)

  Ends-extend :
      (seen bs rest : List ℕ) (n b : ℕ)
      → bs ≡ b ∷ rest
      → length target ≤ n
      → Ends (seen ++ (b ∷ [])) n
      → (v : List ℕ) × (seen ++ bs ≡ v ++ (target ++ rest))
  Ends-extend seen bs rest n b e h (u, p) = (
    u,
    ap (λ t. seen ++ t) e
        ∙ sym (append_assoc seen (b ∷ []) rest)
        ∙ ap (λ t. t ++ rest) p
        ∙ append_assoc u (take n target) rest
        ∙ ap (λ t. u ++ (t ++ rest)) (take_all n target h),
  )

  Search-byte :
      (fuel index term_index : ℕ) (seen : List ℕ) (input : List Slot) (b : ℕ)
      → (timed_read timeout input).0 ≡ some b
      → index < length target
      → Ends seen index
      → ((ti : ℕ)
          → matched b index < length target
          → Ends (seen ++ (b ∷ [])) (matched b index)
          → Search fuel (matched b index) ti (seen ++ (b ∷ [])) (timed_read timeout input).1)
      → Search (suc fuel) index term_index seen input
  unfolding find_from
  Search-byte fuel index term_index seen input b o small e later =
      let rest = (timed_read timeout input).1 in
      let (q, _) = bytes_in-timed_read timeout input b o in
      let ends = Ends-matched seen index b small e in
      let Goal = Search (suc fuel) index term_index seen input in
      elim (Bool-cases (b == 0)) as (λ _. Goal) [
        | inl z ↦ ((false, rest), rw (find_from, o, z) refl, inl refl)
        | inr z ↦ elim (Bool-cases (whole b index)) as (λ _. Goal) [
          | inl w ↦ (
            (true, rest),
            rw (find_from, o, z, w) refl,
            inr (
                Ends-extend seen (bytes_in input) (bytes_in rest) (matched b index) b q
                  (matched-whole b index w) ends),
          )
          | inr w ↦ elim (Bool-cases (stopped b term_index)) as (λ _. Goal) [
            | inl t ↦ ((false, rest), rw (find_from, o, z, w, t) refl, inl refl)
            | inr t ↦
                let (r, done, found) =
                  later
                    (if ltb 0 (length terminator) && b == get_or terminator term_index 0
                      then term_index + 1
                      else 0)
                    (matched-lt b index small w) ends in
                (
                  r,
                  rw (find_from, o, z, w, t) done,
                  elim found [
                    | inl f ↦ inl f
                    | inr (v, p) ↦ inr (
                      v,
                      ap (λ l. seen ++ l) q ∙ sym (append_assoc seen (b ∷ []) (bytes_in rest)) ∙ p,
                    )
                  ],
                )
          ]
        ]
      ]

  Search-lem :
      (fuel index term_index : ℕ) (seen : List ℕ) (input : List Slot)
      → length input < fuel
      → index < length target
      → Ends seen index
      → Search fuel index term_index seen input
  unfolding find_from
  Search-lem zero index term_index seen input enough small e = absurd (omega arith)
  Search-lem (suc fuel) index term_index seen input enough small e =
      elim (Option-cases (timed_read timeout input).0)
        as (λ _. Search (suc fuel) index term_index seen input) [
          | inl o ↦ ((false, (timed_read timeout input).1), rw (find_from, o) refl, inl refl)
          | inr (b, o) ↦ Search-byte fuel index term_index seen input b o small e (λ ti.
              Search-lem fuel (matched b index) ti (seen ++ (b ∷ [])) (timed_read timeout input).1
                (omega (arith, bytes_in-timed_read timeout input b o)))
        ]

  -- `findUntil` returns, and if it returns true, then the bytes that it took from the stream end with
  -- the target: what is left is behind it. The target is not empty and does not begin with a NUL.
  pub find_until-Found :
      (input : List Slot)
      → get_or target 0 0 ≢ 0
      → (r : Bool × List Slot) × (find_until timeout target terminator input ≡ some r)
        × ((r.0 ≡ false) ⊎ ((v : List ℕ) × (bytes_in input ≡ v ++ (target ++ bytes_in r.1))))
  unfolding find_until
  find_until-Found input some_target =
      let (r, done, found) =
        Search-lem (suc (length input)) 0 0 [] input (omega arith) (some_length target some_target)
          (Ends-none []) in
      (r, rw (find_until, ne→==-false (get_or target 0 0) 0 some_target) done, found)

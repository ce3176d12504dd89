-- ===== src/Items/Chain.antt =====
-- The items of a list in the heap, and the loops that read them or add one.
use ras_pi_arduino.Prelude.{ℕ, zero, suc, ◌+◌, ◌-◌, ◌≤◌, ◌<◌, ◌≡◌, ◌≢◌, refl, ◌∙◌, arith, member}
use ras_pi_arduino.Prelude.{Bool, true, false, some, List, [], ◌∷◌, length, get_or}
use ras_pi_arduino.Prelude.{◌==◌, if◌then◌else◌, Bool-cases, inl, inr, ne→==-false}
use ras_pi_arduino.Items.{Heap, count_from, get_from, contains_from}

abbrev pub Distinct : List ℕ → Type 0
Distinct [] = Unit
Distinct (a ∷ ps) = (member a ps ≡ false) × Distinct ps

module _ {A : Type 0} where
  -- From address `p`, the items at the addresses `ps` hold the strings `xs`, and the last is last.
  pub data Chain (h : Heap A) : ℕ → List ℕ → List A → Type 0 where
    end : Chain h 0 [] []
    link :
        {a n : ℕ} {ps : List ℕ} {x : A} {xs : List A}
        → a ≢ 0
        → h.items a ≡ some (record { string = x; next = n })
        → Chain h n ps xs
        → Chain h a (a ∷ ps) (x ∷ xs)

  -- Two heaps agree at the addresses of a chain, so it is in both.
  pub Chain-same :
      {h h' : Heap A} {p : ℕ} {ps : List ℕ} {xs : List A}
      → ((b : ℕ) → member b ps ≡ true → h'.items b ≡ h.items b)
      → Chain h p ps xs
      → Chain h' p ps xs
  unfolding member
  Chain-same same end = end
  Chain-same same (link {a} nonzero here rest) =
      link nonzero (same a (ground arith) ∙ here)
        (Chain-same (λ b m. same b (ground (arith, m))) rest)

  pub count_from-Chain :
      (fuel : ℕ) {h : Heap A} {p : ℕ} {ps : List ℕ} {xs : List A}
      → Chain h p ps xs
      → length xs < fuel
      → count_from fuel p h ≡ some (length xs)
  unfolding count_from
  count_from-Chain zero c enough = absurd (omega arith)
  count_from-Chain (suc fuel) end enough = refl
  count_from-Chain (suc fuel) (link {a} {n} {ps} {x} {xs} nonzero here rest) enough =
      rw (ne→==-false a 0 nonzero, here, count_from-Chain fuel rest (omega arith)) refl

  pub get_from-Chain :
      (blank : A) (fuel : ℕ) {h : Heap A} {p : ℕ} {ps : List ℕ} {xs : List A} (index i : ℕ)
      → Chain h p ps xs
      → length xs < fuel
      → i ≤ index
      → get_from blank fuel index i p h ≡ some (get_or xs (index - i) blank)
  unfolding get_from
  get_from-Chain blank zero index i c enough le = absurd (omega arith)
  get_from-Chain blank (suc fuel) index i end enough le = refl
  get_from-Chain blank (suc fuel) index i (link {a} {n} {ps} {x} {xs} nonzero here rest) enough le =
      rw (ne→==-false a 0 nonzero, here)
        (elim (Bool-cases (i == index)) [
          | inl e ↦ let first : index - i ≡ 0 = ground (arith, e) in rw (e, first) refl
          | inr e ↦
              let later : index - i ≡ suc (index - (i + 1)) = ground (arith, e) in
              rw (e, later)
                (get_from-Chain blank fuel index (i + 1) rest (omega arith) (ground (arith, e)))
        ])

  abbrev pub any_same : (A → A → Bool) → A → List A → Bool
  any_same same str [] = false
  any_same same str (x ∷ xs) = if same x str then true else any_same same str xs

  pub contains_from-Chain :
      (same : A → A → Bool) (str : A) (fuel : ℕ) {h : Heap A} {p : ℕ} {ps : List ℕ} {xs : List A}
      → Chain h p ps xs
      → length xs < fuel
      → contains_from same fuel str p h ≡ some (any_same same str xs)
  unfolding contains_from
  contains_from-Chain same str zero c enough = absurd (omega arith)
  contains_from-Chain same str (suc fuel) end enough = refl
  contains_from-Chain same str (suc fuel) (link {a} {n} {ps} {x} {xs} nonzero here rest) enough =
      rw (ne→==-false a 0 nonzero, here, contains_from-Chain same str fuel rest (omega arith))
        (elim (Bool-cases (same x str)) [ inl e ↦ rw e refl | inr e ↦ rw e refl ])

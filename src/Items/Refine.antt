-- ===== src/Items/Refine.antt =====
-- Each method that changes the linked list changes the list that the heap holds.
use ras_pi_arduino.Prelude.{ℕ, zero, suc, ◌<◌, ◌≡◌, ◌≢◌, refl, ap, arith, member}
use ras_pi_arduino.Prelude.{Bool, true, false, none, some, List, [], ◌∷◌, ◌++◌, length}
use ras_pi_arduino.Prelude.{◌==◌, if◌then◌else◌, Bool-cases, inl, inr, ne→==-false}
use ras_pi_arduino.Items.{
  Heap, Items, put, allocate, add, drop_first, remove_at, remove_string, free, with_heap,
  remove_from,
}
use ras_pi_arduino.Items.Chain.{Chain, end, link, Chain-same, Distinct}
use ras_pi_arduino.Items.Unlink.{Elsewhere, link_last-Chain, removed, Removed, remove_from-Removed}

member-append :
    (b it : ℕ) (ps : List ℕ) → member b (ps ++ (it ∷ [])) ≡ (if member b ps then true else b == it)
unfolding member
member-append b it [] = ground arith
member-append b it (p ∷ ps) = ground (arith, member-append b it ps)

Distinct-append :
    (it : ℕ) (ps : List ℕ) → Distinct ps → member it ps ≡ false → Distinct (ps ++ (it ∷ []))
unfolding member
Distinct-append it [] d away = (refl, tt)
Distinct-append it (p ∷ ps) d away = (
  ground (arith, member-append p it ps, d, away),
  Distinct-append it ps d.1 (ground (arith, away)),
)

module _ {A : Type 0} where
  -- The heap has items at the addresses `ps`, and no others.
  pub record Owns (heap : Heap A) (ps : List ℕ) : Type 0 where
    pub distinct : Distinct ps
    pub below : (b : ℕ) → member b ps ≡ true → b < heap.unused
    pub only : (b : ℕ) → member b ps ≡ false → heap.items b ≡ none
    pub positive : 0 < heap.unused

  -- The heap has the items of the list, and no others.
  pub record Holds (s : Items A) (xs : List A) : Type 0 where
    pub places : List ℕ
    pub chain : Chain s.heap s.first places xs
    pub owns : Owns s.heap places

  -- A heap that nothing has been allocated in, for a list with no items.
  abbrev pub new_heap : Heap A
  new_heap = record { items = λ _. none; unused = 1 }

  pub new_heap-Holds : Holds (record { first = 0; heap = new_heap }) []
  unfolding member
  new_heap-Holds = record {
    places = [];
    chain = end;
    owns = record {
      distinct = tt;
      below = λ b m. ground (arith, m);
      only = λ b m. refl;
      positive = omega arith;
    };
  }

  away : {heap : Heap A} {ps : List ℕ} → Owns heap ps → member heap.unused ps ≡ false
  away {heap} {ps} o = ground (arith, o.below heap.unused, Bool-cases (member heap.unused ps))

  allocated :
      (str : A) (heap : Heap A)
      → (allocate str heap).1.items heap.unused ≡ some (record { string = str; next = 0 })
  unfolding allocate put
  allocated str heap = ground arith

  Chain-allocate :
      {heap : Heap A} {p : ℕ} {ps : List ℕ} {xs : List A} (str : A)
      → Chain heap p ps xs
      → Owns heap ps
      → Chain (allocate str heap).1 p ps xs
  unfolding allocate put
  Chain-allocate {heap} str c o = Chain-same (λ b m. ground (arith, m, o.below b)) c

  Owns-append :
      {heap heap' : Heap A} {ps : List ℕ} (str : A)
      → Owns heap ps
      → Elsewhere (allocate str heap).1 heap' ps
      → Owns heap' (ps ++ (heap.unused ∷ []))
  unfolding allocate put
  Owns-append {heap} {heap'} {ps} str o e = record {
    distinct = Distinct-append heap.unused ps o.distinct (away o);
    below = λ b m. ground (arith, m, member-append b heap.unused ps, o.below b, e.unused);
    only = λ b m. ground (arith, m, member-append b heap.unused ps, e.same b, o.only b);
    positive = ground (arith, e.unused);
  }

  pub add-Chain :
      {heap : Heap A} {p : ℕ} {ps : List ℕ} {xs : List A} (fuel : ℕ) (str : A)
      → Chain heap p ps xs
      → Owns heap ps
      → length xs < fuel
      → (s' : Items A) × (add fuel str (record { first = p; heap = heap }) ≡ some s')
        × Holds s' (xs ++ (str ∷ []))
  unfolding add
  add-Chain {heap} fuel str end o enough = (
    record { first = heap.unused; heap = (allocate str heap).1 },
    unfold allocate in refl,
    record {
      places = heap.unused ∷ [];
      chain = link (ground (arith, o.positive)) (allocated str heap) end;
      owns = Owns-append str o (record { same = λ b m. refl; unused = refl });
    },
  )
  add-Chain {heap} fuel str (link {a = a} q here rest) o enough =
      let (heap', done, chain, e) =
        link_last-Chain heap.unused str fuel (Chain-allocate str (link q here rest) o) q o.distinct
          (away o) (ground (arith, o.positive)) (allocated str heap) (omega arith) in
      (
        record { first = a; heap = heap' },
        unfold allocate in rw (add, ne→==-false a 0 q, done) refl,
        record { places = _; chain = chain; owns = Owns-append str o e },
      )

  -- The list without its first item, which is deleted.
  pub Holds-rest :
      {heap : Heap A} {a n : ℕ} {ps : List ℕ} {xs : List A}
      → Chain heap n ps xs
      → Owns heap (a ∷ ps)
      → Holds (record { first = n; heap = put a none heap }) xs
  unfolding put member
  Holds-rest {heap} {a} {n} {ps} rest o = record {
    places = ps;
    chain =
        Chain-same (λ b m. ground (arith, m, o.distinct, ap (λ c. member c ps) {x = b} {y = a}))
          rest;
    owns = record {
      distinct = o.distinct.1;
      below = λ b m. ground (arith, m, o.below b);
      only = λ b m. ground (arith, m, o.only b);
      positive = o.positive;
    };
  }

  drop_first-Chain :
      {heap : Heap A} {p : ℕ} {ps : List ℕ} {x : A} {xs : List A}
      → Chain heap p ps (x ∷ xs)
      → Owns heap ps
      → (s' : Items A) × (p ≢ 0)
        × (drop_first (record { first = p; heap = heap }) ≡ some (true, s'))
        × Holds s' xs
  unfolding drop_first
  drop_first-Chain {heap} (link {a = a} {n = n} q here rest) o =
      (record { first = n; heap = put a none heap }, q, rw here refl, Holds-rest rest o)

  pub Holds-Removed :
      {heap heap' : Heap A} {a : ℕ} {ps : List ℕ} {ys : List A}
      → Owns heap (a ∷ ps)
      → Removed heap a ps ys heap'
      → Holds (record { first = a; heap = heap' }) ys
  unfolding member
  Holds-Removed {heap} {heap'} {a} {ps} o r = record {
    places = a ∷ r.places;
    chain = r.chain;
    owns = record {
      distinct = r.distinct;
      below = λ b m. ground (arith, m, o.below b, r.part b, r.elsewhere.unused);
      only = λ b m.
          ground (arith, m, Bool-cases (member b ps), r.freed b, r.elsewhere.same b, o.only b);
      positive = ground (arith, o.positive, r.elsewhere.unused);
    };
  }

  pub remove_at-Chain :
      {heap : Heap A} {p : ℕ} {ps : List ℕ} {xs : List A} (fuel index : ℕ)
      → Chain heap p ps xs
      → Owns heap ps
      → length xs < fuel
      → let r = removed (λ i _. i == index) 0 xs in
        (s' : Items A) × (remove_at fuel index (record { first = p; heap = heap }) ≡ some (r.0, s'))
        × Holds s' r.1
  unfolding remove_at remove_from with_heap
  remove_at-Chain fuel zero end o enough = (_, refl, record { places = []; chain = end; owns = o })
  remove_at-Chain {heap} (suc fuel) (suc index) end o enough =
      let later : (suc index == 0) ≡ false = ground arith in
      (
        record { first = 0; heap = heap },
        rw (remove_at, later, remove_from) refl,
        record { places = []; chain = end; owns = o },
      )
  remove_at-Chain fuel zero (link {a = a} q here rest) o enough =
      let (s', nonzero, done, holds) = drop_first-Chain (link q here rest) o in
      (s', rw (remove_at, ne→==-false a 0 q) done, holds)
  remove_at-Chain zero (suc index) c o enough = absurd (omega arith)
  remove_at-Chain {heap} (suc fuel) (suc index) (link {a = a} q here rest) o enough =
      let (heap', done, r) =
        remove_from-Removed (λ i _. i == suc index) fuel 1 q here rest o.distinct (omega arith) in
      let later : (suc index == 0) ≡ false = ground arith in
      let first : (0 == suc index) ≡ false = ground arith in
      (
        record { first = a; heap = heap' },
        rw (remove_at, later, remove_from, ne→==-false a 0 q, here, first, done) refl,
        rw first (Holds-Removed o r),
      )

  pub remove_string-Chain :
      {heap : Heap A} {p : ℕ} {ps : List ℕ} {xs : List A} (same : A → A → Bool) (fuel : ℕ) (str : A)
      → Chain heap p ps xs
      → Owns heap ps
      → length xs < suc fuel
      → let r = removed (λ _ x. same x str) 0 xs in
        (s' : Items A) × (remove_string same fuel str (record { first = p; heap = heap })
          ≡ some (r.0, s'))
        × Holds s' r.1
  unfolding remove_string with_heap
  remove_string-Chain same fuel str end o enough =
      (_, refl, record { places = []; chain = end; owns = o })
  remove_string-Chain {heap} same fuel str
        (link {a = a} {n = n} {ps = ps} {x = x} {xs = xs} q here rest) o enough =
      let r = removed (λ _ x. same x str) 0 (x ∷ xs) in
      elim (Bool-cases (same x str))
        as (λ _.
          (s' : Items A) × (remove_string same fuel str (record { first = a; heap = heap })
            ≡ some (r.0, s'))
          × Holds s' r.1) [
            | inl e ↦
                let (s', nonzero, done, holds) = drop_first-Chain (link q here rest) o in
                (s', rw (remove_string, ne→==-false a 0 q, here, e) done, rw e holds)
            | inr e ↦
                let (heap', done, r) =
                  remove_from-Removed (λ _ x. same x str) fuel 1 q here rest o.distinct
                    (omega arith) in
                (
                  record { first = a; heap = heap' },
                  rw (remove_string, ne→==-false a 0 q, here, e, done) refl,
                  rw e (Holds-Removed o r),
                )
          ]

  pub free-Chain :
      (fuel : ℕ) {heap : Heap A} {p : ℕ} {ps : List ℕ} {xs : List A}
      → Chain heap p ps xs
      → Owns heap ps
      → length xs < fuel
      → (s' : Items A) × (free fuel (record { first = p; heap = heap }) ≡ some s') × Holds s' []
  unfolding free
  free-Chain zero c o enough = absurd (omega arith)
  free-Chain (suc fuel) end o enough = (_, refl, record { places = []; chain = end; owns = o })
  free-Chain (suc fuel) (link {a = a} q here rest) o enough =
      let (s', nonzero, done, holds) = drop_first-Chain (link q here rest) o in
      let (s'', done', holds') = free-Chain fuel holds.chain holds.owns (omega arith) in
      (s'', rw (free, ne→==-false a 0 q, done) done', holds')

-- ===== src/Items/Unlink.antt =====
-- The loops that add an item at the end of a list, or take one out.
use ras_pi_arduino.Prelude.{ℕ, zero, suc, ◌+◌, ◌<◌, ◌≡◌, ◌≢◌, refl, ap, ◌∙◌, arith, member}
use ras_pi_arduino.Prelude.{Bool, true, false, Option, none, some, List, [], ◌∷◌, ◌++◌, length}
use ras_pi_arduino.Prelude.{if◌then◌else◌, Bool-cases, inl, inr, ne→==-false}
use ras_pi_arduino.Items.{Item, Heap, put, link_last, unlink, remove_from}
use ras_pi_arduino.Items.Chain.{Chain, end, link, Chain-same, Distinct}

module _ {A : Type 0} where
  pub items-put : (a : ℕ) (item : Option (Item A)) (h : Heap A) → (put a item h).items a ≡ item
  unfolding put
  items-put a item h = ground arith

  pub items-put_ne :
      (a b : ℕ) (item : Option (Item A)) (h : Heap A) → b ≢ a → (put a item h).items b ≡ h.items b
  unfolding put
  items-put_ne a b item h ne = ground arith

  -- What a change of the items at `ps` leaves: the other items, and the addresses not yet in use.
  pub record Elsewhere (h h' : Heap A) (ps : List ℕ) : Type 0 where
    pub same : (b : ℕ) → member b ps ≡ false → h'.items b ≡ h.items b
    pub unused : h'.unused ≡ h.unused

  pub link_last-Chain :
      {h : Heap A} (it : ℕ) (str : A) (fuel : ℕ) {p : ℕ} {ps : List ℕ} {xs : List A}
      → Chain h p ps xs
      → p ≢ 0
      → Distinct ps
      → member it ps ≡ false
      → it ≢ 0
      → h.items it ≡ some (record { string = str; next = 0 })
      → length xs < suc fuel
      → (h' : Heap A) × (link_last fuel it p h ≡ some h')
        × Chain h' p (ps ++ (it ∷ [])) (xs ++ (str ∷ []))
        × Elsewhere h h' ps
  unfolding link_last member
  link_last-Chain it str fuel end some_first distinct away nonzero new enough =
      absurd (some_first refl)
  link_last-Chain it str zero (link q here rest) some_first distinct away nonzero new enough =
      absurd (omega arith)
  link_last-Chain {h} it str (suc fuel) (link {a = a} {n = n} {x = x} q here end) some_first
        distinct away nonzero new enough =
      let h' = put a (some (record { string = x; next = it })) h in
      (
        h',
        rw (link_last, here) refl,
        link q (items-put a (some (record { string = x; next = it })) h) (
            link nonzero
              (items-put_ne a it (some (record { string = x; next = it })) h (ground (arith, away))
                ∙ new)
              end),
        record {
          same = λ b m.
              items-put_ne a b (some (record { string = x; next = it })) h (ground (arith, m));
          unused = unfold put in refl;
        },
      )
  link_last-Chain {h} it str (suc fuel)
        (link {a = a} {n = n} {ps = ps} {x = x} q here (link r there rest)) some_first distinct away
        nonzero new enough =
      let (h', done, chain, elsewhere) =
        link_last-Chain it str fuel (link r there rest) r distinct.1 (ground (arith, away)) nonzero
          new (omega arith) in
      (
        h',
        rw (link_last, here, ne→==-false n 0 r) done,
        link q (elsewhere.same a distinct.0 ∙ here) chain,
        record { same = λ b m. elsewhere.same b (ground (arith, m)); unused = elsewhere.unused },
      )

  -- The list without the first item that passes the test, and whether there is one.
  abbrev pub removed : (ℕ → A → Bool) → ℕ → List A → Bool × List A
  removed hit i [] = (false, [])
  removed hit i (x ∷ xs) =
      let rest = removed hit (i + 1) xs in if hit i x then (true, xs) else (rest.0, x ∷ rest.1)

  -- What `remove_from` makes of the heap: the chain from `pit` on without the item, no other
  -- change, and nothing at an address that has left the chain.
  pub record Removed (h : Heap A) (pit : ℕ) (ps : List ℕ) (xs : List A) (h' : Heap A) : Type 0 where
    pub places : List ℕ
    pub chain : Chain h' pit (pit ∷ places) xs
    pub distinct : Distinct (pit ∷ places)
    pub part : (b : ℕ) → member b places ≡ true → member b ps ≡ true
    pub freed : (b : ℕ) → member b ps ≡ true → member b places ≡ false → h'.items b ≡ none
    pub elsewhere : Elsewhere h h' (pit ∷ ps)

  -- The chain behind the item at `it`, when that is taken out behind `pit`.
  pub Chain-unlinked :
      (pit it : ℕ) (y : A) {h : Heap A} {n : ℕ} {ps : List ℕ} {xs : List A}
      → Chain h n ps xs
      → Distinct (pit ∷ it ∷ ps)
      → Chain (put it none (put pit (some (record { string = y; next = n })) h)) n ps xs
  unfolding member put
  Chain-unlinked pit it y {ps = ps} rest distinct =
      Chain-same
        (λ b m. ground (
          arith,
          m,
          distinct,
          ap (λ c. member c ps) {x = b} {y = pit},
          ap (λ c. member c ps) {x = b} {y = it},
        ))
        rest

  -- The item at `it`, behind `pit`, is taken out.
  pub Removed-hit :
      {h : Heap A} {pit it n : ℕ} {ps : List ℕ} {y : A} {xs : List A}
      → pit ≢ 0
      → Chain h n ps xs
      → Distinct (pit ∷ it ∷ ps)
      → Removed h pit
          (it ∷ ps)
          (y ∷ xs)
          (put it none (put pit (some (record { string = y; next = n })) h))
  unfolding member put
  Removed-hit {h} {pit} {it} {n} {ps} {y} q rest distinct = record {
    places = ps;
    chain = link q (ground (arith, distinct)) (Chain-unlinked pit it y rest distinct);
    distinct = (ground (arith, distinct), distinct.1.1);
    part = λ b m. ground (arith, m);
    freed = λ b m m'. ground (arith, m, m');
    elsewhere = record { same = λ b m. ground (arith, m); unused = refl };
  }

  -- The item at `it` stays, and one behind it is taken out, or none.
  pub Removed-miss :
      {h h' : Heap A} {pit it : ℕ} {ps : List ℕ} {y : A} {xs : List A}
      → pit ≢ 0
      → h.items pit ≡ some (record { string = y; next = it })
      → Distinct (pit ∷ it ∷ ps)
      → Removed h it ps xs h'
      → Removed h pit (it ∷ ps) (y ∷ xs) h'
  unfolding member
  Removed-miss {h} {h'} {pit} {it} {ps} q here distinct r = record {
    places = it ∷ r.places;
    chain = link q (r.elsewhere.same pit distinct.0 ∙ here) r.chain;
    distinct = (ground (arith, distinct, r.part pit, Bool-cases (member pit r.places)), r.distinct);
    part = λ b m. ground (arith, m, r.part b);
    freed = λ b m m'. ground (arith, m, m', r.freed b);
    elsewhere = record {
      same = λ b m. r.elsewhere.same b (ground (arith, m));
      unused = r.elsewhere.unused;
    };
  }

  abbrev Result : (ℕ → A → Bool) → ℕ → ℕ → Heap A → ℕ → ℕ → List ℕ → A → List A → Type 0
  Result hit fuel i h pit it ps y xs =
      (h' : Heap A) × (remove_from hit fuel i pit it h ≡ some ((removed hit i xs).0, h'))
      × Removed h pit ps (y ∷ (removed hit i xs).1) h'

  pub remove_from-Removed :
      {h : Heap A} (hit : ℕ → A → Bool) (fuel i : ℕ) {pit it : ℕ} {ps : List ℕ} {y : A}
      {xs : List A}
      → pit ≢ 0
      → h.items pit ≡ some (record { string = y; next = it })
      → Chain h it ps xs
      → Distinct (pit ∷ ps)
      → length xs < fuel
      → Result hit fuel i h pit it ps y xs
  unfolding remove_from unlink member
  remove_from-Removed hit zero i q here c distinct enough = absurd (omega arith)
  remove_from-Removed {h} hit (suc fuel) i {pit} q here end distinct enough = (
    h,
    refl,
    record {
      places = [];
      chain = link q here end;
      distinct = distinct;
      part = λ b m. m;
      freed = λ b m. ground (arith, m);
      elsewhere = record { same = λ b m. refl; unused = refl };
    },
  )
  remove_from-Removed {h} hit (suc fuel) i {pit} {it} {y = y} q here
        (link {n = n} {ps = ps} {x = x} {xs = xs} r there rest) distinct enough =
      elim (Bool-cases (hit i x)) as (λ _. Result hit (suc fuel) i h pit it (it ∷ ps) y (x ∷ xs)) [
        | inl e ↦ (
          put it none (put pit (some (record { string = y; next = n })) h),
          rw (remove_from, ne→==-false it 0 r, there, e, here) refl,
          rw e (Removed-hit q rest distinct),
        )
        | inr e ↦
            let (h', done, rest') =
              remove_from-Removed hit fuel (i + 1) r there rest distinct.1 (omega arith) in
            (
              h',
              rw (remove_from, ne→==-false it 0 r, there, e) done,
              rw e (Removed-miss q here distinct rest'),
            )
      ]

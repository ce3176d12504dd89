-- ===== src/Items.antt =====
-- cores/piduino/StringArray.h: a linked list of strings, over a heap. An address that is 0 is NULL;
-- `new` gives an address that was never in use; a read or a `delete` of an address without an item
-- is undefined, and gives none. The strings are values with the test `==` of the class String.
pub mod Chain
pub mod Unlink
pub mod Refine
pub mod Calls
mod Tests
use ras_pi_arduino.Prelude.{ℕ, zero, suc, ◌+◌, Bool, true, false, Option, none, some, List, [], ◌∷◌}
use ras_pi_arduino.Prelude.{◌==◌, if◌then◌else◌}

-- `StringArrayItem`.
pub record Item {ℓ} (A : Type ℓ) : Type ℓ where
  pub string : A
  pub next : ℕ

pub record Heap {ℓ} (A : Type ℓ) : Type ℓ where
  pub items : ℕ → Option (Item A)
  pub unused : ℕ

-- `_items`, with the heap.
pub record Items {ℓ} (A : Type ℓ) : Type ℓ where
  pub first : ℕ
  pub heap : Heap A

module _ {ℓ} {A : Type ℓ} where
  unfoldable pub put : ℕ → Option (Item A) → Heap A → Heap A
  put a item h = record h { items = λ b. if b == a then item else h.items b }

  -- `new StringArrayItem(str)`, and its address.
  unfoldable pub allocate : A → Heap A → ℕ × Heap A
  allocate str h = (
    h.unused,
    record (put h.unused (some (record { string = str; next = 0 })) h) { unused = suc h.unused },
  )

  -- The loop of `add` at item `i`.
  unfoldable pub link_last : ℕ → ℕ → ℕ → Heap A → Option (Heap A)
  link_last zero it i h = none
  link_last (suc fuel) it i h = elim (h.items i) [
    | none ↦ none
    | some item ↦
        let more = link_last fuel it item.next h in
        if item.next == 0 then some (put i (some (record item { next = it })) h) else more
  ]

  unfoldable pub add : ℕ → A → Items A → Option (Items A)
  add fuel str s =
      let (it, h) = allocate str s.heap in
      if s.first == 0
      then some (record { first = it; heap = h })
      else elim (link_last fuel it s.first h) [
        | none ↦ none
        | some h' ↦ some (record s { heap = h' })
      ]

  -- The loops that only read, at address `it`.
  unfoldable pub count_from : ℕ → ℕ → Heap A → Option ℕ
  count_from zero it h = none
  count_from (suc fuel) it h = if it == 0 then some 0 else elim (h.items it) [
    | none ↦ none
    | some item ↦ elim (count_from fuel item.next h) [ none ↦ none | some n ↦ some (suc n) ]
  ]

  unfoldable pub length_of : ℕ → Items A → Option ℕ
  length_of fuel s = count_from fuel s.first s.heap

  -- `blank` is `String()`.
  unfoldable pub get_from : A → ℕ → ℕ → ℕ → ℕ → Heap A → Option A
  get_from blank zero index i it h = none
  get_from blank (suc fuel) index i it h = if it == 0 then some blank else elim (h.items it) [
    | none ↦ none
    | some item ↦
        let more = get_from blank fuel index (i + 1) item.next h in
        if i == index then some item.string else more
  ]

  unfoldable pub get : A → ℕ → ℕ → Items A → Option A
  get blank fuel index s = get_from blank fuel index 0 s.first s.heap

  -- `pit->next = it->next; delete it`.
  unfoldable pub unlink : ℕ → ℕ → Item A → Heap A → Option (Heap A)
  unlink pit it item h = elim (h.items pit) [
    | none ↦ none
    | some before ↦ some (put it none (put pit (some (record before { next = item.next })) h))
  ]

  -- `_items = _items->next; delete it`, where `it` is the first item.
  unfoldable pub drop_first : Items A → Option (Bool × Items A)
  drop_first s = elim (s.heap.items s.first) [
    | none ↦ none
    | some item ↦ some (true, record { first = item.next; heap = put s.first none s.heap })
  ]

  -- The loops of the two methods `remove` behind the first item. `hit` is the test of the item at
  -- the place `i`.
  unfoldable pub remove_from : (ℕ → A → Bool) → ℕ → ℕ → ℕ → ℕ → Heap A → Option (Bool × Heap A)
  remove_from hit zero i pit it h = none
  remove_from hit (suc fuel) i pit it h = if it == 0 then some (false, h) else elim (h.items it) [
    | none ↦ none
    | some item ↦
        let more = remove_from hit fuel (i + 1) it item.next h in
        if hit i item.string
        then elim (unlink pit it item h) [ none ↦ none | some h' ↦ some (true, h') ]
        else more
  ]

  unfoldable pub with_heap : Items A → Option (Bool × Heap A) → Option (Bool × Items A)
  with_heap s none = none
  with_heap s (some r) = some (r.0, record s { heap = r.1 })

  -- `remove(size_t)`: the loop passes the first item, whose place is 0.
  unfoldable pub remove_at : ℕ → ℕ → Items A → Option (Bool × Items A)
  remove_at fuel index s =
      if index == 0
      then if s.first == 0 then some (false, s) else drop_first s
      else with_heap s (remove_from (λ i _. i == index) fuel 0 s.first s.first s.heap)

  module _ (same : A → A → Bool) where
    unfoldable pub contains_from : ℕ → A → ℕ → Heap A → Option Bool
    contains_from zero str it h = none
    contains_from (suc fuel) str it h = if it == 0 then some false else elim (h.items it) [
      | none ↦ none
      | some item ↦
          let more = contains_from fuel str item.next h in
          if same item.string str then some true else more
    ]

    unfoldable pub contains : ℕ → A → Items A → Option Bool
    contains fuel str s = contains_from fuel str s.first s.heap

    -- `remove(String)`: the first round, where `it == _items`, and the rest of the loop.
    unfoldable pub remove_string : ℕ → A → Items A → Option (Bool × Items A)
    remove_string fuel str s =
        if s.first == 0 then some (false, s) else elim (s.heap.items s.first) [
          | none ↦ none
          | some item ↦
              if same item.string str
              then drop_first s
              else with_heap s (remove_from (λ _ x. same x str) fuel 1 s.first item.next s.heap)
        ]

  unfoldable pub free : ℕ → Items A → Option (Items A)
  free zero s = none
  free (suc fuel) s =
      if s.first == 0 then some s else elim (drop_first s) [ none ↦ none | some r ↦ free fuel r.1 ]

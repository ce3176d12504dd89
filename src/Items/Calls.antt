-- ===== src/Items/Calls.antt =====
-- Sequences of calls of the linked list, and of a list.
use ras_pi_arduino.Prelude.{ℕ, suc, ◌+◌, ◌-◌, ◌≤◌, ◌<◌, ◌≡◌, refl, arith}
use ras_pi_arduino.Prelude.{
  Bool, Option, none, some, List, [], ◌∷◌, ◌++◌, length, length-append, get_or,
}
use ras_pi_arduino.Prelude.{◌==◌}
use ras_pi_arduino.Items.{Items}
use ras_pi_arduino.Items
use ras_pi_arduino.Items.Chain.{count_from-Chain, get_from-Chain, contains_from-Chain, any_same}
use ras_pi_arduino.Items.Unlink.{removed}
use ras_pi_arduino.Items.Refine.{Holds, add-Chain, remove_at-Chain, remove_string-Chain, free-Chain}

pub data Call (A : Type 0) : Type 0 where
  add contains remove_string : A → Call A
  get remove_at : ℕ → Call A
  length_of free : Call A

-- What a call returns.
pub data Answer (A : Type 0) : Type 0 where
  nothing : Answer A
  number : ℕ → Answer A
  truth : Bool → Answer A
  text : A → Answer A

module _ {A : Type 0} (same : A → A → Bool) (blank : A) where
  -- The call of the code, with fuel for its loop, and that of a list.
  unfoldable pub perform : ℕ → Call A → Items.Items A → Option (Answer A × Items.Items A)
  perform fuel (add str) s = elim (Items.add fuel str s) [
    | none ↦ none
    | some s' ↦ some (nothing, s')
  ]
  perform fuel (contains str) s = elim (Items.contains same fuel str s) [
    | none ↦ none
    | some b ↦ some (truth b, s)
  ]
  perform fuel (remove_string str) s = elim (Items.remove_string same fuel str s) [
    | none ↦ none
    | some r ↦ some (truth r.0, r.1)
  ]
  perform fuel (get index) s = elim (Items.get blank fuel index s) [
    | none ↦ none
    | some x ↦ some (text x, s)
  ]
  perform fuel (remove_at index) s = elim (Items.remove_at fuel index s) [
    | none ↦ none
    | some r ↦ some (truth r.0, r.1)
  ]
  perform fuel length_of s = elim (Items.length_of fuel s) [
    | none ↦ none
    | some n ↦ some (number n, s)
  ]
  perform fuel free s = elim (Items.free fuel s) [ none ↦ none | some s' ↦ some (nothing, s') ]

  unfoldable pub on_list : Call A → List A → Answer A × List A
  on_list (add str) xs = (nothing, xs ++ (str ∷ []))
  on_list (contains str) xs = (truth (any_same same str xs), xs)
  on_list (remove_string str) xs = let r = removed (λ _ x. same x str) 0 xs in (truth r.0, r.1)
  on_list (get index) xs = (text (get_or xs index blank), xs)
  on_list (remove_at index) xs = let r = removed (λ i _. i == index) 0 xs in (truth r.0, r.1)
  on_list length_of xs = (number (length xs), xs)
  on_list free xs = (nothing, [])

  unfoldable pub perform_all :
      ℕ → List (Call A) → Items.Items A → Option (List (Answer A) × Items.Items A)
  perform_all fuel [] s = some ([], s)
  perform_all fuel (c ∷ cs) s = elim (perform fuel c s) [
    | none ↦ none
    | some r ↦ elim (perform_all fuel cs r.1) [ none ↦ none | some q ↦ some (r.0 ∷ q.0, q.1) ]
  ]

  unfoldable pub on_list_all : List (Call A) → List A → List (Answer A) × List A
  on_list_all [] xs = ([], xs)
  on_list_all (c ∷ cs) xs = let r = on_list c xs in let q = on_list_all cs r.1 in (r.0 ∷ q.0, q.1)

  perform-on_list :
      {s : Items.Items A} {xs : List A} (fuel : ℕ) (c : Call A)
      → Holds s xs
      → length xs < fuel
      → (s' : Items.Items A) × (perform fuel c s ≡ some ((on_list c xs).0, s'))
        × Holds s' (on_list c xs).1
  unfolding perform on_list Items.contains Items.get Items.length_of
  perform-on_list fuel (add str) h enough =
      let (s', done, h') = add-Chain fuel str h.chain h.owns enough in
      (s', rw (perform, done) refl, h')
  perform-on_list {s} fuel (contains str) h enough =
      (s, rw (perform, contains_from-Chain same str fuel h.chain enough) refl, h)
  perform-on_list fuel (remove_string str) h enough =
      let (s', done, h') = remove_string-Chain same fuel str h.chain h.owns (omega arith) in
      (s', rw (perform, done) refl, h')
  perform-on_list {s} {xs} fuel (get index) h enough =
      let whole : index - 0 ≡ index = omega arith in
      (
        s,
        rw (perform, get_from-Chain blank fuel index 0 h.chain enough (omega arith), whole) refl,
        h,
      )
  perform-on_list fuel (remove_at index) h enough =
      let (s', done, h') = remove_at-Chain fuel index h.chain h.owns enough in
      (s', rw (perform, done) refl, h')
  perform-on_list {s} fuel length_of h enough =
      (s, rw (perform, count_from-Chain fuel h.chain enough) refl, h)
  perform-on_list fuel free h enough =
      let (s', done, h') = free-Chain fuel h.chain h.owns enough in
      (s', rw (perform, done) refl, h')

  length-removed :
      (hit : ℕ → A → Bool) (i : ℕ) (xs : List A) → length (removed hit i xs).1 ≤ length xs
  length-removed hit i [] = omega arith
  length-removed hit i (x ∷ xs) = ground (arith, length-removed hit (i + 1) xs)

  length-on_list : (c : Call A) (xs : List A) → length (on_list c xs).1 ≤ suc (length xs)
  unfolding on_list
  length-on_list (add str) xs = omega (arith, length-append xs (str ∷ []))
  length-on_list (contains str) xs = omega arith
  length-on_list (remove_string str) xs = omega (arith, length-removed (λ _ x. same x str) 0 xs)
  length-on_list (get index) xs = omega arith
  length-on_list (remove_at index) xs = omega (arith, length-removed (λ i _. i == index) 0 xs)
  length-on_list length_of xs = omega arith
  length-on_list free xs = omega arith

  -- No sequence of calls tells the linked list from a list: with fuel for as many items as there can
  -- be, every call ends without reading or deleting an address that holds no item, the answers are
  -- those of the list, and afterwards the heap holds the items of that list and no others, so that
  -- nothing leaks.
  pub perform_all-on_list_all :
      (fuel : ℕ) (cs : List (Call A)) {s : Items.Items A} {xs : List A}
      → Holds s xs
      → length xs + length cs < fuel
      → (s' : Items.Items A) × (perform_all fuel cs s ≡ some ((on_list_all cs xs).0, s'))
        × Holds s' (on_list_all cs xs).1
  unfolding perform_all on_list_all
  perform_all-on_list_all fuel [] {s} h enough = (s, refl, h)
  perform_all-on_list_all fuel (c ∷ cs) {s} {xs} h enough =
      let (s', done, h') = perform-on_list fuel c h (omega arith) in
      let (s'', done', h'') =
        perform_all-on_list_all fuel cs h' (omega (arith, length-on_list c xs)) in
      (s'', rw (perform_all, done, done') refl, h'')

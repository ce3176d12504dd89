-- ===== src/Stream/Timing.antt =====
-- When the timed methods wait and when they give up, and that the parsing loops end.
use ras_pi_arduino.Prelude.{ℕ, zero, suc, ◌+◌, ◌-◌, ◌≤◌, ◌<◌, ◌^◌, ◌≡◌, ◌≢◌, refl, arith}
use ras_pi_arduino.Prelude.{
  ◌||◌, Bool, true, false, Option, none, some, List, [], ◌∷◌, ◌++◌, map, length,
}
use ras_pi_arduino.Prelude.{ltb, ◌==◌, if◌then◌else◌, inl, inr, Option-cases, ◌⊎◌}
use ras_pi_arduino.Prelude.Bits.{u32}
use ras_pi_arduino.Prelude.Signed.{ℤ}
use ras_pi_arduino.Stream

abbrev pub gaps : List ℕ → List Stream.Slot
gaps = map Stream.gap

abbrev pub total : List ℕ → ℕ
total [] = 0
total (d ∷ ds) = d + total ds

timed_read_from-gaps :
    (timeout elapsed : ℕ) (ds : List ℕ) (c : ℕ) (rest : List Stream.Slot)
    → elapsed + total ds < timeout
    → timeout < 2 ^ 32
    → Stream.timed_read_from timeout elapsed (gaps ds ++ (Stream.byte c ∷ rest)) ≡ (some c, rest)
unfolding Stream.timed_read_from
timed_read_from-gaps timeout elapsed [] c rest h small = refl
timed_read_from-gaps timeout elapsed (d ∷ ds) c rest h small =
    let go : ltb (u32 (elapsed + d)) timeout ≡ true = ground arith in
    rw go (timed_read_from-gaps timeout (elapsed + d) ds c rest (omega arith) small)

timed_read_from-late :
    (timeout elapsed : ℕ) (d : ℕ) (ds : List ℕ) (c : ℕ) (rest : List Stream.Slot)
    → timeout ≤ elapsed + total (d ∷ ds)
    → elapsed + total (d ∷ ds) < 2 ^ 32
    → (Stream.timed_read_from timeout elapsed (gaps (d ∷ ds) ++ (Stream.byte c ∷ rest))).0 ≡ none
unfolding Stream.timed_read_from
timed_read_from-late timeout elapsed d [] c rest h small =
    let stop : ltb (u32 (elapsed + d)) timeout ≡ false = ground arith in rw stop
timed_read_from-late timeout elapsed d (d' ∷ ds) c rest h small =
    ground
      (arith, timed_read_from-late timeout (elapsed + d) d' ds c rest (omega arith) (omega arith))

-- A byte that is there is read at once. One that comes after polls which found nothing is read
-- exactly when the time that they took is less than the timeout; the waits stay below 2 ^ 32
-- milliseconds, where the clock wraps.
pub timed_read_lem :
    (timeout : ℕ) (ds : List ℕ) (c : ℕ) (rest : List Stream.Slot)
    → timeout < 2 ^ 32
    → total ds < 2 ^ 32
    → (Stream.timed_read timeout (gaps ds ++ (Stream.byte c ∷ rest))).0
      ≡ (if length ds == 0 || ltb (total ds) timeout then some c else none)
unfolding Stream.timed_read
timed_read_lem timeout [] c rest small wait = unfold Stream.timed_read_from in refl
timed_read_lem timeout (d ∷ ds) c rest small wait = ground (
  arith,
  timed_read_from-gaps timeout 0 (d ∷ ds) c rest,
  timed_read_from-late timeout 0 d ds c rest,
)

abbrev is_some : Option ℕ → Bool
is_some none = false
is_some (some c) = true

-- A peek takes nothing but gaps.
length-timed_peek_from :
    (timeout elapsed : ℕ) (input : List Stream.Slot)
    → let (c, rest) = Stream.timed_peek_from timeout elapsed input in
      (length rest ≤ length input) × (is_some c ≡ true → 0 < length rest)
unfolding Stream.timed_peek_from
length-timed_peek_from timeout elapsed [] = (omega arith, λ h. cc)
length-timed_peek_from timeout elapsed (Stream.byte c ∷ input) = (omega arith, λ h. omega arith)
length-timed_peek_from timeout elapsed (Stream.gap d ∷ input) =
    ground (arith, length-timed_peek_from timeout (elapsed + d) input)

length-poll : (input : List Stream.Slot) → length (Stream.poll input) ≡ length input - 1
unfolding Stream.poll
length-poll [] = refl
length-poll (s ∷ input) = omega arith

-- Enough fuel for the two loops of `parseInt`.
abbrev Searched : List Stream.Slot → Stream.Found → Type 0
Searched input (Stream.found c rest) = (length rest ≤ length input) × (0 < length rest)
Searched input (Stream.nothing rest) = Unit
Searched input Stream.out_of_fuel = ⊥

Searched-mono :
    (a b : List Stream.Slot) (r : Stream.Found) → length a ≤ length b → Searched a r → Searched b r
Searched-mono a b (Stream.found c rest) h s = (omega (arith, s.0), s.1)
Searched-mono a b (Stream.nothing rest) h s = tt
Searched-mono a b Stream.out_of_fuel h s = s

length-timed_peek :
    (timeout : ℕ) (input : List Stream.Slot)
    → let (c, rest) = Stream.timed_peek timeout input in
      (length rest ≤ length input) × (is_some c ≡ true → 0 < length rest)
unfolding Stream.timed_peek
length-timed_peek timeout input = length-timed_peek_from timeout 0 input

module _ (timeout : ℕ) where
  peek_next_digit-Searched :
      (fuel : ℕ) (lookahead : Stream.Lookahead) (dot : Bool) (input : List Stream.Slot)
      → length input < fuel
      → Searched input (Stream.peek_next_digit timeout fuel lookahead dot input)
  unfolding Stream.peek_next_digit
  peek_next_digit-Searched zero lookahead dot input h = absurd (omega arith)
  peek_next_digit-Searched (suc fuel) lookahead dot input h =
      let p = length-timed_peek timeout input in
      let q = length-poll (Stream.timed_peek timeout input).1 in
      elim (Option-cases (Stream.timed_peek timeout input).0) [
        | inl e ↦ ground (arith, e)
        | inr (c, e) ↦
            let n : 0 < length (Stream.timed_peek timeout input).1 = p.1 (rw e) in
            ground (
              arith,
              e,
              p,
              q,
              n,
              peek_next_digit-Searched fuel lookahead dot
                  (Stream.poll (Stream.timed_peek timeout input).1) (omega arith),
              Searched-mono (Stream.poll (Stream.timed_peek timeout input).1) input
                  (Stream.peek_next_digit timeout fuel lookahead dot
                    (Stream.poll (Stream.timed_peek timeout input).1))
                  (omega arith),
            )
      ]

  parse_digits-returns :
      (fuel ignore c value : ℕ) (negative : Bool) (input : List Stream.Slot)
      → length input < fuel
      → 0 < length input
      → Stream.parse_digits timeout fuel ignore c value negative input ≢ none
  unfolding Stream.parse_digits
  parse_digits-returns zero ignore c value negative input h e = absurd (omega arith)
  parse_digits-returns (suc fuel) ignore c value negative input h e =
      let rest = Stream.poll input in
      let p = length-timed_peek timeout rest in
      let q = length-poll input in
      let t = Stream.take_char ignore c value negative in
      elim (Option-cases (Stream.timed_peek timeout rest).0) [
        | inl e' ↦ ground (arith, e')
        | inr (d, e') ↦
            let n : 0 < length (Stream.timed_peek timeout rest).1 = p.1 (rw e') in
            ground (
              arith,
              e',
              parse_digits-returns fuel ignore d t.0 t.1 (Stream.timed_peek timeout rest).1
                  (omega arith) n,
            )
      ]

none_or_some {ℓ} : {A : Type ℓ} (o : Option A) → o ≢ none → (a : A) × (o ≡ some a)
none_or_some none h = absurd (h refl)
none_or_some (some a) h = (a, refl)

Searched-cases :
    (input : List Stream.Slot) (r : Stream.Found)
    → Searched input r
    → ((c : ℕ) × (rest : List Stream.Slot) × (r ≡ Stream.found c rest) × (0 < length rest))
      ⊎ ((rest : List Stream.Slot) × (r ≡ Stream.nothing rest))
Searched-cases input (Stream.found c rest) s = inl (c, rest, refl, s.1)
Searched-cases input (Stream.nothing rest) s = inr (rest, refl)
Searched-cases input Stream.out_of_fuel s = absurd s

parse_int-some :
    (timeout : ℕ) (lookahead : Stream.Lookahead) (ignore : ℕ) (input : List Stream.Slot)
    → Stream.parse_int timeout lookahead ignore input ≢ none
unfolding Stream.parse_int
parse_int-some timeout lookahead ignore input =
    let found = Stream.peek_next_digit timeout (suc (length input)) lookahead false input in
    let s =
      peek_next_digit-Searched timeout (suc (length input)) lookahead false input (omega arith) in
    elim (Searched-cases input found s) [
      | inl (c, rest, e, n) ↦ ground (
        arith,
        e,
        parse_digits-returns timeout (suc (length rest)) ignore c 0 false rest (omega arith) n,
      )
      | inr (rest, e) ↦ ground (arith, e)
    ]

-- `parseInt` returns, whatever the stream delivers, the lookahead and the character to ignore: the
-- fuel of the two loops of the model, one more than the slots of the stream, is enough.
pub parse_int-returns :
    (timeout : ℕ) (lookahead : Stream.Lookahead) (ignore : ℕ) (input : List Stream.Slot)
    → (r : ℤ × List Stream.Slot) × (Stream.parse_int timeout lookahead ignore input ≡ some r)
parse_int-returns timeout lookahead ignore input =
    none_or_some (Stream.parse_int timeout lookahead ignore input)
      (parse_int-some timeout lookahead ignore input)

-- ===== src/Prelude/Slices.antt =====
-- `memcpy` on arrays: the bytes that it reads, and the array that it leaves.
use Prim.Native.Nat.{ℕ, zero, suc, ◌+◌, ◌-◌, ◌≤◌, ◌<◌}
use mathlib.Core.Path.{◌≡◌, refl, sym, ap, ◌∙◌}
use mathlib.Core.List.{List, [], ◌∷◌, ◌++◌}
use native.Mathlib.Omega.{arith}
use ras_pi_arduino.Prelude.Lists.{length, take, drop, set, length-append, length-take, length-drop}
use ras_pi_arduino.Prelude.Lists.{take_all, take-append-drop, take-append_left}
use ras_pi_arduino.Prelude.Lists.{drop-append_left, drop-append_right, drop-drop, take-split}

module _ {ℓ} {A : Type ℓ} where
  -- The `n` elements from index `i` on.
  abbrev pub slice : List A → ℕ → ℕ → List A
  slice xs i n = take n (drop i xs)

  -- `ys` copied over `xs` from index `i` on.
  unfoldable pub blit : List A → ℕ → List A → List A
  blit xs i ys = take i xs ++ (ys ++ drop (i + length ys) xs)

  pub length-slice : (xs : List A) (i n : ℕ) → i + n ≤ length xs → length (slice xs i n) ≡ n
  length-slice xs i n h = omega (arith, length-take n (drop i xs), length-drop i xs)

  pub slice-split :
      (xs : List A) (i m n : ℕ) → slice xs i (m + n) ≡ slice xs i m ++ slice xs (i + m) n
  slice-split xs i m n =
      take-split m n (drop i xs) ∙ ap (λ t. take m (drop i xs) ++ take n t) (drop-drop i m xs)

  slice-append_left :
      (xs ys : List A) (j n : ℕ) → j + n ≤ length xs → slice (xs ++ ys) j n ≡ slice xs j n
  slice-append_left xs ys j n h =
      ap (λ t. take n t) (drop-append_left j xs ys (omega arith))
      ∙ take-append_left n (drop j xs) ys (omega (arith, length-drop j xs))

  slice-append_right :
      (xs ys : List A) (j n : ℕ) → length xs ≤ j → slice (xs ++ ys) j n ≡ slice ys (j - length xs) n
  slice-append_right xs ys j n h = ap (λ t. take n t) (drop-append_right j xs ys h)

  length-take_fit : (i : ℕ) (xs : List A) → i ≤ length xs → length (take i xs) ≡ i
  length-take_fit i xs h = omega (arith, length-take i xs)

  pub length-blit :
      (xs : List A) (i : ℕ) (ys : List A)
      → i + length ys ≤ length xs
      → length (blit xs i ys) ≡ length xs
  unfolding blit
  length-blit xs i ys h = omega (
    arith,
    length-append (take i xs) (ys ++ drop (i + length ys) xs),
    length-append ys (drop (i + length ys) xs),
    length-take i xs,
    length-drop (i + length ys) xs,
  )

  pub slice-blit_before :
      (xs : List A) (i : ℕ) (ys : List A) (j n : ℕ)
      → i ≤ length xs
      → j + n ≤ i
      → slice (blit xs i ys) j n ≡ slice xs j n
  unfolding blit
  slice-blit_before xs i ys j n h k =
      slice-append_left (take i xs) (ys ++ drop (i + length ys) xs) j n fits
      ∙ sym (slice-append_left (take i xs) (drop i xs) j n fits)
      ∙ ap (λ t. slice t j n) (take-append-drop i xs)
    where
      fits : j + n ≤ length (take i xs)
      fits = omega (arith, length-take i xs)

  pub slice-blit_self :
      (xs : List A) (i : ℕ) (ys : List A) (n : ℕ)
      → i ≤ length xs
      → n ≡ length ys
      → slice (blit xs i ys) i n ≡ ys
  unfolding blit
  slice-blit_self xs i ys n h e =
      slice-append_right (take i xs) (ys ++ drop (i + length ys) xs) i n
        (omega (arith, length-take i xs))
      ∙ ap (λ k. slice (ys ++ drop (i + length ys) xs) k n) {y = 0}
          (omega (arith, length-take i xs))
      ∙ take-append_left n ys (drop (i + length ys) xs) (omega arith)
      ∙ take_all n ys (omega arith)

  pub slice-blit_after :
      (xs : List A) (i : ℕ) (ys : List A) (j n : ℕ)
      → i ≤ length xs
      → i + length ys ≤ j
      → slice (blit xs i ys) j n ≡ slice xs j n
  unfolding blit
  slice-blit_after xs i ys j n h k =
      slice-append_right (take i xs) (ys ++ rest) j n (omega (arith, length-take i xs))
      ∙ slice-append_right ys rest (j - length (take i xs)) n (omega (arith, length-take i xs))
      ∙ ap (λ t. take n t)
          (drop-drop (i + length ys) (j - length (take i xs) - length ys) xs
            ∙ ap (λ m. drop m xs) (omega (arith, length-take i xs)))
    where
      rest : List A
      rest = drop (i + length ys) xs

  -- A store of one element is a copy of that one.
  pub set-eq-blit : (xs : List A) (i : ℕ) (v : A) → i < length xs → set xs i v ≡ blit xs i (v ∷ [])
  unfolding blit
  set-eq-blit [] i v h = absurd (omega arith)
  set-eq-blit (x ∷ xs) zero v h = refl
  set-eq-blit (x ∷ xs) (suc i) v h =
      ap (λ t. x ∷ t) (set-eq-blit xs i v (omega arith))
      ∙ ap (λ k. x ∷ (take i xs ++ (v ∷ drop k (x ∷ xs)))) {x = suc (i + 1)} {y = suc i + 1}
          (omega arith)

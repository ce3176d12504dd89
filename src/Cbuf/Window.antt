-- ===== src/Cbuf/Window.antt =====
-- The bytes that lie between two offsets of a circular array, and how a copy extends them.
use ras_pi_arduino.Prelude.{ℕ, ◌+◌, ◌-◌, ◌≤◌, ◌<◌, ◌≡◌, refl, sym, ap, ap₂, ◌∙◌, arith}
use ras_pi_arduino.Prelude.{List, ◌++◌, append-nil, append_assoc}
use ras_pi_arduino.Prelude.{leb, if◌then◌else◌, length}
use ras_pi_arduino.Prelude.{length-append}
use native.Mathlib.Nat.{zero-add}
use ras_pi_arduino.Prelude.Slices.{slice, blit, slice-split, length-slice}
use ras_pi_arduino.Prelude.Slices.{slice-blit_before, slice-blit_self, slice-blit_after}

unfoldable pub window : List ℕ → ℕ → ℕ → ℕ → List ℕ
window buf size b e =
    if leb b e then slice buf b (e - b) else slice buf b (size - b) ++ slice buf 0 e

-- How many there are.
abbrev pub span : ℕ → ℕ → ℕ → ℕ
span size b e = if leb b e then e - b else size - (b - e)

pub length-window :
    (buf : List ℕ) (size b e : ℕ)
    → length buf ≡ size
    → b < size
    → e < size
    → length (window buf size b e) ≡ span size b e
unfolding window
length-window buf size b e h hb he = ground (
  arith,
  length-slice buf b (e - b),
  length-slice buf b (size - b),
  length-slice buf 0 e,
  length-append (slice buf b (size - b)) (slice buf 0 e),
)

module _ (buf : List ℕ) where
  -- Two neighbouring slices are one.
  join_slices : (i m n k : ℕ) → i + m ≡ k → slice buf i m ++ slice buf k n ≡ slice buf i (m + n)
  join_slices i m n k e =
      ap (λ t. slice buf i m ++ slice buf t n) (sym e) ∙ sym (slice-split buf i m n)

  window_low : (size b e : ℕ) → b ≤ e → window buf size b e ≡ slice buf b (e - b)
  unfolding window
  window_low size b e h = ground arith

  window_high :
      (size b e : ℕ) → e < b → window buf size b e ≡ slice buf b (size - b) ++ slice buf 0 e
  unfolding window
  window_high size b e h = ground arith

  window_from_start : (size e : ℕ) → window buf size 0 e ≡ slice buf 0 e
  window_from_start size e =
      window_low size 0 e (omega arith) ∙ ap (λ t. slice buf 0 t) {y = e} (omega arith)

  -- What is read from the front and what remains make up the window.
  pub read_straight :
      (size b e n : ℕ)
      → b ≤ e
      → b + n ≤ e
      → slice buf b n ++ window buf size (b + n) e ≡ window buf size b e
  read_straight size b e n h k =
      ap (λ t. slice buf b n ++ t) (window_low size (b + n) e k)
      ∙ join_slices b n (e - (b + n)) (b + n) refl
      ∙ ap (λ t. slice buf b t) {y = e - b} (omega arith)
      ∙ sym (window_low size b e h)

  pub read_below_end :
      (size b e n : ℕ)
      → e < b
      → b + n < size
      → slice buf b n ++ window buf size (b + n) e ≡ window buf size b e
  read_below_end size b e n h k =
      ap (λ t. slice buf b n ++ t) (window_high size (b + n) e (omega arith))
      ∙ sym (append_assoc (slice buf b n) (slice buf (b + n) (size - (b + n))) (slice buf 0 e))
      ∙ ap (λ t. t ++ slice buf 0 e) (join_slices b n (size - (b + n)) (b + n) refl)
      ∙ ap (λ t. slice buf b t ++ slice buf 0 e) {y = size - b} (omega arith)
      ∙ sym (window_high size b e h)

  pub read_to_end :
      (size b e n : ℕ)
      → e < b
      → n ≡ size - b
      → slice buf b n ++ window buf size 0 e ≡ window buf size b e
  read_to_end size b e n h k = rw k (
      ap (λ t. slice buf b (size - b) ++ t) (window_from_start size e)
      ∙ sym (window_high size b e h))

  pub read_round :
      (size b e n : ℕ)
      → e < b
      → size - b ≤ n
      → n ≤ size - b + e
      → (slice buf b (size - b) ++ slice buf 0 (n - (size - b)))
          ++ window buf size (n - (size - b)) e
        ≡ window buf size b e
  read_round size b e n h k l =
      append_assoc (slice buf b (size - b)) (slice buf 0 m) (window buf size m e)
      ∙ ap (λ t. slice buf b (size - b) ++ t) (front ∙ window_from_start size e)
      ∙ sym (window_high size b e h)
    where
      m : ℕ
      m = n - (size - b)

      front : slice buf 0 m ++ window buf size m e ≡ window buf size 0 e
      front = rw zero-add at (read_straight size 0 e m (omega arith) (omega arith))

  -- A copy at the end of a slice appends to it.
  slice_extended :
      (b e : ℕ) (w : List ℕ)
      → e ≤ length buf
      → b ≤ e
      → slice (blit buf e w) b (e - b + length w) ≡ slice buf b (e - b) ++ w
  slice_extended b e w k h =
      slice-split (blit buf e w) b (e - b) (length w)
      ∙ ap₂ ◌++◌ (slice-blit_before buf e w b (e - b) k (omega arith)) (
          ap (λ t. slice (blit buf e w) t (length w)) {y = e} (omega arith)
          ∙ slice-blit_self buf e w (length w) k refl)

-- A copy at the end of the window appends to it.
pub write_straight :
    (buf : List ℕ) (size b e : ℕ) (w : List ℕ)
    → length buf ≡ size
    → b ≤ e
    → e + length w < size
    → window (blit buf e w) size b (e + length w) ≡ window buf size b e ++ w
write_straight buf size b e w len h k =
    window_low (blit buf e w) size b (e + length w) (omega arith)
    ∙ ap (λ t. slice (blit buf e w) b t) {y = e - b + length w} (omega arith)
    ∙ slice_extended buf b e w (omega arith) h
    ∙ ap (λ t. t ++ w) (sym (window_low buf size b e h))

pub write_to_end :
    (buf : List ℕ) (size b e : ℕ) (w : List ℕ)
    → length buf ≡ size
    → b ≤ e
    → 0 < b
    → e + length w ≡ size
    → window (blit buf e w) size b 0 ≡ window buf size b e ++ w
write_to_end buf size b e w len h k l =
    window_high (blit buf e w) size b 0 k
    ∙ append-nil _
    ∙ ap (λ t. slice (blit buf e w) b t) {y = e - b + length w} (omega arith)
    ∙ slice_extended buf b e w (omega arith) h
    ∙ ap (λ t. t ++ w) (sym (window_low buf size b e h))

pub write_round :
    (buf : List ℕ) (size b e : ℕ) (v w : List ℕ)
    → length buf ≡ size
    → b ≤ e
    → length w < b
    → e + length v ≡ size
    → window (blit (blit buf e v) 0 w) size b (length w) ≡ window buf size b e ++ (v ++ w)
write_round buf size b e v w len h k l =
    window_high (blit mid 0 w) size b (length w) k
    ∙ ap₂ ◌++◌
        (slice-blit_after mid 0 w b (size - b) (omega arith) (omega arith)
          ∙ ap (λ t. slice mid b t) {y = e - b + length v} (omega arith)
          ∙ slice_extended buf b e v (omega arith) h)
        (slice-blit_self mid 0 w (length w) (omega arith) refl)
    ∙ append_assoc (slice buf b (e - b)) v w
    ∙ ap (λ t. t ++ (v ++ w)) (sym (window_low buf size b e h))
  where
    mid : List ℕ
    mid = blit buf e v

pub write_below_begin :
    (buf : List ℕ) (size b e : ℕ) (w : List ℕ)
    → length buf ≡ size
    → b < size
    → e + length w < b
    → window (blit buf e w) size b (e + length w) ≡ window buf size b e ++ w
write_below_begin buf size b e w len h k =
    window_high (blit buf e w) size b (e + length w) k
    ∙ ap₂ ◌++◌ (slice-blit_after buf e w b (size - b) (omega arith) (omega arith)) (
        ap (λ t. slice (blit buf e w) 0 t) {y = e - 0 + length w} (omega arith)
        ∙ slice_extended buf 0 e w (omega arith) (omega arith)
        ∙ ap (λ t. slice buf 0 t ++ w) {y = e} (omega arith))
    ∙ sym (append_assoc (slice buf b (size - b)) (slice buf 0 e) w)
    ∙ ap (λ t. t ++ w) (sym (window_high buf size b e (omega arith)))

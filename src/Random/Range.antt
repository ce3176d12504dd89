-- ===== src/Random/Range.antt =====
-- random(howsmall, howbig) is in its range, and can be any number there.
use ras_pi_arduino.Prelude.{ℕ, ◌%◌, ◌^◌, ◌<◌, ◌≡◌, ◌≢◌, ◌∙◌, ap, arith, true, false, some}
use ras_pi_arduino.Prelude.Signed.{ℤ, pos, negsuc}
use ras_pi_arduino.Random.{at_most, distance, plus, random_below, random_between}

pub plus_in_range :
    (a b : ℤ) (k : ℕ)
    → at_most b a ≡ false
    → k < distance a b
    → (at_most a (plus a k) ≡ true) × (at_most b (plus a k) ≡ false)
plus_in_range (pos m) (pos n) k h below = (ground arith, ground arith)
plus_in_range (pos m) (negsuc n) k h below = absurd (omega arith)
plus_in_range (negsuc m) (pos n) k h below = (ground arith, ground arith)
plus_in_range (negsuc m) (negsuc n) k h below = (ground arith, ground arith)

pub plus-distance : (a z : ℤ) → at_most a z ≡ true → plus a (distance a z) ≡ z
plus-distance (pos m) (pos n) h = ground arith
plus-distance (pos m) (negsuc n) h = cc
plus-distance (negsuc m) (pos n) h = ground arith
plus-distance (negsuc m) (negsuc n) h = ground arith

distance-lt : (a b z : ℤ) → at_most a z ≡ true → at_most b z ≡ false → distance a z < distance a b
distance-lt (pos m) (pos n) (pos k) h l = ground arith
distance-lt (pos m) (pos n) (negsuc k) h l = cc
distance-lt (pos m) (negsuc n) (pos k) h l = cc
distance-lt (pos m) (negsuc n) (negsuc k) h l = cc
distance-lt (negsuc m) (pos n) (pos k) h l = ground arith
distance-lt (negsuc m) (pos n) (negsuc k) h l = ground arith
distance-lt (negsuc m) (negsuc n) (pos k) h l = cc
distance-lt (negsuc m) (negsuc n) (negsuc k) h l = ground arith

-- The number that is given for an answer of random().
random_between_lem :
    (answer : ℕ) (a b : ℤ)
    → at_most b a ≡ false
    → distance a b ≢ 0
    → distance a b < 2 ^ 31
    → random_between answer a b ≡ some (plus a (answer % distance a b))
unfolding random_between random_below
random_between_lem answer a b h nonzero small = ground (arith, h, nonzero, small)

pub distance-ne-zero : (a b : ℤ) → at_most b a ≡ false → distance a b ≢ 0
distance-ne-zero (pos m) (pos n) h = λ e. ground (arith, e)
distance-ne-zero (pos m) (negsuc n) h = λ e. cc
distance-ne-zero (negsuc m) (pos n) h = λ e. ground (arith, e)
distance-ne-zero (negsuc m) (negsuc n) h = λ e. ground (arith, e)

pub record InRange (a b z : ℤ) : Type 0 where
  pub low : at_most a z ≡ true
  pub high : at_most b z ≡ false

-- random(a, b), of numbers whose difference is a long, gives a number from a on and below b,
-- whatever random() answers, and gives each of these numbers for an answer that is below 2 ^ 31.
pub random_between-InRange :
    (answer : ℕ) (a b z : ℤ)
    → at_most b a ≡ false
    → distance a b < 2 ^ 31
    → InRange a b z
    → ((y : ℤ) × (random_between answer a b ≡ some y) × InRange a b y)
      × (distance a z < 2 ^ 31)
      × (random_between (distance a z) a b ≡ some z)
random_between-InRange answer a b z h small r =
    let nonzero = distance-ne-zero a b h in
    let below = distance-lt a b z r.low r.high in
    let rest : answer % distance a b < distance a b = grind (arith, nonzero) in
    let (low, high) = plus_in_range a b (answer % distance a b) h rest in
    let whole : distance a z % distance a b ≡ distance a z = grind (arith, below) in
    (
      (
        plus a (answer % distance a b),
        random_between_lem answer a b h nonzero small,
        record { low = low; high = high },
      ),
      omega (arith, below, small),
      random_between_lem (distance a z) a b h nonzero small
          ∙ ap (λ k. some (plus a k)) whole
          ∙ ap (λ t. some t) (plus-distance a z r.low),
    )

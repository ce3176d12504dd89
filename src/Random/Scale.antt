-- ===== src/Random/Scale.antt =====
-- map takes the numbers between in_min and in_max to those between out_min and out_max.
use ras_pi_arduino.Prelude.{
  ℕ, ◌*◌, ◌/◌, ◌^◌, ◌<◌, ◌≤◌, ◌≡◌, ◌≢◌, refl, ap, ◌∙◌, arith, true, false, some,
}
use ras_pi_arduino.Prelude.Signed.{ℤ, pos, negsuc, IsLong}
use native.Mathlib.Nat.{
  div-le_of_le-mul, mul-le-mul, mul-div_right, zero-div, le-div_iff_mul-le, div-mul-le_self,
}
use ras_pi_arduino.Random.Range.{plus-distance, distance-ne-zero}
use ras_pi_arduino.Random.{at_most, distance, plus, quotient, as_long, map}

as_long-small : (n : ℕ) → n < 2 ^ 31 → as_long (pos n) ≡ some (pos n)
unfolding as_long
as_long-small n h = ground arith

as_long-IsLong : (z : ℤ) → IsLong z → as_long z ≡ some z
unfolding as_long
as_long-IsLong (pos n) h = ground arith
as_long-IsLong (negsuc n) h = ground arith

-- A number between two longs is a long.
IsLong-between :
    (a b z : ℤ) → IsLong a → IsLong b → at_most a z ≡ true → at_most z b ≡ true → IsLong z
IsLong-between (pos l) b (negsuc n) ha hb low high = cc
IsLong-between (negsuc l) b (negsuc n) ha hb low high = ground arith
IsLong-between a (pos m) (pos n) ha hb low high = ground arith
IsLong-between a (negsuc m) (pos n) ha hb low high = cc

distance_self : (a : ℤ) → distance a a ≡ 0
distance_self (pos m) = omega arith
distance_self (negsuc m) = omega arith

at_most_self : (a : ℤ) → at_most a a ≡ true
at_most_self (pos m) = ground arith
at_most_self (negsuc m) = ground arith

plus-zero : (a : ℤ) → plus a 0 ≡ a
plus-zero (pos m) = ground arith
plus-zero (negsuc m) = ground arith

at_most-of_false : (a b : ℤ) → at_most b a ≡ false → at_most a b ≡ true
at_most-of_false (pos m) (pos n) h = ground arith
at_most-of_false (pos m) (negsuc n) h = cc
at_most-of_false (negsuc m) (pos n) h = refl
at_most-of_false (negsuc m) (negsuc n) h = ground arith

distance-le : (a x b : ℤ) → at_most a x ≡ true → at_most x b ≡ true → distance a x ≤ distance a b
distance-le (pos m) (pos n) (pos k) h l = ground arith
distance-le (pos m) (pos n) (negsuc k) h l = cc
distance-le (pos m) (negsuc n) b h l = cc
distance-le (negsuc m) (pos n) (pos k) h l = ground arith
distance-le (negsuc m) (pos n) (negsuc k) h l = cc
distance-le (negsuc m) (negsuc n) (pos k) h l = ground arith
distance-le (negsuc m) (negsuc n) (negsuc k) h l = ground arith

plus_between :
    (a b : ℤ) (k : ℕ)
    → at_most a b ≡ true
    → k ≤ distance a b
    → (at_most a (plus a k) ≡ true) × (at_most (plus a k) b ≡ true)
plus_between (pos m) (pos n) k h below = (ground arith, ground arith)
plus_between (pos m) (negsuc n) k h below = cc
plus_between (negsuc m) (pos n) k h below = (ground arith, ground arith)
plus_between (negsuc m) (negsuc n) k h below = (ground arith, ground arith)

quotient-pos : (m n : ℕ) → n ≢ 0 → quotient (pos m) (pos n) ≡ some (pos (m / n))
quotient-pos m n h = ground (arith, h)

-- What is computed: the share of the distance, rounded towards out_min.
map_lem :
    (x a b lo hi : ℤ)
    → at_most a x ≡ true
    → at_most x b ≡ true
    → at_most b a ≡ false
    → at_most lo hi ≡ true
    → IsLong lo
    → IsLong hi
    → distance a b < 2 ^ 31
    → distance a b * distance lo hi < 2 ^ 31
    → (distance a x * distance lo hi / distance a b ≤ distance lo hi)
      × (map x a b lo hi ≡ some (plus lo (distance a x * distance lo hi / distance a b)))
unfolding map
map_lem x a b lo hi from to wide order long_lo long_hi ins product =
    let nonzero = distance-ne-zero a b wide in
    let inside = distance-le a x b from to in
    let outs : distance lo hi < 2 ^ 31 = omega (
      arith,
      mul-le-mul {n₁ = 1} {m₁ = distance lo hi} {n₂ = distance a b} {m₂ = distance lo hi}
          (omega (arith, nonzero)) (omega arith),
    ) in
    let below : distance a x * distance lo hi ≤ distance a b * distance lo hi =
      mul-le-mul {m₁ = distance lo hi} inside (omega arith) in
    let share = div-le_of_le-mul (distance a b) below in
    let between = plus_between lo hi (distance a x * distance lo hi / distance a b) order share in
    let result = as_long-IsLong (plus lo (distance a x * distance lo hi / distance a b)) (
      IsLong-between lo hi (plus lo (distance a x * distance lo hi / distance a b)) long_lo long_hi
        between.0 between.1) in
    (
      share,
      rw
          (
            map,
            from,
            order,
            at_most-of_false a b wide,
            as_long-small (distance a x) (omega (arith, inside, ins)),
            as_long-small (distance lo hi) outs,
            as_long-small (distance a x * distance lo hi) (omega (arith, below, product)),
            as_long-small (distance a b) ins,
            quotient-pos (distance a x * distance lo hi) (distance a b) nonzero,
            as_long-small (distance a x * distance lo hi / distance a b)
                (omega (arith, share, outs)),
          )
          result,
    )

plus_mono : (a : ℤ) (k n : ℕ) → k ≤ n → at_most (plus a k) (plus a n) ≡ true
plus_mono (pos m) k n h = ground arith
plus_mono (negsuc m) k n h = ground arith

div_mono : (k n d : ℕ) → d ≢ 0 → k ≤ n → k / d ≤ n / d
div_mono k n d nonzero h =
    (le-div_iff_mul-le {k = d} (omega (arith, nonzero))).1 (omega (arith, h, div-mul-le_self k d))

at_most_trans : (a b c : ℤ) → at_most a b ≡ true → at_most b c ≡ true → at_most a c ≡ true
at_most_trans (pos m) (pos n) (pos k) h l = ground arith
at_most_trans (pos m) (pos n) (negsuc k) h l = cc
at_most_trans (pos m) (negsuc n) c h l = cc
at_most_trans (negsuc m) b (pos k) h l = refl
at_most_trans (negsuc m) (pos n) (negsuc k) h l = cc
at_most_trans (negsuc m) (negsuc n) (negsuc k) h l = ground arith

-- map takes numbers from in_min to in_max, which are to differ, to numbers from out_min to out_max,
-- keeps their order, and takes the ends to the ends, if these are in order and longs and the size of
-- the first range and its product with that of the second are longs.
pub map-Scales :
    (x y a b lo hi : ℤ)
    → at_most a x ≡ true
    → at_most x y ≡ true
    → at_most y b ≡ true
    → at_most b a ≡ false
    → at_most lo hi ≡ true
    → IsLong lo
    → IsLong hi
    → distance a b < 2 ^ 31
    → distance a b * distance lo hi < 2 ^ 31
    → (u v : ℤ) × (map x a b lo hi ≡ some u)
      × (map y a b lo hi ≡ some v)
      × (at_most lo u ≡ true)
      × (at_most u v ≡ true)
      × (at_most v hi ≡ true)
      × (map a a b lo hi ≡ some lo)
      × (map b a b lo hi ≡ some hi)
map-Scales x y a b lo hi from ordered to wide order long_lo long_hi ins product =
    let ends = at_most-of_false a b wide in
    let nonzero = distance-ne-zero a b wide in
    let share : ℤ → ℕ = λ z. distance a z * distance lo hi / distance a b in
    let first =
      map_lem x a b lo hi from (at_most_trans x y b ordered to) wide order long_lo long_hi ins
        product in
    let second =
      map_lem y a b lo hi (at_most_trans a x y from ordered) to wide order long_lo long_hi ins
        product in
    let empty : distance a a * distance lo hi ≡ 0 = rw (distance_self a) (omega arith) in
    let left : share a ≡ 0 = ap (λ n. n / distance a b) empty ∙ zero-div (distance a b) in
    let right : share b ≡ distance lo hi =
      mul-div_right (distance lo hi) (omega (arith, nonzero)) in
    (
      plus lo (share x),
      plus lo (share y),
      first.1,
      second.1,
      (plus_between lo hi (share x) order first.0).0,
      plus_mono lo (share x) (share y) (
          div_mono (distance a x * distance lo hi) (distance a y * distance lo hi) (distance a b)
            nonzero
            (mul-le-mul {m₁ = distance lo hi} (distance-le a x y from ordered) (omega arith))),
      (plus_between lo hi (share y) order second.0).1,
      (map_lem a a b lo hi (at_most_self a) ends wide order long_lo long_hi ins product).1
          ∙ ap (λ n. some (plus lo n)) left
          ∙ ap some (plus-zero lo),
      (map_lem b a b lo hi ends (at_most_self b) wide order long_lo long_hi ins product).1
          ∙ ap (λ n. some (plus lo n)) right
          ∙ ap some (plus-distance lo hi order),
    )

-- ===== src/Random.antt =====
-- cores/piduino/WMath.cpp: the ranges of random, map and makeWord. What random() of the C library
-- answers, a number below 2 ^ 31, is an argument.
pub mod Range
pub mod Scale
mod Tests
use ras_pi_arduino.Prelude.{
  ℕ, suc, ◌+◌, ◌-◌, ◌*◌, ◌/◌, ◌%◌, ◌^◌, Bool, true, false, Option, none, some,
}
use ras_pi_arduino.Prelude.{ltb, leb, ◌==◌, if◌then◌else◌, ◌>>=◌}
use ras_pi_arduino.Prelude.Signed.{ℤ, pos, negsuc, negate}

-- `makeWord(h, l)`.
unfoldable pub make_word : ℕ → ℕ → ℕ
make_word h l = h * 256 + l

-- `randomSeed`: the seed that srandom gets, if it is called.
unfoldable pub random_seed : ℕ → Option ℕ
random_seed seed = if seed == 0 then none else some seed

-- `random(howbig)`; the remainder has the sign of what random() answers.
unfoldable pub random_below : ℕ → ℤ → ℤ
random_below answer (pos n) = if n == 0 then pos 0 else pos (answer % n)
random_below answer (negsuc n) = pos (answer % suc n)

-- `a <= b`.
abbrev pub at_most : ℤ → ℤ → Bool
at_most (pos m) (pos n) = leb m n
at_most (pos m) (negsuc n) = false
at_most (negsuc m) (pos n) = true
at_most (negsuc m) (negsuc n) = leb n m

-- `b - a`, where that is not negative.
abbrev pub distance : ℤ → ℤ → ℕ
distance (pos m) (pos n) = n - m
distance (pos m) (negsuc n) = 0
distance (negsuc m) (pos n) = n + m + 1
distance (negsuc m) (negsuc n) = m - n

-- `k + a`.
abbrev pub plus : ℤ → ℕ → ℤ
plus (pos m) k = pos (m + k)
plus (negsuc m) k = if leb k m then negsuc (m - k) else pos (k - m - 1)

-- `random(howsmall, howbig)`; the difference must be a long.
unfoldable pub random_between : ℕ → ℤ → ℤ → Option ℤ
random_between answer howsmall howbig =
    if at_most howbig howsmall
    then some howsmall
    else if ltb (distance howsmall howbig) (2 ^ 31)
    then elim (random_below answer (pos (distance howsmall howbig))) [
      | pos r ↦ some (plus howsmall r)
      | negsuc r ↦ none
    ]
    else none

-- `a - b`, `a * b`, `a / b` towards 0 and `a + b`; a division by zero is a fault.
abbrev pub minus : ℤ → ℤ → ℤ
minus a b = if at_most b a then pos (distance b a) else negate (distance a b)

abbrev pub times : ℤ → ℤ → ℤ
times (pos m) (pos n) = pos (m * n)
times (pos m) (negsuc n) = negate (m * suc n)
times (negsuc m) (pos n) = negate (suc m * n)
times (negsuc m) (negsuc n) = pos (suc m * suc n)

abbrev pub quotient : ℤ → ℤ → Option ℤ
quotient (pos m) (pos n) = if n == 0 then none else some (pos (m / n))
quotient (pos m) (negsuc n) = some (negate (m / suc n))
quotient (negsuc m) (pos n) = if n == 0 then none else some (negate (suc m / n))
quotient (negsuc m) (negsuc n) = some (pos (suc m / suc n))

abbrev pub add : ℤ → ℤ → ℤ
add (pos m) b = plus b m
add (negsuc m) b = minus b (pos (suc m))

-- A result as a long; one that is out of its range is a fault.
unfoldable pub as_long : ℤ → Option ℤ
as_long (pos n) = if ltb n (2 ^ 31) then some (pos n) else none
as_long (negsuc n) = if ltb n (2 ^ 31) then some (negsuc n) else none

unfoldable pub map : ℤ → ℤ → ℤ → ℤ → ℤ → Option ℤ
map x in_min in_max out_min out_max = do
  offset ← as_long (minus x in_min)
  outs ← as_long (minus out_max out_min)
  product ← as_long (times offset outs)
  ins ← as_long (minus in_max in_min)
  share ← quotient product ins
  long_share ← as_long share
  as_long (add long_share out_min)

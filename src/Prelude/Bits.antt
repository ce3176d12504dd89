-- ===== src/Prelude/Bits.antt =====
-- The bits of a word, and the operators of C on words, one bit at a time.
use Prim.Native.Nat.{ℕ, zero, suc, ◌+◌, ◌-◌, ◌*◌, ◌/◌, ◌%◌, ◌^◌, ◌≤◌, ◌<◌, min, max}
use Prim.Native.Nat.{bit_and, bit_or, bit_xor, digits, bitwise, differ}
use Prim.Native.Nat.{bit_and-bitwise, bit_or-bitwise, bit_xor-bitwise}
use mathlib.Core.Path.{◌≡◌, refl, ap, ◌∙◌}
use native.Mathlib.Nat.{pow-suc, one-le-pow, pow-le-pow_right}
use native.Mathlib.Omega.{arith}

abbrev pub u8 : ℕ → ℕ
u8 n = n % 2 ^ 8

abbrev pub u16 : ℕ → ℕ
u16 n = n % 2 ^ 16

abbrev pub u32 : ℕ → ℕ
u32 n = n % 2 ^ 32

-- `~x` and `_BV(k)` of a 32-bit register.
abbrev pub complement : ℕ → ℕ
complement x = 2 ^ 32 - 1 - x

abbrev pub bit_value : ℕ → ℕ
bit_value k = u32 (2 ^ k)

-- Bit `i` of `x`, as 0 or 1.
abbrev pub test_bit : ℕ → ℕ → ℕ
test_bit x zero = x % 2
test_bit x (suc i) = test_bit (x / 2) i

-- The native operations are a recursion on binary digits, with the first argument as fuel. More
-- fuel than that changes nothing, so each has an equation for its lowest digit.
module _ (alone : ℕ → ℕ) (digit : ℕ → ℕ → ℕ) where
  one_more :
      (fuel x y : ℕ) → x ≤ fuel → digits alone digit (suc fuel) x y ≡ digits alone digit fuel x y
  one_more zero zero y enough = refl
  one_more zero (suc x) y enough = absurd (omega arith)
  one_more (suc fuel) zero y enough = refl
  one_more (suc fuel) (suc x) y enough = rw (one_more fuel (suc x / 2) (y / 2) (omega arith))

  spare_fuel :
      (spare fuel x y : ℕ)
      → x ≤ fuel
      → digits alone digit (spare + fuel) x y ≡ digits alone digit fuel x y
  spare_fuel zero fuel x y enough = ap (λ k. digits alone digit k x y) {y = fuel} (omega arith)
  spare_fuel (suc spare) fuel x y enough =
      ap (λ k. digits alone digit k x y) {y = suc (spare + fuel)} (omega arith)
      ∙ one_more (spare + fuel) x y (omega arith)
      ∙ spare_fuel spare fuel x y enough

  lowest_digit :
      (x y : ℕ)
      → bitwise alone digit (suc x) y
        ≡ bitwise alone digit (suc x / 2) (y / 2) * 2 + digit (suc x % 2) (y % 2)
  lowest_digit x y =
      let half : ℕ = suc x / 2 in
      let fuel : x - half + half ≡ x = omega arith in
      let same : digits alone digit x half (y / 2) ≡ digits alone digit half half (y / 2) =
        rw fuel at (spare_fuel (x - half) half half (y / 2) (omega arith)) in
      ap (λ t. t * 2 + digit (suc x % 2) (y % 2)) same

pub bit_or_step : (x y : ℕ) → bit_or x y ≡ bit_or (x / 2) (y / 2) * 2 + max (x % 2) (y % 2)
bit_or_step zero y = rw (bit_or-bitwise 0 y, bit_or-bitwise 0 (y / 2)) (omega arith)
bit_or_step (suc x) y =
    bit_or-bitwise (suc x) y
    ∙ lowest_digit (λ t. t) max x y
    ∙ rw (bit_or-bitwise (suc x / 2) (y / 2))

pub bit_and_step : (x y : ℕ) → bit_and x y ≡ bit_and (x / 2) (y / 2) * 2 + min (x % 2) (y % 2)
bit_and_step zero y = rw (bit_and-bitwise 0 y, bit_and-bitwise 0 (y / 2)) (omega arith)
bit_and_step (suc x) y =
    bit_and-bitwise (suc x) y
    ∙ lowest_digit (λ _. 0) min x y
    ∙ rw (bit_and-bitwise (suc x / 2) (y / 2))

pub test_bit-lt : (x i : ℕ) → test_bit x i < 2
test_bit-lt x zero = omega arith
test_bit-lt x (suc i) = test_bit-lt (x / 2) i

pub test_bit-zero : (i : ℕ) → test_bit 0 i ≡ 0
test_bit-zero zero = refl
test_bit-zero (suc i) = test_bit-zero i

pub test_bit-and : (a b i : ℕ) → test_bit (bit_and a b) i ≡ min (test_bit a i) (test_bit b i)
test_bit-and a b zero = omega (arith, bit_and_step a b)
test_bit-and a b (suc i) =
    ap (λ t. test_bit t i) (omega (arith, bit_and_step a b)) ∙ test_bit-and (a / 2) (b / 2) i

pub test_bit-or : (a b i : ℕ) → test_bit (bit_or a b) i ≡ max (test_bit a i) (test_bit b i)
test_bit-or a b zero = omega (arith, bit_or_step a b)
test_bit-or a b (suc i) =
    ap (λ t. test_bit t i) (omega (arith, bit_or_step a b)) ∙ test_bit-or (a / 2) (b / 2) i

-- A shift to the left moves every bit up.
pub test_bit-shift_high : (m k i : ℕ) → k ≤ i → test_bit (m * 2 ^ k) i ≡ test_bit m (i - k)
test_bit-shift_high m zero i h =
    let p : m * 2 ^ 0 ≡ m = omega arith in let q : i - 0 ≡ i = omega arith in rw (p, q)
test_bit-shift_high m (suc k) zero h = absurd (omega arith)
test_bit-shift_high m (suc k) (suc i) h =
    let p : m * 2 ^ suc k / 2 ≡ m * 2 ^ k = omega (arith, ap (λ (t : ℕ). m * t) (pow-suc 2 k)) in
    let q : suc i - suc k ≡ i - k = omega arith in
    rw (p, q) (test_bit-shift_high m k i (omega arith))

pub test_bit-shift_low : (m k i : ℕ) → i < k → test_bit (m * 2 ^ k) i ≡ 0
test_bit-shift_low m zero i h = absurd (omega arith)
test_bit-shift_low m (suc k) zero h = omega (arith, ap (λ (t : ℕ). m * t) (pow-suc 2 k))
test_bit-shift_low m (suc k) (suc i) h =
    ap (λ t. test_bit t i) half ∙ test_bit-shift_low m k i (omega arith)
  where
    half : m * 2 ^ suc k / 2 ≡ m * 2 ^ k
    half = omega (arith, ap (λ (t : ℕ). m * t) (pow-suc 2 k))

-- The complement on `n` bits flips each of them.
pub test_bit-flip : (n x i : ℕ) → x < 2 ^ n → i < n → test_bit (2 ^ n - 1 - x) i ≡ 1 - test_bit x i
test_bit-flip zero x i h k = absurd (omega arith)
test_bit-flip (suc n) x zero h k = omega (arith, pow-suc 2 n, one-le-pow n 2)
test_bit-flip (suc n) x (suc i) h k =
    ap (λ t. test_bit t i) (omega (arith, pow-suc 2 n, one-le-pow n 2))
    ∙ test_bit-flip n (x / 2) i (omega (arith, pow-suc 2 n)) (omega arith)

-- A value below `2 ^ n` has no bit from `n` on.
pub test_bit-small : (n x i : ℕ) → x < 2 ^ n → n ≤ i → test_bit x i ≡ 0
test_bit-small zero x i h k =
    ap (λ t. test_bit t i) (let e : x ≡ 0 = omega arith in e) ∙ test_bit-zero i
test_bit-small (suc n) x zero h k = absurd (omega arith)
test_bit-small (suc n) x (suc i) h k =
    test_bit-small n (x / 2) i (omega (arith, pow-suc 2 n)) (omega arith)

-- Words of `n` bits that agree on every bit are equal.
pub test_bit_ext :
    (n x y : ℕ) → x < 2 ^ n → y < 2 ^ n → ((i : ℕ) → i < n → test_bit x i ≡ test_bit y i) → x ≡ y
test_bit_ext zero x y h k same = omega arith
test_bit_ext (suc n) x y h k same = omega (
  arith,
  same 0 (omega arith),
  test_bit_ext n (x / 2) (y / 2) (omega (arith, pow-suc 2 n)) (omega (arith, pow-suc 2 n))
      (λ i p. same (suc i) (omega arith)),
)

pub bit_or-lt : (n a b : ℕ) → a < 2 ^ n → b < 2 ^ n → bit_or a b < 2 ^ n
bit_or-lt zero a b h k =
    let p : a ≡ 0 = omega arith in let q : b ≡ 0 = omega arith in rw (p, q) (omega arith)
bit_or-lt (suc n) a b h k = omega (
  arith,
  pow-suc 2 n,
  bit_or_step a b,
  bit_or-lt n (a / 2) (b / 2) (omega (arith, pow-suc 2 n)) (omega (arith, pow-suc 2 n)),
)

pub bit_and-le : (n a b : ℕ) → a < 2 ^ n → bit_and a b ≤ a
bit_and-le zero a b h = let p : a ≡ 0 = omega arith in rw p (omega (arith, zero_and b))
  where
    zero_and : (c : ℕ) → bit_and 0 c ≡ 0
    zero_and c = simp bit_and-bitwise refl
bit_and-le (suc n) a b h =
    omega (arith, bit_and_step a b, bit_and-le n (a / 2) (b / 2) (omega (arith, pow-suc 2 n)))

bit_and-zero_below : (n a : ℕ) → a ≤ n → bit_and a 0 ≡ 0
bit_and-zero_below n zero h = simp bit_and-bitwise
bit_and-zero_below zero (suc a) h = absurd (omega arith)
bit_and-zero_below (suc n) (suc a) h =
    omega (arith, bit_and_step (suc a) 0, bit_and-zero_below n (suc a / 2) (omega arith))

pub bit_and-zero : (a : ℕ) → bit_and a 0 ≡ 0
bit_and-zero a = bit_and-zero_below a a (omega arith)

-- A mask of one bit.
pub bit_and-two_pow : (k a : ℕ) → bit_and a (2 ^ k) ≡ test_bit a k * 2 ^ k
bit_and-two_pow zero a = omega (arith, bit_and_step a 1, bit_and-zero (a / 2))
bit_and-two_pow (suc k) a =
    let half : 2 ^ suc k / 2 ≡ 2 ^ k = omega (arith, pow-suc 2 k) in
    let low : 2 ^ suc k % 2 ≡ 0 = omega (arith, pow-suc 2 k) in
    let twice : test_bit (a / 2) k * 2 ^ suc k ≡ test_bit (a / 2) k * 2 ^ k * 2 =
      omega (arith, ap (λ (t : ℕ). test_bit (a / 2) k * t) (pow-suc 2 k)) in
    bit_and_step a (2 ^ suc k) ∙ rw (half, low) (omega (arith, bit_and-two_pow k (a / 2), twice))

pub bit_value-eq : (k : ℕ) → k < 32 → bit_value k ≡ 2 ^ k
bit_value-eq k h =
    omega (arith, pow-le-pow_right {n = 2} (omega arith) {i = k} {j = 31} (omega arith))

bit_xor_step : (x y : ℕ) → bit_xor x y ≡ bit_xor (x / 2) (y / 2) * 2 + differ (x % 2) (y % 2)
bit_xor_step zero y = rw (bit_xor-bitwise 0 y, bit_xor-bitwise 0 (y / 2)) (differ_zero y)
  where
    differ_zero : (y : ℕ) → y ≡ y / 2 * 2 + differ 0 (y % 2)
    differ_zero y = ground arith
bit_xor_step (suc x) y =
    bit_xor-bitwise (suc x) y
    ∙ lowest_digit (λ t. t) differ x y
    ∙ rw (bit_xor-bitwise (suc x / 2) (y / 2))

-- Bits that differ.
abbrev pub bit_unlike : ℕ → ℕ → ℕ
bit_unlike a b = max a b - min a b

differ-small : (a b : ℕ) → a < 2 → b < 2 → differ a b ≡ bit_unlike a b
differ-small zero zero h k = omega arith
differ-small zero (suc zero) h k = omega arith
differ-small (suc zero) zero h k = omega arith
differ-small (suc zero) (suc zero) h k = omega arith
differ-small (suc (suc a)) b h k = absurd (omega arith)
differ-small a (suc (suc b)) h k = absurd (omega arith)

pub test_bit-xor : (a b i : ℕ) → test_bit (bit_xor a b) i ≡ bit_unlike (test_bit a i) (test_bit b i)
test_bit-xor a b zero =
    ground (arith, bit_xor_step a b, differ-small (a % 2) (b % 2) (omega arith) (omega arith))
test_bit-xor a b (suc i) =
    ap (λ t. test_bit t i)
      (ground (arith, bit_xor_step a b, differ-small (a % 2) (b % 2) (omega arith) (omega arith)))
    ∙ test_bit-xor (a / 2) (b / 2) i

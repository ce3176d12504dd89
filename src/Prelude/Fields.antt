-- ===== src/Prelude/Fields.antt =====
-- `&` with a low mask and `|` of disjoint fields, as arithmetic, at every width.
use Prim.Native.Nat.{ℕ, zero, suc, ◌+◌, ◌-◌, ◌*◌, ◌/◌, ◌%◌, ◌^◌, ◌≤◌, ◌<◌, bit_and, bit_or}
use Prim.Native.Nat.{bit_or-bitwise}
use mathlib.Core.Path.{◌≡◌, ap, ◌∙◌, sym}
use mathlib.Core.Bool.{Bool, true, false}
use ras_pi_arduino.Prelude.Tests.{if◌then◌else◌}
use native.Mathlib.Nat.{pow-suc, one-le-pow}
use native.Mathlib.Omega.{arith}
use ras_pi_arduino.Prelude.Bits.{bit_and_step, bit_or_step, bit_and-zero}
use ras_pi_arduino.Prelude.Bits.{test_bit, test_bit-and, test_bit-flip, test_bit-zero, test_bit-lt}

bit_and-fields : (k q r : ℕ) → r < 2 ^ k → bit_and (q * 2 ^ k + r) (2 ^ k - 1) ≡ r
bit_and-fields zero q r h = bit_and-zero (q * 2 ^ 0 + r) ∙ omega arith
bit_and-fields (suc k) q r h =
    let twice : q * 2 ^ suc k ≡ q * 2 ^ k * 2 =
      omega (arith, ap (λ (t : ℕ). q * t) (pow-suc 2 k)) in
    let half : (q * 2 ^ suc k + r) / 2 ≡ q * 2 ^ k + r / 2 = omega (arith, twice) in
    let low : (q * 2 ^ suc k + r) % 2 ≡ r % 2 = omega (arith, twice) in
    let mask : (2 ^ suc k - 1) / 2 ≡ 2 ^ k - 1 = omega (arith, pow-suc 2 k, one-le-pow k 2) in
    let odd : (2 ^ suc k - 1) % 2 ≡ 1 = omega (arith, pow-suc 2 k, one-le-pow k 2) in
    bit_and_step (q * 2 ^ suc k + r) (2 ^ suc k - 1)
    ∙ rw (half, low, mask, odd)
        (omega (arith, bit_and-fields k q (r / 2) (omega (arith, pow-suc 2 k))))

-- A mask of `k` low bits is the remainder by `2 ^ k`.
pub bit_and_mask : (k a : ℕ) → bit_and a (2 ^ k - 1) ≡ a % 2 ^ k
bit_and_mask k a = ground (arith, one-le-pow k 2, bit_and-fields k (a / 2 ^ k) (a % 2 ^ k))

-- The remainder by a power of two, from its highest bit on.
mod-halves : (n x : ℕ) → x % 2 ^ suc n ≡ x / 2 % 2 ^ n * 2 + x % 2
mod-halves n x =
    sym (bit_and_mask (suc n) x)
    ∙ bit_and_step x (2 ^ suc n - 1)
    ∙ (let half : (2 ^ suc n - 1) / 2 ≡ 2 ^ n - 1 = ground (arith, pow-suc 2 n, one-le-pow n 2) in
        let odd : (2 ^ suc n - 1) % 2 ≡ 1 = ground (arith, pow-suc 2 n, one-le-pow n 2) in
        rw (half, odd, bit_and_mask n (x / 2)) (omega arith))

pub mod-top : (n x : ℕ) → x % 2 ^ suc n ≡ test_bit x n * 2 ^ n + x % 2 ^ n
mod-top zero x = omega arith
mod-top (suc n) x =
    let twice : test_bit (x / 2) n * 2 ^ suc n ≡ test_bit (x / 2) n * 2 ^ n * 2 =
      omega (arith, ap (λ (t : ℕ). test_bit (x / 2) n * t) (pow-suc 2 n)) in
    omega (arith, mod-halves (suc n) x, mod-halves n x, mod-top n (x / 2), twice)

-- The remainder by `2 ^ n` keeps the bits below `n`.
pub test_bit-mod : (n x i : ℕ) → i < n → test_bit (x % 2 ^ n) i ≡ test_bit x i
test_bit-mod n x i h =
    ap (λ t. test_bit t i) (sym (bit_and_mask n x))
    ∙ test_bit-and x (2 ^ n - 1) i
    ∙ ground (
      arith,
      test_bit-flip n 0 i (one-le-pow n 2 (omega arith)) h,
      test_bit-zero i,
      test_bit-lt x i,
    )

bit_or-zero_below : (n a : ℕ) → a ≤ n → bit_or a 0 ≡ a
bit_or-zero_below n zero h = simp bit_or-bitwise
bit_or-zero_below zero (suc a) h = absurd (omega arith)
bit_or-zero_below (suc n) (suc a) h =
    omega (arith, bit_or_step (suc a) 0, bit_or-zero_below n (suc a / 2) (omega arith))

pub bit_or-zero : (a : ℕ) → bit_or a 0 ≡ a
bit_or-zero a = bit_or-zero_below a a (omega arith)

-- `(q << k) | r` is a sum when `r` fits in `k` bits.
pub bit_or-fields : (k q r : ℕ) → r < 2 ^ k → bit_or (q * 2 ^ k) r ≡ q * 2 ^ k + r
bit_or-fields zero q r h =
    let e : r ≡ 0 = omega arith in rw e (bit_or-zero (q * 2 ^ 0) ∙ omega arith)
bit_or-fields (suc k) q r h =
    let twice : q * 2 ^ suc k ≡ q * 2 ^ k * 2 =
      omega (arith, ap (λ (t : ℕ). q * t) (pow-suc 2 k)) in
    let half : q * 2 ^ suc k / 2 ≡ q * 2 ^ k = omega (arith, twice) in
    let low : q * 2 ^ suc k % 2 ≡ 0 = omega (arith, twice) in
    bit_or_step (q * 2 ^ suc k) r
    ∙ rw (half, low) (omega (arith, twice, bit_or-fields k q (r / 2) (omega (arith, pow-suc 2 k))))

-- A test at every number below `n`.
unfoldable pub every : ℕ → (ℕ → Bool) → Bool
every zero test = true
every (suc n) test = if test n then every n test else false

pub every_lem : (n : ℕ) (test : ℕ → Bool) (k : ℕ) → k < n → every n test ≡ true → test k ≡ true
unfolding every
every_lem zero test k h passed = absurd (omega arith)
every_lem (suc n) test k h passed = ground (arith, every_lem n test k, ap test {x = k} {y = n})

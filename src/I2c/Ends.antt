-- ===== src/I2c/Ends.antt =====
-- That a read of the serial controllers ends.
use ras_pi_arduino.Prelude.{ℕ, zero, suc, ◌+◌, ◌-◌, ◌^◌, ◌≤◌, ◌<◌, ◌≡◌, refl, arith}
use ras_pi_arduino.Prelude.{Bool, true, false, not, some, List, [], ◌∷◌, length, if◌then◌else◌}
use ras_pi_arduino.Prelude.{◌==◌, inl, inr, Bool-cases, bit_or}
use ras_pi_arduino.Machine.{Machine, store}
use ras_pi_arduino.I2c
use ras_pi_arduino.I2c.Send.{IsDoneAfter}

-- How often the inner loop finds a byte in the FIFO, until the transfer is done.
abbrev pub taken : Bool → List ℕ → ℕ
taken draining [] = 0
taken false (s ∷ ss) = if I2c.has s I2c.done then 0 else taken true ss
taken true (s ∷ ss) = if I2c.has s I2c.rxd then suc (taken true ss) else taken false ss

-- The polls that are needed behind the bytes, and the first `k`.
abbrev spare : ℕ → Bool → ℕ
spare zero false = 1
spare zero true = 2
spare (suc k) draining = 2

spare_le : (k : ℕ) (draining : Bool) → spare k draining ≤ 2
spare_le zero false = omega arith
spare_le zero true = omega arith
spare_le (suc k) draining = omega arith

receive-ends :
    (k : ℕ) (draining : Bool) (ss : List ℕ)
    → IsDoneAfter k ss
    → k + taken draining ss + spare k draining ≤ length ss
    → (rest : List ℕ) × (I2c.receive draining ss ≡ some (taken draining ss, rest))
      × (length ss ≤ length rest + k + taken draining ss + spare k draining)
unfolding I2c.receive
receive-ends zero false [] d h = absurd (omega (arith, h))
receive-ends zero true [] d h = absurd (omega (arith, h))
receive-ends (suc k) draining [] d h = absurd (omega (arith, h))
receive-ends zero false (s ∷ ss) d h = (ss, ground (arith, d.0), ground arith)
receive-ends zero true (s ∷ ss) d h = elim (Bool-cases (I2c.has s I2c.rxd)) [
  | inl e ↦
      let count : taken true (s ∷ ss) ≡ suc (taken true ss) = rw e refl in
      let (rest, same, enough) = receive-ends 0 true ss d.1 (omega (arith, h, count)) in
      (rest, ground (arith, e, same), omega (arith, count, enough))
  | inr e ↦
      let count : taken true (s ∷ ss) ≡ taken false ss = rw e refl in
      let (rest, same, enough) = receive-ends 0 false ss d.1 (omega (arith, h, count)) in
      (rest, ground (arith, e, same), omega (arith, count, enough))
]
receive-ends (suc k) false (s ∷ ss) d h = elim (Bool-cases (I2c.has s I2c.done)) [
  | inl e ↦ (ss, ground (arith, e), omega arith)
  | inr e ↦
      let count : taken false (s ∷ ss) ≡ taken true ss = rw e refl in
      let (rest, same, enough) =
        receive-ends k true ss d (omega (arith, h, count, spare_le k true)) in
      (rest, ground (arith, e, same), omega (arith, count, enough, spare_le k true))
]
receive-ends (suc k) true (s ∷ ss) d h = elim (Bool-cases (I2c.has s I2c.rxd)) [
  | inl e ↦
      let count : taken true (s ∷ ss) ≡ suc (taken true ss) = rw e refl in
      let (rest, same, enough) =
        receive-ends k true ss d (omega (arith, h, count, spare_le k true)) in
      (rest, ground (arith, e, same), omega (arith, count, enough, spare_le k true))
  | inr e ↦
      let count : taken true (s ∷ ss) ≡ taken false ss = rw e refl in
      let (rest, same, enough) =
        receive-ends k false ss d (omega (arith, h, count, spare_le k false)) in
      (rest, ground (arith, e, same), omega (arith, count, enough, spare_le k false))
]

drain-ends :
    (remaining : ℕ) (ss : List ℕ)
    → remaining ≤ length ss
    → (n : ℕ) × (rest : List ℕ) × (I2c.drain remaining ss ≡ some (n, rest))
      × (n ≤ remaining)
      × (length ss ≤ length rest + remaining)
unfolding I2c.drain
drain-ends zero ss h = (0, ss, refl, omega arith, omega arith)
drain-ends (suc remaining) [] h = absurd (omega (arith, h))
drain-ends (suc remaining) (s ∷ ss) h = elim (Bool-cases (I2c.has s I2c.rxd)) [
  | inl e ↦
      let (n, rest, same, few, enough) = drain-ends remaining ss (omega (arith, h)) in
      (suc n, rest, ground (arith, e, same), omega (arith, few), omega (arith, enough))
  | inr e ↦ (0, ss, ground (arith, e), omega arith, omega arith)
]

reason-ends : (b : Bool) (ss : List ℕ) → 2 ≤ length ss → (r : ℕ) × (I2c.reason b ss ≡ some r)
unfolding I2c.reason
reason-ends b [] h = absurd (omega (arith, h))
reason-ends b (s ∷ []) h = absurd (omega (arith, h))
reason-ends b (s ∷ s' ∷ ss) h = (
  if I2c.has s I2c.err then 1 else if I2c.has s' I2c.clkt then 2 else if b then 3 else 0,
  ground arith,
)

fill_buffer-ends :
    (fifo : ℕ → ℕ) (i n : ℕ) (buf : List ℕ)
    → n ≤ length buf
    → (buf' : List ℕ) × (I2c.fill_buffer fifo i n buf ≡ some buf')
unfolding I2c.fill_buffer
fill_buffer-ends fifo i zero buf h = (buf, refl)
fill_buffer-ends fifo i (suc n) [] h = absurd (omega (arith, h))
fill_buffer-ends fifo i (suc n) (x ∷ buf) h =
    let (r, same) = fill_buffer-ends fifo (suc i) n buf (omega (arith, h)) in
    (fifo i ∷ r, rw (I2c.fill_buffer, same) refl)

-- A read of at most `len` bytes ends, once the controller reports the transfer done, at the latest
-- with its `k`-th status word, and goes on to report it.
pub read_from-returns :
    (c : I2c.Controller) (address : ℕ) (buf : List ℕ) (len k : ℕ) (fifo : ℕ → ℕ) (statuses : List ℕ)
    (m : Machine)
    → len < 2 ^ 32
    → len ≤ length buf
    → IsDoneAfter k statuses
    → taken false statuses ≤ len
    → k + len + 4 ≤ length statuses
    → (r : ℕ) × (buf' : List ℕ) × (m' : Machine) × (I2c.read_from c address buf len fifo statuses m
        ≡ some (r, buf', m'))
unfolding I2c.read_from
read_from-returns c address buf len k fifo statuses m small fits d few enough =
    let first = taken false statuses in
    let (ss, polled, left_over) =
      receive-ends k false statuses d (omega (arith, few, enough, spare_le k false)) in
    let rest_of : I2c.left len first ≡ len - first = ground (arith, few, small) in
    let (second, end, drained, few_more, left_behind) =
      drain-ends (I2c.left len first) ss
        (omega (arith, rest_of, few, enough, left_over, spare_le k false)) in
    let more = not (I2c.left len (first + second) == 0) in
    let (r, told) =
      reason-ends more end
        (omega (arith, rest_of, few, enough, left_over, left_behind, spare_le k false)) in
    let (buf', filled) =
      fill_buffer-ends fifo 0 (first + second) buf (omega (arith, rest_of, few, few_more, fits)) in
    (
      r,
      buf',
      I2c.finish c (
          store c.control (bit_or (bit_or I2c.i2cen I2c.st) I2c.read)
            (I2c.prepare c address len m)),
      rw (I2c.read_from, polled, drained, told, filled) refl,
    )

-- ===== src/Interrupts/Scan.antt =====
-- The pins that a pass of the interrupt task reports.
use ras_pi_arduino.Prelude.{ℕ, zero, suc, ◌+◌, ◌*◌, ◌^◌, ◌≤◌, ◌<◌, min, ◌≡◌}
use ras_pi_arduino.Prelude.{refl, sym, ap, ◌∙◌, arith, Bool, false, not, ◌&&◌}
use ras_pi_arduino.Prelude.{some, List, [], ◌∷◌, ltb, ◌==◌, if◌then◌else◌, bit_and, bit_or, bit_xor}
use ras_pi_arduino.Prelude.{Bool-cases, inl, inr, ==→eq}
use ras_pi_arduino.Prelude.{member}
use ras_pi_arduino.Prelude.Bits.{u32, complement, bit_value, test_bit}
use ras_pi_arduino.Prelude.Bits.{test_bit-lt, test_bit-and, test_bit-flip, test_bit-zero}
use ras_pi_arduino.Prelude.Bits.{test_bit_ext, test_bit-shift_low, bit_and-le}
use ras_pi_arduino.Prelude.Bits.{test_bit-or, test_bit-xor, bit_unlike}
use ras_pi_arduino.Prelude.Fields.{test_bit-mod}
use ras_pi_arduino.Interrupts
use ras_pi_arduino.Gpio.Levels.{test_bit-bit_value, read_bit}

-- The pins from `i` on, `n` of them, that a test picks, in order.
unfoldable pub pick : (ℕ → Bool) → ℕ → ℕ → List ℕ
pick test zero i = []
pick test (suc n) i = if test i then i ∷ pick test n (i + 1) else pick test n (i + 1)

pub pick_ext :
    (f g : ℕ → Bool) (n i : ℕ) → ((k : ℕ) → i ≤ k → k < i + n → f k ≡ g k) → pick f n i ≡ pick g n i
unfolding pick
pick_ext f g zero i same = refl
pick_ext f g (suc n) i same = ground (
  arith,
  same i (omega arith) (omega arith),
  pick_ext f g n (i + 1) (λ k a b. same k (omega arith) (omega arith)),
)

pub member-pick :
    (test : ℕ → Bool) (n i p : ℕ)
    → member p (pick test n i) ≡ (if ltb p i then false else ltb p (i + n) && test p)
unfolding member pick
member-pick test zero i p = ground arith
member-pick test (suc n) i p = ground (arith, member-pick test n (i + 1) p, ap test {x = i} {y = p})

-- Clearing bit `i` leaves the others.
clear : ℕ → ℕ → ℕ
clear changed i = bit_and changed (complement (bit_value i))

test_bit-clear :
    (changed i k : ℕ)
    → i < 32
    → k < 32
    → test_bit (clear changed i) k ≡ (if k == i then 0 else test_bit changed k)
unfolding clear
test_bit-clear changed i k h hk = ground (
  arith,
  test_bit-and changed (complement (bit_value i)) k,
  test_bit-flip 32 (bit_value i) k (omega arith) hk,
  test_bit-bit_value i k h,
  test_bit-lt changed k,
)

-- The test of one bit with a mask.
masked : (x k : ℕ) → k < 32 → (bit_and x (bit_value k) == 0) ≡ (test_bit x k == 0)
masked x k h = ground (arith, read_bit x k h, test_bit-lt x k)

no_bits :
    (i changed : ℕ)
    → 32 ≤ i
    → changed < 2 ^ 32
    → ((k : ℕ) → k < i → test_bit changed k ≡ 0)
    → changed ≡ 0
no_bits i changed h small below =
    test_bit_ext 32 changed 0 small (omega arith)
      (λ k p. below k (omega arith) ∙ sym (test_bit-zero k))

pick-none : (test : ℕ → Bool) (n i : ℕ) → ((k : ℕ) → test k ≡ false) → pick test n i ≡ []
unfolding pick
pick-none test zero i never = refl
pick-none test (suc n) i never = ground (arith, never i, pick-none test n (i + 1) never)

module _ (handlers : ℕ → Interrupts.Handler) (state : ℕ) where
  abbrev pub started : ℕ → Bool
  started i = Interrupts.starts (handlers i) (not (bit_and state (Interrupts.wide_bit i) == 0))

  scan-pick :
      (fuel n i changed : ℕ)
      → i + n ≡ 32
      → n + n + test_bit changed i < fuel
      → changed < 2 ^ 32
      → ((k : ℕ) → k < i → test_bit changed k ≡ 0)
      → Interrupts.scan fuel handlers state i changed
        ≡ some (pick (λ k. test_bit changed k == 1 && started k) n i)
  unfolding Interrupts.scan clear pick
  scan-pick zero n i changed e enough small below = absurd (omega arith)
  scan-pick (suc fuel) zero i changed e enough small below =
      ground (arith, no_bits i changed (omega arith) small below)
  scan-pick (suc fuel) (suc n) i changed e enough small below =
      let test = masked changed i (omega arith) in
      let low = test_bit-lt changed i in
      elim (Bool-cases (changed == 0)) [
        | inl z ↦ ground (
          arith,
          z,
          pick-none (λ k. test_bit changed k == 1 && started k) (suc n) i
              (λ k. ground (arith, ap (λ t. test_bit t k) (==→eq changed 0 z), test_bit-zero k)),
        )
        | inr z ↦ elim (Bool-cases (test_bit changed i == 0)) [
          | inl o ↦ ground (
            arith,
            z,
            o,
            test,
            scan-pick fuel n (i + 1) changed (omega arith)
                (ground (arith, test_bit-lt changed (i + 1), o)) small
                (λ k p. ground (arith, below k, ap (test_bit changed) {x = k} {y = i}, o)),
          )
          | inr o ↦ ground (
            arith,
            z,
            o,
            test,
            low,
            test_bit-clear changed i i,
            scan-pick fuel (suc n) i (clear changed i) e
                (ground (arith, test_bit-clear changed i i))
                (unfold clear in
                  omega (arith, bit_and-le 32 changed (complement (bit_value i)) small))
                (λ k p. ground (arith, below k, test_bit-clear changed i k)),
            pick_ext (λ k. test_bit (clear changed i) k == 1 && started k)
                (λ k. test_bit changed k == 1 && started k) n (i + 1)
                (λ k a b. ground (arith, test_bit-clear changed i k)),
          )
        ]
      ]

-- The level that a pass keeps of a pin.
abbrev pub kept : ℕ → ℕ → ℕ → ℕ
kept lev0 registered p = min (test_bit lev0 p) (test_bit registered p)

pub test_bit-levels :
    (lev0 lev1 registered p : ℕ)
    → p < 32
    → test_bit (Interrupts.levels lev0 lev1 registered) p ≡ kept lev0 registered p
unfolding Interrupts.levels
test_bit-levels lev0 lev1 registered p h = ground (
  arith,
  test_bit-and lev0 registered p,
  test_bit-and (bit_or lev0 (lev1 * 2 ^ 32)) registered p,
  test_bit-or lev0 (lev1 * 2 ^ 32) p,
  test_bit-shift_low lev1 32 p h,
)

pub changed_bit :
    (a b p : ℕ) → p < 32 → test_bit (u32 (bit_xor a b)) p ≡ bit_unlike (test_bit a p) (test_bit b p)
changed_bit a b p h = test_bit-mod 32 (bit_xor a b) p h ∙ test_bit-xor a b p

-- Does the level of pin `p` differ from the last one, and does its handler ask for that edge?
abbrev pub is_picked : ℕ → ℕ → Interrupts.Watch → ℕ → Bool
is_picked lev0 lev1 w p =
    let state = Interrupts.levels lev0 lev1 w.registered in
    not (test_bit state p == test_bit w.last p) && started w.handlers state p

-- A pass starts the handlers of the pins that the code picks.
pub pass-pick :
    (lev0 lev1 : ℕ) (w : Interrupts.Watch)
    → (Interrupts.pass lev0 lev1 w).0
      ≡ some (if w.registered == 0 then [] else pick (is_picked lev0 lev1 w) 32 0)
unfolding Interrupts.pass
pass-pick lev0 lev1 w =
    let state = Interrupts.levels lev0 lev1 w.registered in
    let changed = u32 (bit_xor state w.last) in
    let same =
      pick_ext (λ k. test_bit changed k == 1 && started w.handlers state k) (is_picked lev0 lev1 w)
        32 0
        (λ k a b.
          ground (arith, changed_bit state w.last k, test_bit-lt state k, test_bit-lt w.last k)) in
    let none_changed : changed ≡ 0
        → pick (λ k. test_bit changed k == 1 && started w.handlers state k) 32 0 ≡ [] =
      λ z.
        pick-none (λ k. test_bit changed k == 1 && started w.handlers state k) 32 0
          (λ k. ground (arith, ap (λ t. test_bit t k) z, test_bit-zero k)) in
    ground (
      arith,
      same,
      none_changed,
      scan-pick w.handlers state 66 32 0 changed refl (omega (arith, test_bit-lt changed 0))
          (omega arith) (λ k p. absurd (omega arith)),
    )

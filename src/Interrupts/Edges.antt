-- ===== src/Interrupts/Edges.antt =====
-- The edges that a pass of the interrupt task reports, pin by pin.
use ras_pi_arduino.Prelude.{ℕ, zero, suc, ◌+◌, ◌-◌, ◌*◌, ◌^◌, ◌≤◌, ◌<◌, ◌≡◌, ap, ◌∙◌, arith}
use ras_pi_arduino.Prelude.{Bool, true, false, not, ◌&&◌, ◌||◌, some, [], bit_and, bit_or}
use ras_pi_arduino.Prelude.{ltb, ◌==◌, if◌then◌else◌, Bool-cases, inl, inr, ==→eq}
use ras_pi_arduino.Prelude.Bits.{
  test_bit, test_bit-lt, test_bit-and, test_bit-or, test_bit-flip, test_bit-zero, test_bit-small,
  test_bit-shift_high, test_bit_ext, bit_and-le, bit_or-lt,
}
use ras_pi_arduino.Interrupts.{Handler, Watch, has_fn, levels, starts, wide_bit, pass}
use ras_pi_arduino.Interrupts.Scan.{
  pick, pick_ext, started, kept, test_bit-levels, is_picked, pass-pick,
}
use ras_pi_arduino.Interrupts.Calls.{asks, started_low, some_bit}

-- Does a test pick one of the pins from `i` on, `n` of them?
unfoldable pub any_from : (ℕ → Bool) → ℕ → ℕ → Bool
any_from test zero i = false
any_from test (suc n) i = test i || any_from test n (i + 1)

any_from-false :
    (test : ℕ → Bool) (n i k : ℕ) → any_from test n i ≡ false → i ≤ k → k < i + n → test k ≡ false
unfolding any_from
any_from-false test zero i k h le lt = absurd (omega arith)
any_from-false test (suc n) i k h le lt =
    ground (arith, h, ap test {x = i} {y = k}, any_from-false test n (i + 1) k)

any_from-true :
    (test : ℕ → Bool) (n i : ℕ)
    → any_from test n i ≡ true
    → (k : ℕ) × (i ≤ k) × (k < i + n) × (test k ≡ true)
unfolding any_from
any_from-true test zero i h = cc
any_from-true test (suc n) i h = elim (Bool-cases (test i)) [
  | inl e ↦ (i, omega arith, omega arith, e)
  | inr e ↦
      let (k, le, lt, here) = any_from-true test n (i + 1) (ground (arith, h, e)) in
      (k, omega arith, omega arith, here)
]

module _ (lev0 lev1 registered : ℕ) where
  -- Is pin `p`, of 64, registered and high?
  abbrev pub is_high : ℕ → Bool
  is_high p =
      (if ltb p 32 then test_bit lev0 p == 1 else test_bit lev1 (p - 32) == 1)
      && test_bit registered p == 1

  -- The level that the handler of a pin below 32 sees: for pin 31, 1 if any registered pin from 31
  -- on is high.
  abbrev pub seen : ℕ → ℕ
  seen p = if p == 31 then if any_from is_high 33 31 then 1 else 0 else kept lev0 registered p

  module _ (lev0_lt : lev0 < 2 ^ 32) (lev1_lt : lev1 < 2 ^ 32)
      (registered_lt : registered < 2 ^ 64) where
    levels-is_high : (p : ℕ) → p < 64 → (test_bit (levels lev0 lev1 registered) p == 1) ≡ is_high p
    levels-is_high p h = elim (Bool-cases (ltb p 32)) [
      | inl low ↦ ground (
        arith,
        low,
        test_bit-levels lev0 lev1 registered p,
        test_bit-lt lev0 p,
        test_bit-lt registered p,
      )
      | inr high ↦
          unfold levels in
          ground (
            arith,
            high,
            test_bit-and lev0 registered p,
            test_bit-and (bit_or lev0 (lev1 * 2 ^ 32)) registered p,
            test_bit-or lev0 (lev1 * 2 ^ 32) p,
            test_bit-small 32 lev0 p,
            test_bit-small 32 registered p,
            test_bit-shift_high lev1 32 p,
            test_bit-lt lev1 (p - 32),
            test_bit-lt registered p,
          )
    ]

    levels-lt : levels lev0 lev1 registered < 2 ^ 64
    unfolding levels
    levels-lt = ground (
      arith,
      bit_and-le 64 lev0 registered (omega arith),
      bit_or-lt 64 lev0 (lev1 * 2 ^ 32) (omega arith) (omega arith),
      bit_and-le 64 (bit_or lev0 (lev1 * 2 ^ 32)) registered,
    )

    -- The bits of the mask of pin 31.
    mask_bit : (k : ℕ) → k < 64 → test_bit (2 ^ 64 - 2 ^ 31) k ≡ (if ltb k 31 then 0 else 1)
    mask_bit k h = ground (
      arith,
      test_bit-flip 64 (2 ^ 31 - 1) k (omega arith) h,
      test_bit-flip 31 0 k (omega arith),
      test_bit-small 31 (2 ^ 31 - 1) k (omega arith),
      test_bit-zero k,
    )

    abbrev state : ℕ
    state = levels lev0 lev1 registered

    masked_bit :
        (k : ℕ)
        → k < 64
        → test_bit (bit_and state (2 ^ 64 - 2 ^ 31)) k
          ≡ (if ltb k 31 then 0 else if is_high k then 1 else 0)
    masked_bit k h = ground (
      arith,
      test_bit-and state (2 ^ 64 - 2 ^ 31) k,
      mask_bit k h,
      test_bit-lt state k,
      levels-is_high k h,
    )

    mask-any : not (bit_and state (2 ^ 64 - 2 ^ 31) == 0) ≡ any_from is_high 33 31
    mask-any = elim (Bool-cases (any_from is_high 33 31)) [
      | inl e ↦
          let (k, le, lt, high) = any_from-true is_high 33 31 e in
          let nonzero =
            some_bit (bit_and state (2 ^ 64 - 2 ^ 31)) k
              (masked_bit k (omega arith) ∙ ground (arith, high)) in
          ground (arith, e, nonzero)
      | inr e ↦
          let all_zero : bit_and state (2 ^ 64 - 2 ^ 31) ≡ 0 =
            test_bit_ext 64 (bit_and state (2 ^ 64 - 2 ^ 31)) 0
              (omega (arith, levels-lt, bit_and-le 64 state (2 ^ 64 - 2 ^ 31) levels-lt))
              (omega arith)
              (λ k h.
                ground
                  (arith, masked_bit k h, any_from-false is_high 33 31 k e, test_bit-zero k)) in
          ground (arith, e, all_zero)
    ]

    started-asks :
        (handlers : ℕ → Handler) (p : ℕ)
        → p < 32
        → started handlers state p ≡ (asks (handlers p).mode (seen p) && has_fn (handlers p).fn)
    started-asks handlers p h = elim (Bool-cases (p == 31)) [
      | inl e ↦
          let last_pin = ==→eq p 31 e in
          rw last_pin (unfold starts wide_bit in ground (arith, mask-any))
      | inr e ↦ ground (
        arith,
        e,
        started_low handlers state p (ground (arith, e)),
        test_bit-levels lev0 lev1 registered p h,
      )
    ]

-- Is the kept level of pin `p` not the last one, and has the pin a handler that asks for the edge
-- towards the level that is seen?
abbrev pub is_edge : ℕ → ℕ → Watch → ℕ → Bool
is_edge lev0 lev1 w p =
    not (kept lev0 w.registered p == test_bit w.last p)
    && asks (w.handlers p).mode (seen lev0 lev1 w.registered p)
    && has_fn (w.handlers p).fn

-- A pass starts, in order, the handlers of exactly those pins below 32 whose level, 0 if they are not
-- registered, is not the last one and whose handler asks for the edge towards it; pin 31 counts as
-- high for its handler if any registered pin from 31 on is high. It starts none if no pin is
-- registered, and a pin from 32 on never starts one: the loops of the pass end. The two level
-- registers are words of 32 bits, and the registered pins one of 64.
pub pass-edges :
    (lev0 lev1 : ℕ) (w : Watch)
    → lev0 < 2 ^ 32
    → lev1 < 2 ^ 32
    → w.registered < 2 ^ 64
    → (pass lev0 lev1 w).0
      ≡ some (if w.registered == 0 then [] else pick (is_edge lev0 lev1 w) 32 0)
pass-edges lev0 lev1 w lev0_lt lev1_lt registered_lt =
    pass-pick lev0 lev1 w
    ∙ ap (λ pins. some (if w.registered == 0 then [] else pins))
        (pick_ext (is_picked lev0 lev1 w) (is_edge lev0 lev1 w) 32 0 (λ k a b. ground (
          arith,
          test_bit-levels lev0 lev1 w.registered k (omega arith),
          started-asks lev0 lev1 w.registered lev0_lt lev1_lt registered_lt w.handlers k
              (omega arith),
        )))

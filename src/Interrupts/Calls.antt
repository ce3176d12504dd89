-- ===== src/Interrupts/Calls.antt =====
-- Which handlers run, and which cannot, over the calls and the passes that a program makes.
use ras_pi_arduino.Prelude.{member}
use ras_pi_arduino.Prelude.{ℕ, ◌≤◌, ◌<◌, max, ◌≡◌, ◌≢◌, refl, ap, ◌∙◌, arith}
use ras_pi_arduino.Prelude.{Bool, true, false, not, ◌&&◌, ◌||◌, Option, none, some}
use ras_pi_arduino.Prelude.{ltb, ◌==◌, if◌then◌else◌, bit_xor, Option-cases, inl, inr}
use ras_pi_arduino.Prelude.Bits.{u8, bit_value, test_bit, test_bit-lt, test_bit-or}
use ras_pi_arduino.Prelude.Bits.{u32, bit_unlike, test_bit-zero}
use ras_pi_arduino.Gpio.Levels.{digital_read_lem, test_bit-bit_value, read_bit}
use ras_pi_arduino.Interrupts.{
  Handler, Watch, idle, has_fn, falling, rising, change, levels, starts,
}
use ras_pi_arduino.Interrupts.{wide_bit, pass, shifted_one, attach_interrupt, detach_interrupt}
use ras_pi_arduino.Interrupts.Scan.{
  member-pick, started, test_bit-levels, is_picked, pass-pick, changed_bit,
}

-- Does this pass start the handler of pin `p`?
abbrev pub fires : ℕ → ℕ → ℕ → Watch → Bool
fires p lev0 lev1 w = elim (pass lev0 lev1 w).0 [ none ↦ false | some pins ↦ member p pins ]

pub fires-pass :
    (p lev0 lev1 : ℕ) (w : Watch)
    → fires p lev0 lev1 w ≡ (not (w.registered == 0) && ltb p 32 && is_picked lev0 lev1 w p)
unfolding member
fires-pass p lev0 lev1 w =
    ground (arith, pass-pick lev0 lev1 w, member-pick (is_picked lev0 lev1 w) 32 0 p)

-- The edge that a mode asks for, towards the level `now`.
abbrev pub asks : ℕ → ℕ → Bool
asks mode now =
    if now == 0 then mode == falling || mode == change else mode == rising || mode == change

pub started_low :
    (handlers : ℕ → Handler) (state p : ℕ)
    → p < 31
    → started handlers state p
      ≡ (asks (handlers p).mode (test_bit state p) && has_fn (handlers p).fn)
unfolding starts wide_bit
started_low handlers state p h = ground (arith, read_bit state p (omega arith), test_bit-lt state p)

-- What the two calls ask for: the mode and the function of each pin that has a handler.
abbrev Wanted : Type 0
Wanted = ℕ → Option (ℕ × ℕ)

abbrev pub want : ℕ → Option (ℕ × ℕ) → Wanted → Wanted
want pin h a = λ p. if p == pin then h else a p

-- The states that a program reaches, with what its calls have asked for: the latest call on a pin
-- counts, and calls on a pin beyond the 46 do not.
module _ (beyond : ℕ → ℕ) where
  pub data Reach : Wanted → Watch → Type 0 where
    start : Reach (λ _. none) idle
    attached :
        {a : Wanted} {w : Watch}
        → (lev0 lev1 pin user_func mode : ℕ) → pin < 46
        → Reach a w
        → Reach
            (want pin (some (mode, user_func)) a)
            (attach_interrupt beyond lev0 lev1 pin user_func mode w)
    detached :
        {a : Wanted} {w : Watch}
        → (pin : ℕ) → pin < 46
        → Reach a w
        → Reach (want pin none a) (detach_interrupt beyond pin w)
    ignored :
        {a : Wanted} {w : Watch}
        → (lev0 lev1 pin user_func mode : ℕ) → 46 ≤ pin
        → Reach a w
        → Reach a (attach_interrupt beyond lev0 lev1 pin user_func mode w)
    looked : {a : Wanted} {w : Watch} → (lev0 lev1 : ℕ) → Reach a w → Reach a (pass lev0 lev1 w).1

  abbrev handler : Option (ℕ × ℕ) → Handler
  handler none = record { mode = 0; fn = none }
  handler (some h) = record { mode = u8 h.0; fn = some h.1 }

  handlers-Reach : {a : Wanted} {w : Watch} → Reach a w → (p : ℕ) → w.handlers p ≡ handler (a p)
  unfolding idle attach_interrupt detach_interrupt pass
  handlers-Reach start p = refl
  handlers-Reach (attached lev0 lev1 pin user_func mode h r) p = ground (arith, handlers-Reach r p)
  handlers-Reach (detached pin h r) p = ground (arith, handlers-Reach r p)
  handlers-Reach (ignored lev0 lev1 pin user_func mode h r) p = ground (arith, handlers-Reach r p)
  handlers-Reach (looked lev0 lev1 r) p = ground (arith, handlers-Reach r p)

  -- In a state that calls and passes reach, a pass starts a handler only for a pin below 32 on which
  -- the latest call attached a function, and what it runs is that function: after a detach, or if no
  -- call was made, nothing runs.
  pub fires-Reach :
      {a : Wanted} {w : Watch} (p lev0 lev1 : ℕ)
      → Reach a w
      → fires p lev0 lev1 w ≡ true
      → (mode : ℕ) × (user_func : ℕ) × (a p ≡ some (mode, user_func))
        × ((w.handlers p).fn ≡ some user_func)
        × (p < 32)
  unfolding starts
  fires-Reach {a} {w} p lev0 lev1 r f = elim (Option-cases (a p)) [
    | inl e ↦ absurd (ground (arith, f, fires-pass p lev0 lev1 w, handlers-Reach r p, e))
    | inr (c, e) ↦ (
      c.0,
      c.1,
      e,
      ground (arith, handlers-Reach r p, e),
      ground (arith, f, fires-pass p lev0 lev1 w),
    )
  ]

pub some_bit : (x p : ℕ) → test_bit x p ≡ 1 → x ≢ 0
some_bit x p on z = ground (arith, on, ap (λ t. test_bit t p) z, test_bit-zero p)

last-pass :
    (lev0 lev1 p : ℕ) (w : Watch)
    → p < 32
    → test_bit w.registered p ≡ 1
    → test_bit (pass lev0 lev1 w).1.last p ≡ test_bit lev0 p
unfolding pass
last-pass lev0 lev1 p w h on =
    let state = levels lev0 lev1 w.registered in
    let changed = u32 (bit_xor state w.last) in
    let same : changed ≡ 0 → bit_unlike (test_bit state p) (test_bit w.last p) ≡ 0 = λ z.
      ground (arith, ap (λ t. test_bit t p) z, test_bit-zero p, changed_bit state w.last p h) in
    ground (
      arith,
      on,
      some_bit w.registered p on,
      test_bit-levels lev0 lev1 w.registered p h,
      test_bit-lt lev0 p,
      same,
    )

-- A pass that looks at a registered pin.
fires_registered :
    (lev0 lev1 p : ℕ) (w : Watch)
    → p < 31
    → test_bit w.registered p ≡ 1
    → fires p lev0 lev1 w ≡ (
        not (test_bit w.last p == test_bit lev0 p)
        && asks (w.handlers p).mode (test_bit lev0 p)
        && has_fn (w.handlers p).fn)
fires_registered lev0 lev1 p w h on = ground (
  arith,
  on,
  fires-pass p lev0 lev1 w,
  some_bit w.registered p on,
  test_bit-levels lev0 lev1 w.registered p (omega arith),
  test_bit-lt lev0 p,
  started_low w.handlers (levels lev0 lev1 w.registered) p h,
)

-- An edge is missed by no pass: between two passes, the handler of a registered pin below 31 starts
-- exactly if the level of the pin changed, its mode asks for that edge and it has a function.
pub fires-pass_twice :
    (a0 a1 b0 b1 p : ℕ) (w : Watch)
    → p < 31
    → test_bit w.registered p ≡ 1
    → fires p b0 b1 (pass a0 a1 w).1 ≡ (
        not (test_bit a0 p == test_bit b0 p)
        && asks (w.handlers p).mode (test_bit b0 p)
        && has_fn (w.handlers p).fn)
fires-pass_twice a0 a1 b0 b1 p w h on = ground (
  arith,
  kept_pass,
  last-pass a0 a1 p w (omega arith) on,
  fires_registered b0 b1 p (pass a0 a1 w).1 h (ap (λ t. test_bit t p) kept_pass.0 ∙ on),
)
  where
    kept_pass :
        ((pass a0 a1 w).1.registered ≡ w.registered) × ((pass a0 a1 w).1.handlers p ≡ w.handlers p)
    kept_pass = unfold pass in (ground arith, ground arith)

-- After `attachInterrupt` of a pin below 31, the next pass compares the level of the pin with the
-- level at the call, or with 1 if the last levels still hold a 1 for the pin.
pub fires-attach :
    (beyond : ℕ → ℕ) (a0 a1 b0 b1 p user_func mode : ℕ) (w : Watch)
    → p < 31
    → fires p b0 b1 (attach_interrupt beyond a0 a1 p user_func mode w) ≡ (
        not (max (test_bit w.last p) (test_bit a0 p) == test_bit b0 p)
        && asks (u8 mode) (test_bit b0 p))
fires-attach beyond a0 a1 b0 b1 p user_func mode w h = ground (
  arith,
  attached,
  fires_registered b0 b1 p (attach_interrupt beyond a0 a1 p user_func mode w) h attached.0,
)
  where
    attached :
        (test_bit (attach_interrupt beyond a0 a1 p user_func mode w).registered p ≡ 1)
        × (test_bit (attach_interrupt beyond a0 a1 p user_func mode w).last p
            ≡ max (test_bit w.last p) (test_bit a0 p))
        × ((attach_interrupt beyond a0 a1 p user_func mode w).handlers p
            ≡ record { mode = u8 mode; fn = some user_func })
    attached =
        unfold attach_interrupt shifted_one wide_bit in
        ground (
          arith,
          test_bit-or w.registered (bit_value p) p,
          test_bit-or w.last (bit_value p) p,
          test_bit-or w.last 0 p,
          test_bit-zero p,
          test_bit-bit_value p p (omega arith),
          digital_read_lem a0 a1 p,
          test_bit-lt a0 p,
          test_bit-lt w.last p,
          test_bit-lt w.registered p,
        )

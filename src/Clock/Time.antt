-- ===== src/Clock/Time.antt =====
-- A chip that answers as its registers say, and the time written to it and read back.
use ras_pi_arduino.Prelude.{ℕ, zero, suc, ◌+◌, ◌^◌, ◌<◌, ◌≤◌, ◌≡◌, refl, ap, ap₂, ◌∙◌, arith, true}
use ras_pi_arduino.Prelude.{some, List, [], ◌∷◌, length, get_or}
use ras_pi_arduino.Clock
use ras_pi_arduino.Clock.Digits.{
  seconds-Kept, weekday-Kept, day-Kept, month-Kept, seconds_top, bcd2dec-dec2bcd, hour_kept,
}

abbrev pub contents : (ℕ → ℕ) → ℕ → ℕ → List ℕ
contents reg from zero = []
contents reg from (suc n) = reg from ∷ contents reg (suc from) n

contents_ext :
    (f g : ℕ → ℕ) (from n : ℕ)
    → ((k : ℕ) → from ≤ k → k < from + n → f k ≡ g k)
    → contents f from n ≡ contents g from n
contents_ext f g from zero h = refl
contents_ext f g from (suc n) h =
    ap₂ (λ x xs. x ∷ xs) (h from (omega arith) (omega arith))
      (contents_ext f g (suc from) n λ k le lt. h k (omega arith) (omega arith))

pub contents_of :
    (f : ℕ → ℕ) (from : ℕ) (vs : List ℕ)
    → ((k : ℕ) → k < length vs → f (from + k) ≡ get_or vs k 0)
    → contents f from (length vs) ≡ vs
contents_of f from [] h = refl
contents_of f from (v ∷ vs) h =
    ap₂ (λ x xs. x ∷ xs) (ap f {x = from} {y = from + 0} (omega arith) ∙ h 0 (omega arith))
      (contents_of f (suc from) vs
        λ k lt. ap f {x = suc from + k} {y = from + suc k} (omega arith) ∙ h (suc k) (omega arith))

-- The bits that a time register holds: seven for the seconds, the minutes and the hours, three for
-- the day of the week, six for the day, five for the month and eight for the year.
abbrev pub bits_held : ℕ → ℕ
bits_held k = get_or (7 ∷ 7 ∷ 7 ∷ 3 ∷ 6 ∷ 5 ∷ 8 ∷ []) k 0

-- A bus with the chip on it, as its data sheet describes the seven time registers while no second
-- passes: the first byte of a transmission sets the register pointer, the others are stored from
-- there on, as far as the registers have the bits, and a request reads from the pointer. Nothing is
-- said of the registers behind the seven, or of a transmission or request that reaches them.
pub record Chip {S : Type 0} (bus : Clock.Bus S) : Type 0 where
  pub reg : S → ℕ → ℕ
  pub pointer : S → ℕ
  pub acknowledged :
      (r : ℕ) (vs : List ℕ) (s : S) → r + length vs ≤ 7 → (bus.transmit 0x68 (r ∷ vs) s).0 ≡ 0
  pub stored :
      (r : ℕ) (vs : List ℕ) (s : S) (k : ℕ)
      → r + length vs ≤ 7
      → k < length vs
      → get_or vs k 0 < 2 ^ bits_held (r + k)
      → reg (bus.transmit 0x68 (r ∷ vs) s).1 (r + k) ≡ get_or vs k 0
  -- A transmission of a register alone only sets the pointer.
  pub pointed : (r : ℕ) (s : S) → r < 7 → pointer (bus.transmit 0x68 (r ∷ []) s).1 ≡ r
  pub kept :
      (r : ℕ) (s : S) (k : ℕ) → r < 7 → k < 7 → reg (bus.transmit 0x68 (r ∷ []) s).1 k ≡ reg s k
  pub answered :
      (n : ℕ) (s : S)
      → pointer s + n ≤ 7
      → (bus.request 0x68 n s).0 ≡ contents (reg s) (pointer s) n

-- A date and time of this century.
pub record IsTime (t : Clock.Rtc) : Type 0 where
  pub second : t.s < 60
  pub minute : t.m < 60
  pub hour : t.h < 24
  pub weekday : t.w < 8
  pub day : t.d < 32
  pub month : t.mo < 13
  pub year : t.y < 100

decode-encode_time : (t : Clock.Rtc) → IsTime t → Clock.decode_time (Clock.encode_time t) ≡ some t
unfolding Clock.decode_time Clock.encode_time
decode-encode_time t v =
    rw
      (
        seconds_top t.s v.second,
        seconds-Kept t.s v.second,
        seconds-Kept t.m v.minute,
        hour_kept t.h v.hour,
        weekday-Kept t.w v.weekday,
        day-Kept t.d (omega (arith, v.day)),
        month-Kept t.mo (omega (arith, v.month)),
        bcd2dec-dec2bcd t.y v.year,
      )
      refl

-- Each byte of a time fits its register.
encode_time-lt :
    (t : Clock.Rtc) (k : ℕ) → IsTime t → k < 7 → get_or (Clock.encode_time t) k 0 < 2 ^ bits_held k
unfolding Clock.encode_time Clock.dec2bcd
encode_time-lt t zero v h = omega (arith, v.second)
encode_time-lt t (suc zero) v h = omega (arith, v.minute)
encode_time-lt t (suc (suc zero)) v h = omega (arith, v.hour)
encode_time-lt t (suc (suc (suc zero))) v h = omega (arith, v.weekday)
encode_time-lt t (suc (suc (suc (suc zero)))) v h = omega (arith, v.day)
encode_time-lt t (suc (suc (suc (suc (suc zero))))) v h = omega (arith, v.month)
encode_time-lt t (suc (suc (suc (suc (suc (suc zero)))))) v h = omega (arith, v.year)
encode_time-lt t (suc (suc (suc (suc (suc (suc (suc k))))))) v h = absurd (omega arith)

module _ {S : Type 0} (bus : Clock.Bus S) (chip : Chip bus) where
  abbrev after : ℕ → List ℕ → S → S
  after r vs s = (bus.transmit 0x68 (r ∷ vs) s).1

  -- Reading the time registers gives what they hold.
  read_regs_lem : (s : S) → (Clock.read_regs bus 0 7 s).0 ≡ contents (chip.reg s) 0 7
  unfolding Clock.read_regs
  read_regs_lem s =
      let pointer = chip.pointed 0 s (omega arith) in
      rw (chip.acknowledged 0 [] s (omega arith)) (
        chip.answered 7 (after 0 [] s) (omega (arith, pointer))
        ∙ ap (λ t. contents (chip.reg (after 0 [] s)) t 7) pointer
        ∙ contents_ext (chip.reg (after 0 [] s)) (chip.reg s) 0 7
            (λ k le lt. chip.kept 0 s k (omega arith) lt))

  written :
      (t : Clock.Rtc) (s : S)
      → IsTime t
      → contents (chip.reg (after 0 (Clock.encode_time t) s)) 0 7 ≡ Clock.encode_time t
  unfolding Clock.encode_time
  written t s v =
      contents_of (chip.reg (after 0 (Clock.encode_time t) s)) 0 (Clock.encode_time t) λ k h.
        chip.stored 0 (Clock.encode_time t) s k (omega arith) h
          (let z : 0 + k ≡ k = omega arith in rw z (encode_time-lt t k v h))

  -- The time that is written to the chip is the time that is read from it, and both calls succeed;
  -- the time is a date of this century, and the chip does with the time registers what its data
  -- sheet says and does not tick in between.
  pub read_time-write_time :
      (t : Clock.Rtc) (s : S)
      → IsTime t
      → ((Clock.write_time bus t s).0 ≡ true)
        × ((Clock.read_time bus (Clock.write_time bus t s).1).0 ≡ some t)
  unfolding Clock.write_time Clock.read_time Clock.write_regs
  read_time-write_time t s v = (
    rw (chip.acknowledged 0 (Clock.encode_time t) s (unfold Clock.encode_time in omega arith)) refl,
    ap Clock.decode_time (read_regs_lem (after 0 (Clock.encode_time t) s) ∙ written t s v)
        ∙ decode-encode_time t v,
  )

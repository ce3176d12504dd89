-- ===== src/Clock/Rates.antt =====
-- Which alarms the bytes of `setAlarm1` and `setAlarm2` mean.
use ras_pi_arduino.Prelude.{
  ℕ, ◌+◌, ◌-◌, ◌%◌, ◌<◌, ◌≤◌, ◌≡◌, refl, arith, Bool, true, false, not, ◌||◌, ◌&&◌,
}
use ras_pi_arduino.Prelude.{
  List, [], ◌∷◌, map, bit_and, bit_or, ◌==◌, ==→eq, if◌then◌else◌, inl, inr, ◌⊎◌,
}
use native.Mathlib.Nat.{mod-lt}
use ras_pi_arduino.Prelude.Fields.{every, every_lem}
use ras_pi_arduino.Prelude.Signed.{ℤ, pos, negsuc}
use ras_pi_arduino.Clock.{dec2bcd}
use ras_pi_arduino.Clock.Alarm.{
  remainder, quotient, is_unset, is_no_day, bcd_byte, day_byte, field, alarm1_bytes, alarm2_bytes,
}

same_digits : ℕ → Bool
same_digits k = bcd_byte (pos k) == dec2bcd k

bcd_byte_lem : (k : ℕ) → k < 60 → bcd_byte (pos k) ≡ dec2bcd k
unfolding same_digits every bcd_byte quotient remainder dec2bcd
bcd_byte_lem k h = ==→eq _ (dec2bcd k) (every_lem 60 same_digits k h refl)

flagged_day : ℕ → Bool
flagged_day k = bit_or 0x40 k == 0x40 + k

bit_or-flag : (k : ℕ) → k < 8 → bit_or 0x40 k ≡ 0x40 + k
unfolding flagged_day every
bit_or-flag k h = ==→eq _ (0x40 + k) (every_lem 8 flagged_day k h refl)

-- The day register of an alarm on the `d`-th day, which is counted from 1 and wraps.
abbrev pub day_register : ℕ → Bool → ℕ
day_register d weekday = if weekday then 0x40 + ((d - 1) % 7 + 1) else dec2bcd ((d - 1) % 31 + 1)

day_byte_lem : (d : ℕ) (weekday : Bool) → day_byte (pos d) weekday ≡ day_register d weekday
unfolding day_byte
day_byte_lem d true = bit_or-flag ((d - 1) % 7 + 1) (omega arith)
day_byte_lem d false = bcd_byte_lem ((d - 1) % 31 + 1) (omega arith)

-- With all fields given, the alarm registers hold their two digits, each taken into its range, and
-- no field is ignored.
pub alarm_bytes_lem :
    (s m h d : ℕ) (weekday : Bool)
    → 1 ≤ d
    → (alarm1_bytes (pos s) (pos m) (pos h) (pos d) weekday
        ≡ dec2bcd (s % 60) ∷ dec2bcd (m % 60) ∷ dec2bcd (h % 24) ∷ day_register d weekday ∷ [])
      × (alarm2_bytes (pos m) (pos h) (pos d) weekday
          ≡ dec2bcd (m % 60) ∷ dec2bcd (h % 24) ∷ day_register d weekday ∷ [])
unfolding alarm1_bytes alarm2_bytes is_unset is_no_day field remainder
alarm_bytes_lem s m h d weekday one =
    let e1 = bcd_byte_lem (s % 60) (omega arith) in
    let e2 = bcd_byte_lem (m % 60) (omega arith) in
    let e3 = bcd_byte_lem (h % 24) (omega arith) in
    let e4 = day_byte_lem d weekday in
    let given : (d == 0) ≡ false = ground arith in
    (rw (e1, e2, e3, e4, given) refl, rw (e2, e3, e4, given) refl)

-- The mask bit of an alarm register.
abbrev pub ignores : ℕ → Bool
ignores b = not (bit_and b 0x80 == 0)

-- The chip's alarm rates: the fields that it ignores are the ones from some field on.
abbrev pub is_rate : List Bool → Bool
is_rate [] = true
is_rate (b ∷ []) = true
is_rate (b ∷ c ∷ bs) = (not b || c) && is_rate (c ∷ bs)

-- An argument that is given or left out.
abbrev pub IsArgument : ℤ → Type 0
IsArgument z = (is_unset z ≡ true) ⊎ ((n : ℕ) × (z ≡ pos n))

no_mask : ℕ → Bool
no_mask k = not (ignores (dec2bcd k))

dec2bcd-no_mask : (k : ℕ) → k < 60 → ignores (dec2bcd k) ≡ false
unfolding no_mask every dec2bcd
dec2bcd-no_mask k h = ground (arith, every_lem 60 no_mask k h refl)

-- The mask bit of a field is set exactly if the field is ignored.
ignores-field :
    (ignored : Bool) (n range : ℕ)
    → 0 < range
    → range ≤ 60
    → ignores (field ignored (bcd_byte (remainder (pos n) range))) ≡ ignored
unfolding field remainder
ignores-field true n range h k = refl
ignores-field false n range h k =
    let small : n % range < 60 = omega (arith, mod-lt n h) in
    rw (bcd_byte_lem (n % range) small) (dec2bcd-no_mask (n % range) small)

field_mask :
    (z : ℤ) (ignored : Bool) (range : ℕ)
    → IsArgument z
    → (is_unset z || ignored) ≡ ignored
    → 0 < range
    → range ≤ 60
    → ignores (field ignored (bcd_byte (remainder z range))) ≡ ignored
unfolding field
field_mask z true range a u h k = refl
field_mask z false range (inl e) u h k = absurd (ground (arith, e, u))
field_mask z false range (inr (n, e)) u h k = rw e (ignores-field false n range h k)

no_mask_weekday : ℕ → Bool
no_mask_weekday k = not (ignores (0x40 + k))

day_mask :
    (day : ℤ) (ignored weekday : Bool)
    → (is_no_day day || ignored) ≡ ignored
    → ignores (field ignored (day_byte day weekday)) ≡ ignored
unfolding field is_no_day no_mask_weekday every
day_mask day true weekday u = refl
day_mask (negsuc n) false weekday u = ground (arith, u)
day_mask (pos n) false true u =
    rw (day_byte_lem n true)
      (ground (arith, every_lem 8 no_mask_weekday ((n - 1) % 7 + 1) (omega arith) refl))
day_mask (pos n) false false u =
    rw (day_byte_lem n false) (dec2bcd-no_mask ((n - 1) % 31 + 1) (omega arith))

-- With each of seconds, minutes and hour given or left out, and any day, the chip ignores exactly
-- the fields that are left out and those above them: the mask bits are one of its alarm rates.
pub alarm_rates :
    (seconds minutes hour day : ℤ) (weekday : Bool)
    → IsArgument seconds
    → IsArgument minutes
    → IsArgument hour
    → let s = is_unset seconds in
      let m = is_unset minutes in
      let h = is_unset hour in
      let d = is_no_day day in
      (map ignores (alarm1_bytes seconds minutes hour day weekday)
        ≡ s ∷ (m || s) ∷ (h || m || s) ∷ (d || h || m || s) ∷ [])
      × (map ignores (alarm2_bytes minutes hour day weekday) ≡ m ∷ (h || m) ∷ (d || h || m) ∷ [])
      × (is_rate (map ignores (alarm1_bytes seconds minutes hour day weekday)) ≡ true)
      × (is_rate (map ignores (alarm2_bytes minutes hour day weekday)) ≡ true)
unfolding alarm1_bytes alarm2_bytes
alarm_rates seconds minutes hour day weekday gs gm gh =
    let s = is_unset seconds in
    let m = is_unset minutes in
    let h = is_unset hour in
    let d = is_no_day day in
    let e1 = field_mask seconds s 60 gs (idempotent s) (omega arith) (omega arith) in
    let e2 = field_mask minutes (m || s) 60 gm (absorbs m s) (omega arith) (omega arith) in
    let e3 = field_mask hour (h || m || s) 24 gh (absorbs3 h m s) (omega arith) (omega arith) in
    let e4 = day_mask day (d || h || m || s) weekday (absorbs4 d h m s) in
    let f1 = field_mask minutes m 60 gm (idempotent m) (omega arith) (omega arith) in
    let f2 = field_mask hour (h || m) 24 gh (absorbs h m) (omega arith) (omega arith) in
    let f3 = day_mask day (d || h || m) weekday (absorbs3 d h m) in
    (
      rw (e1, e2, e3, e4) refl,
      rw (f1, f2, f3) refl,
      rw (e1, e2, e3, e4) (rate4 s m h d),
      rw (f1, f2, f3) (rate3 m h d),
    )
  where
    idempotent : (b : Bool) → (b || b) ≡ b
    idempotent true = refl
    idempotent false = refl

    absorbs : (b c : Bool) → (b || (b || c)) ≡ (b || c)
    absorbs true c = refl
    absorbs false c = refl

    absorbs3 : (b c d : Bool) → (b || (b || c || d)) ≡ (b || c || d)
    absorbs3 true c d = refl
    absorbs3 false c d = refl

    absorbs4 : (b c d e : Bool) → (b || (b || c || d || e)) ≡ (b || c || d || e)
    absorbs4 true c d e = refl
    absorbs4 false c d e = refl

    rate4 :
        (s m h d : Bool) → is_rate (s ∷ (m || s) ∷ (h || m || s) ∷ (d || h || m || s) ∷ []) ≡ true
    rate4 s m h d = ground arith

    rate3 : (m h d : Bool) → is_rate (m ∷ (h || m) ∷ (d || h || m) ∷ []) ≡ true
    rate3 m h d = ground arith

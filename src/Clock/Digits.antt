-- ===== src/Clock/Digits.antt =====
-- The two digits of a byte in binary coded decimal, and the masks of the time registers.
use ras_pi_arduino.Prelude.{ℕ, zero, suc, ◌+◌, ◌*◌, ◌^◌, ◌<◌, ◌≡◌, refl, arith, Bool, true}
use ras_pi_arduino.Prelude.{bit_and, bit_or, ◌==◌, ==→eq}
use ras_pi_arduino.Prelude.Fields.{every, every_lem}
use ras_pi_arduino.Clock.{dec2bcd, bcd2dec, decode_hour}

-- Two digits come back, and a register whose range ends below `n` keeps them under its mask.
abbrev Kept : ℕ → ℕ → ℕ → Type 0
Kept mask n k = bcd2dec (bit_and (dec2bcd k) mask) ≡ k

kept : ℕ → ℕ → Bool
kept mask k = bcd2dec (bit_and (dec2bcd k) mask) == k

kept_lem : (mask n k : ℕ) → every n (kept mask) ≡ true → k < n → Kept mask n k
unfolding kept
kept_lem mask n k all h = ==→eq _ k (every_lem n (kept mask) k h all)

pub seconds-Kept : (k : ℕ) → k < 60 → Kept 0x7f 60 k
unfolding kept every dec2bcd bcd2dec
seconds-Kept k h = kept_lem 0x7f 60 k refl h

pub weekday-Kept : (k : ℕ) → k < 8 → Kept 0x07 8 k
unfolding kept every dec2bcd bcd2dec
weekday-Kept k h = kept_lem 0x07 8 k refl h

pub day-Kept : (k : ℕ) → k < 40 → Kept 0x3f 40 k
unfolding kept every dec2bcd bcd2dec
day-Kept k h = kept_lem 0x3f 40 k refl h

pub month-Kept : (k : ℕ) → k < 20 → Kept 0x1f 20 k
unfolding kept every dec2bcd bcd2dec
month-Kept k h = kept_lem 0x1f 20 k refl h

no_top_bit : ℕ → Bool
no_top_bit k = bit_and (dec2bcd k) 0x80 == 0

pub seconds_top : (k : ℕ) → k < 60 → (bit_and (dec2bcd k) 0x80 == 0) ≡ true
unfolding no_top_bit every dec2bcd
seconds_top k h = every_lem 60 no_top_bit k h refl

whole : ℕ → Bool
whole k = bcd2dec (dec2bcd k) == k

-- A number of two digits survives its coding.
pub bcd2dec-dec2bcd : (k : ℕ) → k < 100 → bcd2dec (dec2bcd k) ≡ k
unfolding whole every dec2bcd bcd2dec
bcd2dec-dec2bcd k h = ==→eq _ k (every_lem 100 whole k h refl)

same_hour : ℕ → Bool
same_hour k = decode_hour (dec2bcd k) == k

pub hour_kept : (k : ℕ) → k < 24 → decode_hour (dec2bcd k) ≡ k
unfolding same_hour every dec2bcd bcd2dec decode_hour
hour_kept k h = ==→eq _ k (every_lem 24 same_hour k h refl)

twelve_hours : ℕ → ℕ → Bool
twelve_hours pm k = decode_hour (bit_or 0x40 (pm * 2 ^ 5 + dec2bcd k)) == k + 12 * pm

-- In the format of twelve hours the code adds 12 to every hour of the afternoon, from 0 to 12, so
-- that noon reads as 24 and midnight as 12.
pub decode_hour_lem :
    (pm k : ℕ) → pm < 2 → k < 13 → decode_hour (bit_or 0x40 (pm * 2 ^ 5 + dec2bcd k)) ≡ k + 12 * pm
unfolding twelve_hours every dec2bcd bcd2dec decode_hour
decode_hour_lem zero k h h' = ==→eq _ (k + 12 * 0) (every_lem 13 (twelve_hours 0) k h' refl)
decode_hour_lem (suc zero) k h h' = ==→eq _ (k + 12 * 1) (every_lem 13 (twelve_hours 1) k h' refl)
decode_hour_lem (suc (suc pm)) k h h' = absurd (omega arith)

-- ===== src/Clock/Alarm.antt =====
-- The bytes of the alarm registers, as `setAlarm1` and `setAlarm2` of
-- libraries/DS3231/DS3231.cpp compute them from their `int` arguments.
use ras_pi_arduino.Prelude.{ℕ, ◌+◌, ◌-◌, ◌*◌, ◌/◌, ◌%◌, ◌^◌, Bool, true, false, ◌||◌, List, [], ◌∷◌}
use ras_pi_arduino.Prelude.{bit_or, ◌==◌, if◌then◌else◌}
use ras_pi_arduino.Prelude.Bits.{u8, u32}
use ras_pi_arduino.Prelude.Signed.{ℤ, pos, negsuc, negate, abs, is_negative, to_word}

-- C's `/` and `%` by a positive number, which round toward 0.
unfoldable pub quotient : ℤ → ℕ → ℤ
quotient z n = if is_negative z then negate (abs z / n) else pos (abs z / n)

unfoldable pub remainder : ℤ → ℕ → ℤ
remainder z n = if is_negative z then negate (abs z % n) else pos (abs z % n)

-- `z == -1`.
unfoldable pub is_unset : ℤ → Bool
is_unset (pos n) = false
is_unset (negsuc n) = n == 0

-- `day <= 0`.
unfoldable pub is_no_day : ℤ → Bool
is_no_day (pos n) = n == 0
is_no_day (negsuc n) = true

-- `((z/10) << 4) | (z % 10)` as a byte.
unfoldable pub bcd_byte : ℤ → ℕ
bcd_byte z = u8 (bit_or (u32 (to_word 32 (quotient z 10) * 2 ^ 4)) (to_word 32 (remainder z 10)))

-- The day of the week or of the month, from 1 on.
unfoldable pub day_byte : ℤ → Bool → ℕ
day_byte day weekday =
    if weekday then bit_or 0x40 ((abs day - 1) % 7 + 1) else bcd_byte (pos ((abs day - 1) % 31 + 1))

unfoldable pub field : Bool → ℕ → ℕ
field ignored value = if ignored then 0x80 else value

unfoldable pub alarm1_bytes : ℤ → ℤ → ℤ → ℤ → Bool → List ℕ
alarm1_bytes seconds minutes hour day weekday =
    field (is_unset seconds) (bcd_byte (remainder seconds 60))
    ∷ field (is_unset minutes || is_unset seconds) (bcd_byte (remainder minutes 60))
    ∷ field (is_unset hour || is_unset minutes || is_unset seconds) (bcd_byte (remainder hour 24))
    ∷ field (is_no_day day || is_unset hour || is_unset minutes || is_unset seconds)
        (day_byte day weekday)
    ∷ []

unfoldable pub alarm2_bytes : ℤ → ℤ → ℤ → Bool → List ℕ
alarm2_bytes minutes hour day weekday =
    field (is_unset minutes) (bcd_byte (remainder minutes 60))
    ∷ field (is_unset hour || is_unset minutes) (bcd_byte (remainder hour 24))
    ∷ field (is_no_day day || is_unset hour || is_unset minutes) (day_byte day weekday)
    ∷ []

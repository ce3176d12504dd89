-- ===== src/Clock.antt =====
-- The clock chip of libraries/DS3231/DS3231.cpp. It is reached by two calls of the bus object: a
-- transmission (beginTransmission, write of each byte and endTransmission, with its code), and a
-- request (requestFrom, with the bytes that the reads after it return: all that were asked for, or none).
pub mod Alarm
pub mod Digits
pub mod Time
pub mod Rates
mod Tests
use ras_pi_arduino.Prelude.{
  ℕ, zero, suc, ◌+◌, ◌-◌, ◌*◌, ◌/◌, ◌%◌, ◌^◌, Bool, true, false, not, ◌&&◌, ◌||◌,
}
use ras_pi_arduino.Prelude.{Option, none, some, List, [], ◌∷◌, take, ◌++◌}
use ras_pi_arduino.Prelude.{bit_and, bit_or, ◌==◌, if◌then◌else◌}
use ras_pi_arduino.Prelude.Bits.{u8, u16, complement}
use ras_pi_arduino.Prelude.Signed.{ℤ}
use ras_pi_arduino.Machine.{Machine}
use ras_pi_arduino.Wire.{Wire, begin, set_clock}
use ras_pi_arduino.Clock.Alarm.{alarm1_bytes, alarm2_bytes}

pub record Bus (S : Type 0) : Type 0 where
  pub transmit : ℕ → List ℕ → S → ℕ × S
  pub request : ℕ → ℕ → S → List ℕ × S

-- `DS3231::begin`.
unfoldable pub begin_clock : Wire → Machine → Option (Wire × Machine)
begin_clock w m = elim (begin w m) [
  | none ↦ none
  | some (w', m') ↦ elim (set_clock 400000 m') [ none ↦ none | some m'' ↦ some (w', m'') ]
]

-- `rtc_t`.
pub record Rtc : Type 0 where
  pub s : ℕ
  pub m : ℕ
  pub h : ℕ
  pub w : ℕ
  pub d : ℕ
  pub mo : ℕ
  pub y : ℕ

-- `dec2bcd` stored in a byte, and `bcd2dec`.
unfoldable pub dec2bcd : ℕ → ℕ
dec2bcd n = u8 (n % 10 + u8 (n / 10) * 2 ^ 4)

unfoldable pub bcd2dec : ℕ → ℕ
bcd2dec n = bit_and n 0x0f + 10 * (bit_and n 0xf0 / 2 ^ 4)

-- The hour register, in both formats.
unfoldable pub decode_hour : ℕ → ℕ
decode_hour b =
    if not (bit_and b 0x40 == 0)
    then bcd2dec (bit_and b 0x1f) + 12 * (bit_and b 0x20 / 2 ^ 5)
    else bcd2dec (bit_and b 0x3f)

-- Addresses of registers and bits of the control and status register.
abbrev pub rtca1 : ℕ
rtca1 = 0x07

abbrev pub rtca2 : ℕ
rtca2 = 0x0b

abbrev pub rtccr : ℕ
rtccr = 0x0e

abbrev pub rtcsr : ℕ
rtcsr = 0x0f

abbrev pub rtcth : ℕ
rtcth = 0x11

abbrev pub rtctl : ℕ
rtctl = 0x12

abbrev pub rtcintcn : ℕ
rtcintcn = 0x04

abbrev pub rtcosf : ℕ
rtcosf = 0x80

-- The parts of a `tm` that `set` reads.
pub record LocalTime : Type 0 where
  pub tm_sec : ℕ
  pub tm_min : ℕ
  pub tm_hour : ℕ
  pub tm_wday : ℕ
  pub tm_mday : ℕ
  pub tm_mon : ℕ
  pub tm_year : ℕ

unfoldable pub first_byte : List ℕ → Option ℕ
first_byte [] = none
first_byte (b ∷ bs) = some b

-- The seven bytes of the time registers, as `read(rtc_t&)` decodes them; a set top bit of the
-- first is refused.
unfoldable pub decode_time : List ℕ → Option Rtc
decode_time (b0 ∷ b1 ∷ b2 ∷ b3 ∷ b4 ∷ b5 ∷ b6 ∷ bs) =
    if bit_and b0 0x80 == 0
    then some record {
      s = bcd2dec (bit_and b0 0x7f);
      m = bcd2dec (bit_and b1 0x7f);
      h = decode_hour b2;
      w = bcd2dec (bit_and b3 0x07);
      d = bcd2dec (bit_and b4 0x3f);
      mo = bcd2dec (bit_and b5 0x1f);
      y = bcd2dec b6;
    }
    else none
decode_time bs = none

unfoldable pub encode_time : Rtc → List ℕ
encode_time t =
    dec2bcd t.s
    ∷ dec2bcd t.m
    ∷ dec2bcd t.h
    ∷ dec2bcd t.w
    ∷ dec2bcd t.d
    ∷ dec2bcd t.mo
    ∷ dec2bcd t.y
    ∷ []

-- A call after `&&`.
unfoldable pub and_then : {S : Type 0} → Bool × S → (S → Bool × S) → Bool × S
and_then (false, s) f = (false, s)
and_then (true, s) f = f s

-- The value of `getReg` as a word of `w` bits.
unfoldable pub as_word : ℕ → Option ℕ → ℕ
as_word w none = 2 ^ w - 1
as_word w (some v) = v

-- `getReg(RTCTL) >> 6`, where a shift of -1 is -1.
unfoldable pub quarters : Option ℕ → ℕ
quarters none = 2 ^ 16 - 1
quarters (some v) = v / 2 ^ 6

unfoldable pub from_local : LocalTime → Rtc
from_local now = record {
  s = u8 now.tm_sec;
  m = u8 now.tm_min;
  h = u8 now.tm_hour;
  w = if now.tm_wday == 0 then 7 else u8 now.tm_wday;
  d = u8 now.tm_mday;
  mo = u8 (now.tm_mon + 1);
  y = u8 (now.tm_year + 2 ^ 8 - 100);
}

module _ {S : Type 0} (bus : Bus S) where
  -- `getReg`; `none` is its -1.
  unfoldable pub get_reg : ℕ → S → Option ℕ × S
  get_reg reg s =
      let (ret, s') = bus.transmit 0x68 (reg ∷ []) s in
      let (bs, s'') = bus.request 0x68 1 s' in
      if not (ret == 0) then (none, s') else (first_byte bs, s'')

  unfoldable pub set_reg : ℕ → ℕ → S → Bool × S
  set_reg reg value s = let (ret, s') = bus.transmit 0x68 (reg ∷ value ∷ []) s in (ret == 0, s')

  unfoldable pub update_reg : ℕ → ℕ → ℕ → S → Bool × S
  update_reg reg value mask s =
      let (regval, s') = get_reg reg s in
      elim regval [
        | none ↦ (false, s')
        | some v ↦ set_reg reg (u8 (bit_or (bit_and v (complement mask)) value)) s'
      ]

  -- `read(reg, buf, len)`: the bytes that it stores, and none where it returns false.
  unfoldable pub read_regs : ℕ → ℕ → S → List ℕ × S
  read_regs reg len s =
      let (ret, s') = bus.transmit 0x68 (reg ∷ []) s in
      if not (ret == 0) then ([], s') else bus.request 0x68 (u8 len) s'

  unfoldable pub write_regs : ℕ → List ℕ → S → Bool × S
  write_regs reg values s = let (ret, s') = bus.transmit 0x68 (reg ∷ values) s in (ret == 0, s')

  unfoldable pub read_time : S → Option Rtc × S
  read_time s = let (bs, s') = read_regs 0x00 7 s in (decode_time bs, s')

  unfoldable pub write_time : Rtc → S → Bool × S
  write_time t s = write_regs 0x00 (encode_time t) s

  unfoldable pub set_now : LocalTime → S → Bool × S
  set_now now s =
      and_then (and_then (write_time (from_local now) s) (set_reg rtccr rtcintcn)) (set_reg rtcsr 0)

  unfoldable pub has_stopped : S → Bool × S
  has_stopped s = let (r, s') = get_reg rtcsr s in (not (bit_and (as_word 8 r) rtcosf == 0), s')

  -- The sums are kept to 16 bits.
  unfoldable pub temperature : S → ℕ × S
  temperature s =
      let (hi, s') = get_reg rtcth s in
      let (lo, s'') = get_reg rtctl s' in (u16 (u16 (as_word 16 hi * 100) + quarters lo * 25), s'')

  -- The two alarms; `ie` is the enable bit in the control register, `f` the flag in the status
  -- register.
  unfoldable pub set_alarm : ℕ → ℕ → ℕ → List ℕ → S → Bool × S
  set_alarm start ie f bytes s =
      and_then (and_then (write_regs start bytes s) (update_reg rtccr ie ie)) (update_reg rtcsr 0 f)

  unfoldable pub has_alarm : ℕ → S → Bool × S
  has_alarm f s =
      let (r, s') = get_reg rtcsr s in
      let reg = as_word 8 r in
      let flagged = not (bit_and reg f == 0) in
      (flagged, if flagged then (set_reg rtcsr (u8 (bit_and reg (complement f))) s').1 else s')

  unfoldable pub enable_alarm : ℕ → S → Bool × S
  enable_alarm ie s =
      let (r, s') = get_reg rtccr s in set_reg rtccr (u8 (bit_or (as_word 8 r) ie)) s'

  unfoldable pub disable_alarm : ℕ → S → Bool × S
  disable_alarm ie s =
      let (r, s') = get_reg rtccr s in set_reg rtccr (u8 (bit_and (as_word 8 r) (complement ie))) s'

  unfoldable pub is_alarm_enabled : ℕ → S → Bool × S
  is_alarm_enabled ie s = let (r, s') = get_reg rtccr s in (not (bit_and (as_word 8 r) ie == 0), s')

  -- `setAlarm1` and `setAlarm2`, with RTCA1IE, RTCA1F, RTCA2IE and RTCA2F.
  unfoldable pub set_alarm1 : ℤ → ℤ → ℤ → ℤ → Bool → S → Bool × S
  set_alarm1 seconds minutes hour day weekday =
      set_alarm rtca1 0x01 0x01 (alarm1_bytes seconds minutes hour day weekday)

  unfoldable pub set_alarm2 : ℤ → ℤ → ℤ → Bool → S → Bool × S
  set_alarm2 minutes hour day weekday =
      set_alarm rtca2 0x02 0x02 (alarm2_bytes minutes hour day weekday)

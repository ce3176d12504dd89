-- ===== src/Clock/Tests.antt =====
-- A chip of 19 registers with a pointer.
use ras_pi_arduino.Prelude.{
  ℕ, zero, suc, ◌+◌, ◌%◌, ◌^◌, ◌<◌, ◌≤◌, ◌≡◌, refl, ap, ◌∙◌, arith, true, false, not, ◌&&◌, some,
  List, [], ◌∷◌,
}
use ras_pi_arduino.Prelude.{length, get_or, ltb, ◌==◌, if◌then◌else◌}
use native.Mathlib.Nat.{mod-eq_of_lt}
use ras_pi_arduino.Clock
use ras_pi_arduino.Clock.{dec2bcd, bcd2dec, decode_hour}
use ras_pi_arduino.Clock.Digits.{bcd2dec-dec2bcd}
use ras_pi_arduino.Clock.Time.{Chip, contents, bits_held, IsTime, read_time-write_time}

-- The registers and the pointer, which wraps behind the last register, 0x12.
abbrev Registers : Type 0
Registers = (ℕ → ℕ) × ℕ

-- A byte written at the pointer: the time registers keep their bits of it, and the temperature in
-- 0x11 and 0x12 is not written.
abbrev put : ℕ → Registers → Registers
put v (f, p) = (
  λ k. if k == p && ltb p 0x11 then (if ltb p 7 then v % 2 ^ bits_held p else v) else f k,
  (p + 1) % 0x13,
)

abbrev put_all : List ℕ → Registers → Registers
put_all [] s = s
put_all (v ∷ vs) s = put_all vs (put v s)

abbrev read_all : ℕ → Registers → List ℕ × Registers
read_all zero s = ([], s)
read_all (suc n) (f, p) = let (bytes, s') = read_all n (f, (p + 1) % 0x13) in (f p ∷ bytes, s')

-- Only the chip acknowledges, and a transmission has at most 32 bytes.
abbrev send_to : ℕ → List ℕ → Registers → ℕ × Registers
send_to address [] s = (0, s)
send_to address (r ∷ vs) (f, p) =
    if not (address == 0x68)
    then (2, (f, p))
    else if ltb 31 (length vs)
    then (1, (f, p))
    else (0, put_all vs (f, r % 0x13))

abbrev file : Clock.Bus Registers
file = record {
  transmit = send_to;
  request = λ address n s. if address == 0x68 && ltb n 33 then read_all n s else ([], s);
}

put_all-before :
    (vs : List ℕ) (f : ℕ → ℕ) (p j : ℕ) → p + length vs ≤ 7 → j < p → (put_all vs (f, p)).0 j ≡ f j
put_all-before [] f p j h lt = refl
put_all-before (v ∷ vs) f p j h lt =
    let next : (p + 1) % 0x13 ≡ p + 1 = omega arith in
    ap (λ q. (put_all vs ((put v (f, p)).0, q)).0 j) next
    ∙ put_all-before vs (put v (f, p)).0 (p + 1) j (omega arith) (omega arith)
    ∙ ground arith

put_all-stored :
    (vs : List ℕ) (f : ℕ → ℕ) (p k : ℕ)
    → p + length vs ≤ 7
    → k < length vs
    → get_or vs k 0 < 2 ^ bits_held (p + k)
    → (put_all vs (f, p)).0 (p + k) ≡ get_or vs k 0
put_all-stored [] f p k h lt small = absurd (omega arith)
put_all-stored (v ∷ vs) f p zero h lt small =
    let next : (p + 1) % 0x13 ≡ p + 1 = omega arith in
    let here : p + 0 ≡ p = omega arith in
    let fits : v < 2 ^ bits_held p = rw here at small in
    ap (λ q. (put_all vs ((put v (f, p)).0, q)).0 (p + 0)) next
    ∙ put_all-before vs (put v (f, p)).0 (p + 1) (p + 0) (omega arith) (omega arith)
    ∙ ground (arith, fits, mod-eq_of_lt fits)
put_all-stored (v ∷ vs) f p (suc k) h lt small =
    let next : (p + 1) % 0x13 ≡ p + 1 = omega arith in
    let there : p + 1 + k ≡ p + suc k = omega arith in
    ap (λ q. (put_all vs ((put v (f, p)).0, q)).0 (p + suc k)) next
    ∙ ap (put_all vs ((put v (f, p)).0, p + 1)).0 {x = p + suc k} {y = p + 1 + k} (omega arith)
    ∙ put_all-stored vs (put v (f, p)).0 (p + 1) k (omega arith) (omega arith) (rw there small)

read_all-contents : (n : ℕ) (f : ℕ → ℕ) (p : ℕ) → p + n ≤ 7 → (read_all n (f, p)).0 ≡ contents f p n
read_all-contents zero f p h = refl
read_all-contents (suc n) f p h =
    let next : (p + 1) % 0x13 ≡ suc p = omega arith in
    rw next (ap (λ bytes. f p ∷ bytes) (read_all-contents n f (suc p) (omega arith)))

sent :
    (r : ℕ) (vs : List ℕ) (s : Registers)
    → r + length vs ≤ 7
    → send_to 0x68 (r ∷ vs) s ≡ (0, put_all vs (s.0, r))
sent r vs (f, p) h =
    let short : ltb 31 (length vs) ≡ false = ground arith in
    let low : r % 0x13 ≡ r = omega arith in rw (short, low) refl

file-Chip : Chip file
file-Chip = record {
  reg = λ s. s.0;
  pointer = λ s. s.1;
  acknowledged = λ r vs s h. ap (λ x. x.0) (sent r vs s h);
  stored = λ r vs s k h lt small.
      ap (λ x. x.1.0 (r + k)) (sent r vs s h) ∙ put_all-stored vs s.0 r k h lt small;
  pointed = λ r s h. ap (λ x. x.1.1) (sent r [] s (omega arith));
  kept = λ r s k h lt. ap (λ x. x.1.0 k) (sent r [] s (omega arith));
  answered = λ n s h.
      let short : ltb n 33 ≡ true = ground arith in rw short (read_all-contents n s.0 s.1 h);
}

abbrev zeros : Registers
zeros = ((λ k. 0), 0)

abbrev new_year : Clock.Rtc
new_year = record { s = 59; m = 58; h = 23; w = 5; d = 31; mo = 12; y = 15 }

new_year-IsTime : IsTime new_year
new_year-IsTime = record {
  second = omega arith;
  minute = omega arith;
  hour = omega arith;
  weekday = omega arith;
  day = omega arith;
  month = omega arith;
  year = omega arith;
}

read_time-write_time_example :
    ((Clock.write_time file new_year zeros).0 ≡ true)
    × ((Clock.read_time file (Clock.write_time file new_year zeros).1).0 ≡ some new_year)
read_time-write_time_example = read_time-write_time file file-Chip new_year zeros new_year-IsTime

bcd2dec-dec2bcd_example : bcd2dec (dec2bcd 42) ≡ 42
bcd2dec-dec2bcd_example = bcd2dec-dec2bcd 42 (omega arith)

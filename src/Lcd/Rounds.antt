-- ===== src/Lcd/Rounds.antt =====
-- The levels that `digitalWrite` puts on the wires of the display, and the eight rounds of `send`,
-- as the receiver sees them.
use ras_pi_arduino.Prelude.{
  ℕ, zero, suc, ◌+◌, ◌*◌, ◌%◌, ◌^◌, ◌<◌, ◌≡◌, ◌≢◌, refl, sym, ap, ◌∙◌, arith,
}
use ras_pi_arduino.Prelude.{Bool, true, false, not, none, some, List, [], ◌∷◌, ◌++◌}
use ras_pi_arduino.Prelude.{Bool-cases, ne→==-false, eq→==, inl, inr, ◌==◌, if◌then◌else◌, bit_and}
use ras_pi_arduino.Prelude.Bits.{test_bit, test_bit-lt, bit_and-two_pow}
use ras_pi_arduino.Prelude.Fields.{mod-top}
use ras_pi_arduino.Machine.{Machine}
use ras_pi_arduino.Gpio.{digital_write}
use ras_pi_arduino.Gpio.Levels.{drive, write_event, drive-write_event}
use ras_pi_arduino.Lcd.Bytes
use native.Mathlib.Nat.{one-le-pow, pow-suc}
use ras_pi_arduino.Lcd.Bus.{
  Bus, Word, word, take_bit, put_sck, observe, watch, watch-write, AreApart,
}

drive_self : (pin val : ℕ) → pin < 46 → drive (write_event pin val) pin ≡ some (not (val == 0))
drive_self pin val h = drive-write_event pin val pin h ∙ ground arith

pub drive_other : (pin val q : ℕ) → pin < 46 → pin ≢ q → drive (write_event pin val) q ≡ none
drive_other pin val q h apart =
    drive-write_event pin val q h ∙ ground (arith, apart, λ (e : q ≡ pin). sym e)

pub put_sck_same : (s : Bus) → put_sck s.sck s ≡ s
unfolding put_sck
put_sck_same s = same s.sck
  where
    same : (b : Bool) → put_sck b (record s { sck = b }) ≡ record s { sck = b }
    same true = refl
    same false = refl

lit : (b i : ℕ) → not ((if not (bit_and b (2 ^ i) == 0) then 1 else 0) == 0) ≡ (test_bit b i == 1)
lit b i = rw (bit_and-two_pow i b) (ground (arith, test_bit-lt b i, one-le-pow i 2))

module _ (pins : Bytes.Pins) (apart : AreApart pins) (s : Bus) where
  watch-mosi :
      (val : ℕ) (m : Machine)
      → watch pins (digital_write pins.mosi val m) s
        ≡ record (watch pins m s) { mosi = not (val == 0) }
  unfolding observe
  watch-mosi val m =
      watch-write pins pins.mosi val m s apart.mosi_pin
      ∙ rw
          (
            drive_self pins.mosi val apart.mosi_pin,
            drive_other pins.mosi val pins.sck apart.mosi_pin apart.mosi_sck,
            drive_other pins.mosi val pins.ss apart.mosi_pin apart.mosi_ss,
            drive_other pins.mosi val pins.dc apart.mosi_pin apart.mosi_dc,
          )
          (put_sck_same (record (watch pins m s) { mosi = not (val == 0) }))

  watch-sck :
      (val : ℕ) (m : Machine)
      → watch pins (digital_write pins.sck val m) s ≡ put_sck (not (val == 0)) (watch pins m s)
  unfolding observe
  watch-sck val m =
      watch-write pins pins.sck val m s apart.sck_pin
      ∙ rw
          (
            drive_self pins.sck val apart.sck_pin,
            drive_other pins.sck val pins.mosi apart.sck_pin (λ e. apart.mosi_sck (sym e)),
            drive_other pins.sck val pins.ss apart.sck_pin apart.sck_ss,
            drive_other pins.sck val pins.dc apart.sck_pin apart.sck_dc,
          )
          refl

  pub watch-ss :
      (val : ℕ) (m : Machine)
      → watch pins (digital_write pins.ss val m) s ≡ record (watch pins m s) { ss = not (val == 0) }
  unfolding observe
  watch-ss val m =
      watch-write pins pins.ss val m s apart.ss_pin
      ∙ rw
          (
            drive_self pins.ss val apart.ss_pin,
            drive_other pins.ss val pins.mosi apart.ss_pin (λ e. apart.mosi_ss (sym e)),
            drive_other pins.ss val pins.sck apart.ss_pin (λ e. apart.sck_ss (sym e)),
            drive_other pins.ss val pins.dc apart.ss_pin apart.ss_dc,
          )
          (put_sck_same (record (watch pins m s) { ss = not (val == 0) }))

  pub watch-dc :
      (val : ℕ) (m : Machine)
      → watch pins (digital_write pins.dc val m) s ≡ record (watch pins m s) { dc = not (val == 0) }
  unfolding observe
  watch-dc val m =
      watch-write pins pins.dc val m s apart.dc_pin
      ∙ rw
          (
            drive_self pins.dc val apart.dc_pin,
            drive_other pins.dc val pins.mosi apart.dc_pin (λ e. apart.mosi_dc (sym e)),
            drive_other pins.dc val pins.sck apart.dc_pin (λ e. apart.sck_dc (sym e)),
            drive_other pins.dc val pins.ss apart.dc_pin (λ e. apart.ss_dc (sym e)),
          )
          (put_sck_same (record (watch pins m s) { dc = not (val == 0) }))

  -- A round of `send`, seen from the receiver.
  watch-send_bit :
      (b i : ℕ) (m : Machine)
      → watch pins (Bytes.send_bit pins b i m) s
        ≡ put_sck false (
            put_sck false
              (put_sck true (put_sck true (record (watch pins m s) { mosi = test_bit b i == 1 }))))
  unfolding Bytes.send_bit
  watch-send_bit b i m =
      let on_data = digital_write pins.mosi (if not (bit_and b (2 ^ i) == 0) then 1 else 0) m in
      let up = digital_write pins.sck 1 on_data in
      let high = digital_write pins.sck 1 up in
      let down = digital_write pins.sck 0 high in
      watch-sck 0 down
      ∙ ap (put_sck false) (watch-sck 0 high)
      ∙ ap (λ t. put_sck false (put_sck false t)) (watch-sck 1 up)
      ∙ ap (λ t. put_sck false (put_sck false (put_sck true t))) (watch-sck 1 on_data)
      ∙ ap (λ t. put_sck false (put_sck false (put_sck true (put_sck true t))))
          (watch-mosi (if not (bit_and b (2 ^ i) == 0) then 1 else 0) m ∙ rw (lit b i) refl)

-- A selected receiver with a low clock, in the middle of a byte or between two.
abbrev pub mid : Bool → Bool → ℕ → ℕ → List Word → Bus
mid mosi dc count shifted ws = record {
  mosi = mosi;
  sck = false;
  ss = false;
  dc = dc;
  count = count;
  shifted = shifted;
  words = ws;
}

pulse :
    (mosi dc : Bool) (count shifted : ℕ) (ws : List Word)
    → put_sck false (put_sck false (put_sck true (put_sck true (mid mosi dc count shifted ws))))
      ≡ take_bit (mid mosi dc count shifted ws)
unfolding put_sck take_bit
pulse mosi dc count shifted ws = elim (Bool-cases (count == 7)) [
  | inl e ↦ rw e refl
  | inr e ↦ rw e refl
]

bit_of : (b i : ℕ) → (if test_bit b i == 1 then 1 else 0) ≡ test_bit b i
bit_of b i = ground (arith, test_bit-lt b i)

taken :
    (i b count shifted : ℕ) (dc : Bool) (ws : List Word)
    → count < 7
    → take_bit (mid (test_bit b i == 1) dc count shifted ws)
      ≡ mid (test_bit b i == 1) dc (count + 1) (shifted * 2 + test_bit b i) ws
unfolding take_bit
taken i b count shifted dc ws h = rw (ne→==-false count 7 (λ e. omega (arith, e)), bit_of b i) refl

taken_last :
    (b count shifted : ℕ) (dc : Bool) (ws : List Word)
    → count + 0 ≡ 7
    → take_bit (mid (test_bit b 0 == 1) dc count shifted ws)
      ≡ mid (test_bit b 0 == 1) dc 0 0 (ws ++ (word dc (shifted * 2 ^ 1 + b % 2 ^ 1) ∷ []))
unfolding take_bit
taken_last b count shifted dc ws h = rw (eq→== count 7 (omega arith), bit_of b 0) refl

module _ (pins : Bytes.Pins) (apart : AreApart pins) (s : Bus) where
  watch-pulse :
      (b i count shifted : ℕ) (mosi dc : Bool) (ws : List Word) (m : Machine)
      → watch pins m s ≡ mid mosi dc count shifted ws
      → watch pins (Bytes.send_bit pins b i m) s
        ≡ take_bit (mid (test_bit b i == 1) dc count shifted ws)
  watch-pulse b i count shifted mosi dc ws m before =
      watch-send_bit pins apart s b i m ∙ rw before (pulse (test_bit b i == 1) dc count shifted ws)

  -- The rounds that are left of a byte, from bit `i` down.
  pub watch-send_bits :
      (b i count shifted : ℕ) (mosi dc : Bool) (ws : List Word) (m : Machine)
      → count + i ≡ 7
      → watch pins m s ≡ mid mosi dc count shifted ws
      → (last : Bool) × (watch pins (Bytes.send_bits pins b (suc i) m) s
          ≡ mid last dc 0 0 (ws ++ (word dc (shifted * 2 ^ suc i + b % 2 ^ suc i) ∷ [])))
  unfolding Bytes.send_bits
  watch-send_bits b zero count shifted mosi dc ws m e before = (
    test_bit b 0 == 1,
    watch-pulse b 0 count shifted mosi dc ws m before ∙ taken_last b count shifted dc ws e,
  )
  watch-send_bits b (suc i) count shifted mosi dc ws m e before =
      let (last, done) =
        watch-send_bits b i (count + 1) (shifted * 2 + test_bit b (suc i)) (test_bit b (suc i) == 1)
          dc ws (Bytes.send_bit pins b (suc i) m) (omega arith)
          (watch-pulse b (suc i) count shifted mosi dc ws m before
            ∙ taken (suc i) b count shifted dc ws (omega arith)) in
      (
        last,
        done
            ∙ ap (λ n. mid last dc 0 0 (ws ++ (word dc n ∷ [])))
                (omega (arith, ap (λ (t : ℕ). shifted * t) (pow-suc 2 (suc i)), mod-top (suc i) b)),
      )

-- ===== src/Spi/Chip.antt =====
-- A chip on the bus, and the words that the code stores to SPI0CS.
use ras_pi_arduino.Prelude.{ℕ, ◌≡◌, ◌≢◌, refl, ap, ◌∙◌, arith}
use ras_pi_arduino.Prelude.{Bool, ◌&&◌, List, [], ◌∷◌, ◌++◌}
use ras_pi_arduino.Prelude.{◌==◌, if◌then◌else◌, bit_and, bit_or}
use ras_pi_arduino.Prelude.Bits.{complement, test_bit, test_bit-and, test_bit-or, test_bit-lt}
use ras_pi_arduino.Machine.{Machine, Event, stored, waited, store}
use ras_pi_arduino.Spi.{spi0cs, spi0fifo}

-- A chip that takes each byte that is stored to the FIFO while the transfer is active (TA, bit 7 of
-- SPI0CS), with the phase and the polarity of the clock (bits 2 and 3) at that moment.
pub record Chip : Type 0 where
  pub active : Bool
  pub phase : ℕ
  pub polarity : ℕ
  pub taken : List (ℕ × ℕ × ℕ)

unfoldable pub hear : Event → Chip → Chip
hear (waited n) s = s
hear (stored a v) s =
    if a == spi0cs
    then record s { active = test_bit v 7 == 1; phase = test_bit v 2; polarity = test_bit v 3 }
    else if a == spi0fifo && s.active
    then record s { taken = s.taken ++ ((v, s.phase, s.polarity) ∷ []) }
    else s

unfoldable pub hear_all : List Event → Chip → Chip
hear_all [] s = s
hear_all (e ∷ es) s = hear_all es (hear e s)

abbrev pub heard : Machine → Chip → Chip
heard m s = hear_all m.trace s

hear_all-append :
    (es : List Event) (e : Event) (s : Chip) → hear_all (es ++ (e ∷ [])) s ≡ hear e (hear_all es s)
unfolding hear_all
hear_all-append [] e s = refl
hear_all-append (f ∷ es) e s = hear_all-append es e (hear f s)

pub heard-store :
    (a v : ℕ) (m : Machine) (s : Chip) → heard (store a v m) s ≡ hear (stored a v) (heard m s)
unfolding store
heard-store a v m s = hear_all-append m.trace (stored a v) s

-- The words that transfer stores to SPI0CS.
abbrev pub active_word : ℕ → ℕ
active_word w = bit_or w (bit_or (bit_or 0x80 0x20) 0x10)

abbrev pub idle_word : ℕ → ℕ
idle_word w = bit_and w (complement 0x80)

module _ (w : ℕ) where
  pub active_bit : test_bit (active_word w) 7 ≡ 1
  active_bit = omega (arith, test_bit-or w 0xb0 7)

  pub active_phase : test_bit (active_word w) 2 ≡ test_bit w 2
  active_phase = omega (arith, test_bit-or w 0xb0 2)

  pub active_polarity : test_bit (active_word w) 3 ≡ test_bit w 3
  active_polarity = omega (arith, test_bit-or w 0xb0 3)

  pub idle_phase : test_bit (idle_word w) 2 ≡ test_bit w 2
  idle_phase = omega (arith, test_bit-and w (complement 0x80) 2, test_bit-lt w 2)

  pub idle_polarity : test_bit (idle_word w) 3 ≡ test_bit w 3
  idle_polarity = omega (arith, test_bit-and w (complement 0x80) 3, test_bit-lt w 3)

-- SPI0CS asks for this phase and polarity.
abbrev pub Asks : ℕ → Machine → Type 0
Asks mode m =
    (test_bit (m.mem spi0cs) 2 ≡ test_bit mode 2) × (test_bit (m.mem spi0cs) 3 ≡ test_bit mode 3)

-- A byte that is stored to the FIFO between two stores to SPI0CS, of which the first is active.
pub hear-byte :
    (a v i : ℕ) (s : Chip)
    → test_bit a 7 ≡ 1
    → (hear (stored spi0cs i) (hear (stored spi0fifo v) (hear (stored spi0cs a) s))).taken
      ≡ s.taken ++ ((v, test_bit a 2, test_bit a 3) ∷ [])
unfolding hear
hear-byte a v i s h = rw h refl

pub mode_bits :
    (w mode : ℕ)
    → (test_bit (bit_or (bit_and w (complement 0x0c)) mode) 2 ≡ test_bit mode 2)
      × (test_bit (bit_or (bit_and w (complement 0x0c)) mode) 3 ≡ test_bit mode 3)
mode_bits w mode = (
  omega
      (arith, test_bit-or (bit_and w (complement 0x0c)) mode 2, test_bit-and w (complement 0x0c) 2),
  omega
      (arith, test_bit-or (bit_and w (complement 0x0c)) mode 3, test_bit-and w (complement 0x0c) 3),
)

pub hear-other : (a v : ℕ) (s : Chip) → a ≢ spi0fifo → (hear (stored a v) s).taken ≡ s.taken
unfolding hear
hear-other a v s h = ground (arith, h)

pub taken-store :
    (a v : ℕ) (m : Machine) (s : Chip)
    → a ≢ spi0fifo
    → (heard (store a v m) s).taken ≡ (heard m s).taken
taken-store a v m s h = ap (λ c. c.taken) (heard-store a v m s) ∙ hear-other a v (heard m s) h

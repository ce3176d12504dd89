-- ===== src/Lcd/Bus.antt =====
-- A receiver on the wires of the display: while it is selected it takes the data wire at each rise
-- of the clock, the highest bit first, and after eight bits it has a word, which the level of the
-- mode wire makes a command or data.
use ras_pi_arduino.Prelude.{ℕ, ◌+◌, ◌*◌, ◌<◌, ◌≡◌, ◌≢◌, refl, ap, ◌∙◌}
use ras_pi_arduino.Prelude.{Bool, not, ◌&&◌, Option, none, some, List, [], ◌∷◌, ◌++◌}
use ras_pi_arduino.Prelude.{◌==◌, if◌then◌else◌}
use ras_pi_arduino.Machine.{Machine, Event}
use ras_pi_arduino.Gpio.{digital_write}
use ras_pi_arduino.Gpio.Levels.{drive, write_event, trace-digital_write}
use ras_pi_arduino.Lcd.Bytes

pub data Word : Type 0 where
  command : ℕ → Word
  datum : ℕ → Word

pub record Bus : Type 0 where
  pub mosi : Bool
  pub sck : Bool
  pub ss : Bool
  pub dc : Bool
  pub count : ℕ
  pub shifted : ℕ
  pub words : List Word

abbrev driven : Option Bool → Bool → Bool
driven none before = before
driven (some v) before = v

abbrev pub word : Bool → ℕ → Word
word dc b = if dc then datum b else command b

-- A bit that the receiver takes.
unfoldable pub take_bit : Bus → Bus
take_bit s =
    let value = s.shifted * 2 + (if s.mosi then 1 else 0) in
    if s.count == 7
    then record s { count = 0; shifted = 0; words = s.words ++ (word s.dc value ∷ []) }
    else record s { count = s.count + 1; shifted = value }

unfoldable pub put_sck : Bool → Bus → Bus
put_sck v s =
    let s' = record s { sck = v } in if v && not s.sck && not s.ss then take_bit s' else s'

module _ (pins : Bytes.Pins) where
  unfoldable pub observe : Event → Bus → Bus
  observe e s = put_sck (driven (drive e pins.sck) s.sck) (record s {
    mosi = driven (drive e pins.mosi) s.mosi;
    ss = driven (drive e pins.ss) s.ss;
    dc = driven (drive e pins.dc) s.dc;
  })

  unfoldable pub observe_all : List Event → Bus → Bus
  observe_all [] s = s
  observe_all (e ∷ es) s = observe_all es (observe e s)

  -- What a receiver that was in state `s` when the trace began has seen.
  abbrev pub watch : Machine → Bus → Bus
  watch m s = observe_all m.trace s

  pub observe_all-append :
      (es fs : List Event) (s : Bus) → observe_all (es ++ fs) s ≡ observe_all fs (observe_all es s)
  unfolding observe_all
  observe_all-append [] fs s = refl
  observe_all-append (e ∷ es) fs s = observe_all-append es fs (observe e s)

  pub watch-write :
      (pin val : ℕ) (m : Machine) (s : Bus)
      → pin < 46
      → watch (digital_write pin val m) s ≡ observe (write_event pin val) (watch m s)
  watch-write pin val m s h =
      ap (λ es. observe_all es s) (trace-digital_write pin val m h)
      ∙ observe_all-append m.trace (write_event pin val ∷ []) s
      ∙ (unfold observe_all in refl)

-- The wires are five different pins among the 46.
pub record AreApart (pins : Bytes.Pins) : Type 0 where
  pub mosi_pin : pins.mosi < 46
  pub sck_pin : pins.sck < 46
  pub ss_pin : pins.ss < 46
  pub dc_pin : pins.dc < 46
  pub rst_pin : pins.rst < 46
  pub mosi_sck : pins.mosi ≢ pins.sck
  pub mosi_ss : pins.mosi ≢ pins.ss
  pub mosi_dc : pins.mosi ≢ pins.dc
  pub sck_ss : pins.sck ≢ pins.ss
  pub sck_dc : pins.sck ≢ pins.dc
  pub ss_dc : pins.ss ≢ pins.dc
  pub rst_mosi : pins.rst ≢ pins.mosi
  pub rst_sck : pins.rst ≢ pins.sck
  pub rst_ss : pins.rst ≢ pins.ss
  pub rst_dc : pins.rst ≢ pins.dc

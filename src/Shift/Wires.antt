-- ===== src/Shift/Wires.antt =====
-- A receiver on a data wire and a clock wire: it takes the level of the data whenever the clock
-- rises.
use ras_pi_arduino.Prelude.{ℕ, ◌<◌, ◌≡◌, ◌≢◌, refl, ap, ◌∙◌, arith, Bool, not, ◌&&◌}
use ras_pi_arduino.Prelude.{Option, none, some, List, [], ◌∷◌, ◌++◌, ◌==◌, if◌then◌else◌}
use ras_pi_arduino.Machine.{Machine, Event, waited, wait}
use ras_pi_arduino.Gpio.{digital_write}
use ras_pi_arduino.Gpio.Levels.{drive, write_event, trace-digital_write, drive-write_event}

pub record Receiver : Type 0 where
  pub data_level : Bool
  pub clock_level : Bool
  pub taken : List Bool

abbrev pub driven : Option Bool → Bool → Bool
driven none before = before
driven (some v) before = v

-- A level put on one of the two wires.
unfoldable pub put_data : Bool → Receiver → Receiver
put_data v r = record r { data_level = v }

unfoldable pub put_clock : Bool → Receiver → Receiver
put_clock v r = record r {
  clock_level = v;
  taken = if v && not r.clock_level then r.taken ++ (r.data_level ∷ []) else r.taken;
}

module _ (data_pin clock_pin : ℕ) where
  unfoldable pub observe : Event → Receiver → Receiver
  observe e r =
      let d = driven (drive e data_pin) r.data_level in
      let c = driven (drive e clock_pin) r.clock_level in
      record {
        data_level = d;
        clock_level = c;
        taken = if c && not r.clock_level then r.taken ++ (d ∷ []) else r.taken;
      }

  unfoldable pub observe_all : List Event → Receiver → Receiver
  observe_all [] r = r
  observe_all (e ∷ es) r = observe_all es (observe e r)

  -- What a receiver that was in state `r` when the trace began has seen.
  abbrev pub watch : Machine → Receiver → Receiver
  watch m r = observe_all m.trace r

  observe_all-append :
      (es fs : List Event) (r : Receiver)
      → observe_all (es ++ fs) r ≡ observe_all fs (observe_all es r)
  unfolding observe_all
  observe_all-append [] fs r = refl
  observe_all-append (e ∷ es) fs r = observe_all-append es fs (observe e r)

  pub watch-wait : (n : ℕ) (m : Machine) (r : Receiver) → watch (wait n m) r ≡ watch m r
  unfolding wait observe observe_all
  watch-wait n m r = ground (arith, observe_all-append m.trace (waited n ∷ []) r)

  module _ (apart : data_pin ≢ clock_pin) where
    pub watch-write_data :
        (val : ℕ) (m : Machine) (r : Receiver)
        → data_pin < 46
        → watch (digital_write data_pin val m) r ≡ put_data (not (val == 0)) (watch m r)
    unfolding observe observe_all put_data
    watch-write_data val m r h =
        ap (λ es. observe_all es r) (trace-digital_write data_pin val m h)
        ∙ observe_all-append m.trace (write_event data_pin val ∷ []) r
        ∙ ground (
          arith,
          drive-write_event data_pin val data_pin h,
          drive-write_event data_pin val clock_pin h,
        )

    pub watch-write_clock :
        (val : ℕ) (m : Machine) (r : Receiver)
        → clock_pin < 46
        → watch (digital_write clock_pin val m) r ≡ put_clock (not (val == 0)) (watch m r)
    unfolding observe observe_all put_clock
    watch-write_clock val m r h =
        ap (λ es. observe_all es r) (trace-digital_write clock_pin val m h)
        ∙ observe_all-append m.trace (write_event clock_pin val ∷ []) r
        ∙ ground (
          arith,
          drive-write_event clock_pin val data_pin h,
          drive-write_event clock_pin val clock_pin h,
        )

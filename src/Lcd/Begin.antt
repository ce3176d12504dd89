-- ===== src/Lcd/Begin.antt =====
-- `begin`: the set-up of the pins, the reset, and the commands that start the display.
use ras_pi_arduino.Prelude.{ℕ, ◌*◌, ◌^◌, ◌<◌, ◌≡◌, refl, ap, ◌∙◌, arith}
use ras_pi_arduino.Prelude.{Bool, false, none, List, [], ◌∷◌, ◌++◌, append_assoc, bit_and, bit_or}
use ras_pi_arduino.Prelude.{◌==◌, if◌then◌else◌, Bool-cases, inl, inr}
use ras_pi_arduino.Prelude.Bits.{u8, complement}
use ras_pi_arduino.Machine.{Machine, Event, stored, waited, store, wait, gpfsel, gpfselb}
use ras_pi_arduino.Gpio.{pin_mode, select_function, digital_write}
use ras_pi_arduino.Gpio.Levels.{drive, write_event, trace-digital_write}
use ras_pi_arduino.Lcd.Bytes
use ras_pi_arduino.Lcd.Bus.{
  Bus, Word, command, AreApart, watch, observe, observe_all, observe_all-append,
}
use ras_pi_arduino.Lcd.Rounds.{put_sck_same, drive_other}
use ras_pi_arduino.Lcd.Sent.{
  Sent, Sent-as, Sent-select, Sent-deselect, Sent-data_mode, Sent-command_mode, Sent-send,
  Sent-send_from,
}
use ras_pi_arduino.Lcd.Words.{stream}
use ras_pi_arduino.Lcd.Transmit.{Received, received}

-- An event that leaves the four wires of the receiver as they are.
abbrev IsSilent : Bytes.Pins → Event → Type 0
IsSilent pins e =
    (drive e pins.mosi ≡ none)
    × (drive e pins.sck ≡ none)
    × (drive e pins.ss ≡ none)
    × (drive e pins.dc ≡ none)

observe-IsSilent :
    (pins : Bytes.Pins) (e : Event) (s : Bus) → IsSilent pins e → observe pins e s ≡ s
unfolding observe
observe-IsSilent pins e s h = rw (h.0, h.1, h.2, h.3) (put_sck_same s)

drive-store : (p w q : ℕ) → p < 46 → drive (stored (gpfsel p) w) q ≡ none
drive-store p w q h = ground arith

module _ (pins : Bytes.Pins) (apart : AreApart pins) (s : Bus) where
  Sent-event :
      {m m' : Machine} {ss dc : Bool} {ws : List Word} (e : Event)
      → IsSilent pins e
      → m'.trace ≡ m.trace ++ (e ∷ [])
      → Sent pins s m ss dc ws
      → Sent pins s m' ss dc ws
  unfolding observe_all
  Sent-event {m} {m'} e silent t h = record {
    mosi = h.mosi;
    seen =
        ap (λ es. observe_all pins es s) t
        ∙ observe_all-append pins m.trace (e ∷ []) s
        ∙ observe-IsSilent pins e (watch pins m s) silent
        ∙ h.seen;
  }

  Sent-wait :
      (n : ℕ) {m : Machine} {ss dc : Bool} {ws : List Word}
      → Sent pins s m ss dc ws
      → Sent pins s (wait n m) ss dc ws
  unfolding wait
  Sent-wait n h = Sent-event (waited n) (refl, refl, refl, refl) refl h

  Sent-store :
      (p w : ℕ) {m : Machine} {ss dc : Bool} {ws : List Word}
      → p < 46
      → Sent pins s m ss dc ws
      → Sent pins s (store (gpfsel p) w m) ss dc ws
  unfolding store
  Sent-store p w b h =
      Sent-event (stored (gpfsel p) w)
        (
          drive-store p w pins.mosi b,
          drive-store p w pins.sck b,
          drive-store p w pins.ss b,
          drive-store p w pins.dc b,
        )
        refl h

  -- A pin that becomes an output.
  Sent-pin_mode :
      (p : ℕ) {m : Machine} {ss dc : Bool} {ws : List Word}
      → p < 46
      → Sent pins s m ss dc ws
      → Sent pins s (pin_mode p 1 m) ss dc ws
  unfolding pin_mode select_function
  Sent-pin_mode p {m} b h =
      let cleared = bit_and (m.mem (gpfsel p)) (complement (0x07 * 2 ^ gpfselb p)) in
      Sent-store p
        (bit_or ((store (gpfsel p) cleared m).mem (gpfsel p)) (bit_and 1 0x07 * 2 ^ gpfselb p)) b
        (Sent-store p cleared b h)

  Sent-reset :
      (val : ℕ) {m : Machine} {ss dc : Bool} {ws : List Word}
      → Sent pins s m ss dc ws
      → Sent pins s (digital_write pins.rst val m) ss dc ws
  Sent-reset val {m} h =
      Sent-event (write_event pins.rst val)
        (
          drive_other pins.rst val pins.mosi apart.rst_pin apart.rst_mosi,
          drive_other pins.rst val pins.sck apart.rst_pin apart.rst_sck,
          drive_other pins.rst val pins.ss apart.rst_pin apart.rst_ss,
          drive_other pins.rst val pins.dc apart.rst_pin apart.rst_dc,
        )
        (trace-digital_write pins.rst val m apart.rst_pin) h

  Sent-two :
      (a b : ℕ) {m : Machine} {ws : List Word}
      → Sent pins s m false false ws
      → Sent pins s
          (Bytes.send pins b (Bytes.send pins a m))
          false
          false
          (ws ++ (command (u8 a) ∷ command (u8 b) ∷ []))
  Sent-two a b {m} {ws} h =
      Sent-as pins apart s (append_assoc ws (command (u8 a) ∷ []) (command (u8 b) ∷ []))
        (Sent-send pins apart s b (Sent-send pins apart s a h))

-- The commands for the voltage, which depend on the model of the chip.
abbrev pub voltage_words : ℕ → List Word
voltage_words model = if model == 1 then command 0xe0 ∷ command 0x05 ∷ [] else command 0xc2 ∷ []

abbrev pub begin_words : ℕ → List Word
begin_words model =
    (command 0x21 ∷ command 0x13 ∷ [])
    ++ (voltage_words model
        ++ ((command 0x20 ∷ command 0x09 ∷ [])
            ++ (stream (λ _. 0) 504
                ++ ((command 0x08 ∷ command 0x0c ∷ []) ++ (command 0x80 ∷ command 0x40 ∷ [])))))

seven_parts :
    (a b c d e f g : List Word)
    → ((((((a ++ b) ++ c) ++ d) ++ e) ++ f) ++ g) ≡ a ++ (b ++ (c ++ (d ++ (e ++ (f ++ g)))))
seven_parts a b c d e f g = simp append_assoc

module _ (pins : Bytes.Pins) (apart : AreApart pins) (s : Bus) where
  Sent-voltage :
      (model : ℕ) {m : Machine} {ws : List Word}
      → Sent pins s m false false ws
      → Sent pins s
          (if model == 1
            then Bytes.send pins 0x05 (Bytes.send pins 0xe0 m)
            else Bytes.send pins 0xc2 m)
          false
          false
          (ws ++ voltage_words model)
  Sent-voltage model h = elim (Bool-cases (model == 1)) [
    | inl e ↦ rw e (Sent-two pins apart s 0xe0 0x05 h)
    | inr e ↦ rw e (Sent-send pins apart s 0xc2 h)
  ]

  -- `begin` sends the commands of the set-up with the voltage of the model, 504 zeros as data, and
  -- the commands that show the display and put its address to the origin, to a receiver that is
  -- between two bytes with a low clock, and leaves it so and not selected.
  pub Received-begin :
      (model : ℕ) {m : Machine} {ss dc : Bool} {ws : List Word}
      → Sent pins s m ss dc ws
      → Received pins s (Bytes.begin pins model m) (ws ++ begin_words model)
  unfolding Bytes.begin Bytes.deselect
  Received-begin model {m} {ss} {dc} {ws} h =
      let outputs = Sent-pin_mode pins apart s pins.sck apart.sck_pin (
        Sent-pin_mode pins apart s pins.mosi apart.mosi_pin (
          Sent-pin_mode pins apart s pins.dc apart.dc_pin (
            Sent-pin_mode pins apart s pins.ss apart.ss_pin
              (Sent-pin_mode pins apart s pins.rst apart.rst_pin h)))) in
      let idle = Sent-deselect pins apart s (Sent-reset pins apart s 1 outputs) in
      let up =
        Sent-reset pins apart s 1
          (Sent-wait pins apart s (100 * 1000) (Sent-reset pins apart s 0 idle)) in
      let extended =
        Sent-two pins apart s 0x21 0x13
          (Sent-command_mode pins apart s (Sent-select pins apart s up)) in
      let plain = Sent-two pins apart s 0x20 0x09 (Sent-voltage model extended) in
      let zeros = Sent-send_from pins apart s (λ _. 0) 504 0 (Sent-data_mode pins apart s plain) in
      let shown =
        Sent-wait pins apart s (100 * 1000)
          (Sent-two pins apart s 0x08 0x0c (Sent-command_mode pins apart s zeros)) in
      received pins apart s
        (seven_parts ws (command 0x21 ∷ command 0x13 ∷ []) (voltage_words model)
          (command 0x20 ∷ command 0x09 ∷ []) (stream (λ _. 0) 504)
          (command 0x08 ∷ command 0x0c ∷ []) (command 0x80 ∷ command 0x40 ∷ []))
        (Sent-deselect pins apart s (Sent-two pins apart s 0x80 0x40 shown))

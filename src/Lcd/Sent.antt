-- ===== src/Lcd/Sent.antt =====
-- What the bytes of the driver come to at a receiver on its wires.
use ras_pi_arduino.Prelude.{ℕ, zero, suc, ◌+◌, ◌≡◌, refl, sym, ap, ◌∙◌, arith}
use ras_pi_arduino.Prelude.{Bool, true, false, List, [], ◌∷◌, ◌++◌, map, append_assoc, append-nil}
use ras_pi_arduino.Prelude.{subst, bit_or}
use ras_pi_arduino.Prelude.Bits.{u8}
use ras_pi_arduino.Machine.{Machine}
use ras_pi_arduino.Lcd.Bytes
use ras_pi_arduino.Lcd.Bus.{Bus, Word, command, word, watch, AreApart}
use ras_pi_arduino.Lcd.Rounds.{mid}
use ras_pi_arduino.Lcd.Rounds.{watch-ss, watch-dc, watch-send_bits}

-- `n` values of a function from `i` on.
unfoldable pub values : (ℕ → ℕ) → ℕ → ℕ → List ℕ
values f zero i = []
values f (suc n) i = f i ∷ values f n (i + 1)

-- The receiver is between two bytes, and has all of `ws`.
pub record Sent (pins : Bytes.Pins) (s : Bus) (m : Machine) (ss dc : Bool) (ws : List Word)
    : Type 0 where
  pub mosi : Bool
  pub seen : watch pins m s ≡ record (mid mosi dc 0 0 ws) { ss = ss }

module _ (pins : Bytes.Pins) (apart : AreApart pins) (s : Bus) where
  pub Sent-as :
      {m : Machine} {ss dc : Bool} {ws ws' : List Word}
      → ws ≡ ws'
      → Sent pins s m ss dc ws
      → Sent pins s m ss dc ws'
  Sent-as {m} {ss} {dc} e h = subst (Sent pins s m ss dc) e h

  pub Sent-select :
      {m : Machine} {ss dc : Bool} {ws : List Word}
      → Sent pins s m ss dc ws
      → Sent pins s (Bytes.select pins m) false dc ws
  unfolding Bytes.select
  Sent-select {m} h = record { mosi = h.mosi; seen = watch-ss pins apart s 0 m ∙ rw h.seen refl }

  pub Sent-deselect :
      {m : Machine} {ss dc : Bool} {ws : List Word}
      → Sent pins s m ss dc ws
      → Sent pins s (Bytes.deselect pins m) true dc ws
  unfolding Bytes.deselect
  Sent-deselect {m} h = record { mosi = h.mosi; seen = watch-ss pins apart s 1 m ∙ rw h.seen refl }

  pub Sent-command_mode :
      {m : Machine} {ss dc : Bool} {ws : List Word}
      → Sent pins s m ss dc ws
      → Sent pins s (Bytes.command_mode pins m) ss false ws
  unfolding Bytes.command_mode
  Sent-command_mode {m} h = record {
    mosi = h.mosi;
    seen = watch-dc pins apart s 0 m ∙ rw h.seen refl;
  }

  pub Sent-data_mode :
      {m : Machine} {ss dc : Bool} {ws : List Word}
      → Sent pins s m ss dc ws
      → Sent pins s (Bytes.data_mode pins m) ss true ws
  unfolding Bytes.data_mode
  Sent-data_mode {m} h = record { mosi = h.mosi; seen = watch-dc pins apart s 1 m ∙ rw h.seen refl }

  pub Sent-send :
      {m : Machine} {dc : Bool} {ws : List Word} (b : ℕ)
      → Sent pins s m false dc ws
      → Sent pins s (Bytes.send pins b m) false dc (ws ++ (word dc (u8 b) ∷ []))
  unfolding Bytes.send
  Sent-send {m} {dc} {ws} b h =
      let (last, done) = watch-send_bits pins apart s b 7 0 0 h.mosi dc ws m refl h.seen in
      record {
        mosi = last;
        seen = done ∙ ap (λ n. mid last dc 0 0 (ws ++ (word dc n ∷ []))) {y = u8 b} (omega arith);
      }

  pub Sent-send_from :
      (bytes : ℕ → ℕ) (n i : ℕ) {m : Machine} {dc : Bool} {ws : List Word}
      → Sent pins s m false dc ws
      → Sent pins s
          (Bytes.send_from pins bytes n i m)
          false
          dc
          (ws ++ map (λ b. word dc (u8 b)) (values bytes n i))
  unfolding Bytes.send_from values
  Sent-send_from bytes zero i {m} {dc} {ws} h = Sent-as (sym (append-nil ws)) h
  Sent-send_from bytes (suc n) i {m} {dc} {ws} h =
      Sent-as
        (append_assoc ws (word dc (u8 (bytes i)) ∷ [])
          (map (λ b. word dc (u8 b)) (values bytes n (i + 1))))
        (Sent-send_from bytes n (i + 1) (Sent-send (bytes i) h))

  pub Sent-address :
      (column line : ℕ) {m : Machine} {dc : Bool} {ws : List Word}
      → Sent pins s m false dc ws
      → Sent pins s
          (Bytes.address pins column line m)
          false
          false
          (ws ++ (command (u8 (bit_or 0x80 column)) ∷ command (u8 (bit_or 0x40 line)) ∷ []))
  unfolding Bytes.address
  Sent-address column line {m} {dc} {ws} h =
      Sent-as
        (append_assoc ws (command (u8 (bit_or 0x80 column)) ∷ [])
          (command (u8 (bit_or 0x40 line)) ∷ []))
        (Sent-send (bit_or 0x40 line) (Sent-send (bit_or 0x80 column) (Sent-command_mode h)))

-- ===== src/Lcd/Transmit.antt =====
-- Every call of the display's driver sends the words that it is for.
use ras_pi_arduino.Prelude.{ℕ, zero, suc, ◌+◌, ◌*◌, ◌%◌, ◌≡◌, refl, sym, ap, ◌∙◌}
use ras_pi_arduino.Prelude.{Bool, true, false, List, [], ◌∷◌, ◌++◌, append_assoc}
use ras_pi_arduino.Prelude.{append-nil, get_or}
use ras_pi_arduino.Prelude.Bits.{u8}
use ras_pi_arduino.Machine.{Machine}
use ras_pi_arduino.Lcd.Bytes
use ras_pi_arduino.Lcd.Bus.{Bus, Word, command, datum, AreApart}
use ras_pi_arduino.Lcd.Sent.{
  Sent, Sent-as, Sent-select, Sent-deselect, Sent-data_mode, Sent-command_mode, Sent-send,
  Sent-send_from, Sent-address,
}
use ras_pi_arduino.Lcd.Words.{at, stream, wiped, row_words}

-- The receiver has the words `ws`, and is not selected.
pub record Received (pins : Bytes.Pins) (s : Bus) (m : Machine) (ws : List Word) : Type 0 where
  pub dc : Bool
  pub sent : Sent pins s m true dc ws

module _ (pins : Bytes.Pins) (apart : AreApart pins) (s : Bus) where
  pub received :
      {m : Machine} {dc : Bool} {ws ws' : List Word}
      → ws ≡ ws'
      → Sent pins s m true dc ws
      → Received pins s m ws'
  received {m} {dc} {ws} {ws'} e h = record { dc = dc; sent = Sent-as pins apart s e h }

  pub Received-send_cmd :
      (b : ℕ) {m : Machine} {ws : List Word}
      → Received pins s m ws
      → Received pins s (Bytes.send_cmd pins b m) (ws ++ (command (u8 b) ∷ []))
  unfolding Bytes.send_cmd
  Received-send_cmd b h = received refl (
      Sent-deselect pins apart s (
        Sent-send pins apart s b
          (Sent-command_mode pins apart s (Sent-select pins apart s h.sent))))

  pub Received-send_address :
      (column line : ℕ) {m : Machine} {ws : List Word}
      → Received pins s m ws
      → Received pins s (Bytes.send_address pins column line m) (ws ++ at (column % 84) (line % 6))
  unfolding Bytes.send_address
  Received-send_address column line h = received refl (
      Sent-deselect pins apart s
        (Sent-address pins apart s (column % 84) (line % 6) (Sent-select pins apart s h.sent)))

  pub Received-wipe :
      (n line : ℕ) {m : Machine} {ws : List Word}
      → Received pins s m ws
      → Received pins s (Bytes.wipe pins n line m) (ws ++ wiped n line)
  unfolding Bytes.wipe
  Received-wipe n line {m} {ws} h =
      received
        (append_assoc (ws ++ at 0 line) (stream (λ _. 0) n) (at 0 line)
          ∙ append_assoc ws (at 0 line) (stream (λ _. 0) n ++ at 0 line))
        (Sent-deselect pins apart s (
          Sent-address pins apart s 0 line (
            Sent-send_from pins apart s (λ _. 0) n 0
              (Sent-data_mode pins apart s
                (Sent-address pins apart s 0 line (Sent-select pins apart s h.sent))))))

  pub Received-write_byte :
      (column line b : ℕ) {m : Machine} {ws : List Word}
      → Received pins s m ws
      → Received pins s
          (Bytes.write_byte pins column line b m)
          (ws ++ (at (column % 84) (line % 6) ++ (datum (u8 b) ∷ [])))
  unfolding Bytes.write_byte
  Received-write_byte column line b {m} {ws} h =
      received (append_assoc ws (at (column % 84) (line % 6)) (datum (u8 b) ∷ [])) (
        Sent-deselect pins apart s (
          Sent-send pins apart s b (
            Sent-data_mode pins apart s (
              Sent-address pins apart s (column % 84) (line % 6)
                (Sent-select pins apart s h.sent)))))

  pub Received-write_buf :
      (bytes : List ℕ) {m : Machine} {ws : List Word}
      → Received pins s m ws
      → Received pins s
          (Bytes.write_buf pins bytes m)
          (ws ++ (at 0 0 ++ stream (λ i. get_or bytes i 0) 504))
  unfolding Bytes.write_buf
  Received-write_buf bytes {m} {ws} h =
      received
        (ap (λ l. l ++ stream (λ i. get_or bytes i 0) 504)
            (append_assoc ws (command 0x80 ∷ []) (command 0x40 ∷ []))
          ∙ append_assoc ws (at 0 0) (stream (λ i. get_or bytes i 0) 504))
        (Sent-deselect pins apart s (
          Sent-send_from pins apart s (λ i. get_or bytes i 0) 504 0
            (Sent-data_mode pins apart s (
              Sent-send pins apart s 0x40 (
                Sent-send pins apart s 0x80
                  (Sent-command_mode pins apart s (Sent-select pins apart s h.sent)))))))

  pub Sent-draw_rows :
      (bytes : ℕ → ℕ) (columns mx scolumn sline n y : ℕ) {m : Machine} {dc : Bool} {ws : List Word}
      → Sent pins s m false dc ws
      → (dc' : Bool) × Sent pins s
          (Bytes.draw_rows pins bytes columns mx scolumn sline n y m)
          false
          dc'
          (ws ++ row_words bytes columns mx scolumn sline n y)
  unfolding Bytes.draw_rows row_words
  Sent-draw_rows bytes columns mx scolumn sline zero y {m} {dc} {ws} h =
      (dc, Sent-as pins apart s (sym (append-nil ws)) h)
  Sent-draw_rows bytes columns mx scolumn sline (suc n) y {m} {dc} {ws} h =
      let row =
        Sent-send_from pins apart s (λ x. bytes (y * columns + x)) mx 0
          (Sent-data_mode pins apart s (Sent-address pins apart s scolumn (sline + y) h)) in
      let (dc', rest) = Sent-draw_rows bytes columns mx scolumn sline n (y + 1) row in
      (
        dc',
        Sent-as pins apart s
            (append_assoc (ws ++ at scolumn (sline + y)) (stream (λ x. bytes (y * columns + x)) mx)
                (row_words bytes columns mx scolumn sline n (y + 1))
              ∙ append_assoc ws (at scolumn (sline + y)) (
                  stream (λ x. bytes (y * columns + x)) mx
                  ++ row_words bytes columns mx scolumn sline n (y + 1)))
            rest,
      )

-- ===== src/Lcd/Calls.antt =====
-- Sequences of calls of the display's driver.
use ras_pi_arduino.Prelude.{ℕ, ◌+◌, ◌*◌, ◌/◌, ◌%◌, ◌≡◌, refl, sym, ap, ap₂, ◌∙◌, arith}
use ras_pi_arduino.Prelude.{true, false, List, [], ◌∷◌, ◌++◌, append_assoc}
use ras_pi_arduino.Prelude.{
  append-nil, subst, ltb, leb, ◌==◌, if◌then◌else◌, get_or, Bool-cases, inl, inr,
}
use ras_pi_arduino.Prelude.Bits.{u8}
use ras_pi_arduino.Machine.{Machine}
use ras_pi_arduino.Lcd
use ras_pi_arduino.Lcd.Bytes
use ras_pi_arduino.Lcd.Bus.{Bus, Word, command, datum, AreApart}
use ras_pi_arduino.Lcd.Sent.{
  Sent-select, Sent-deselect, Sent-data_mode, Sent-send, Sent-send_from, Sent-address,
}
use ras_pi_arduino.Lcd.Words.{
  Call, call, call_all, at, stream, wiped, char_words, text_words, row_words, words, clipped,
}
use ras_pi_arduino.Lcd.Words.{
  set_cursor, clear_line, clear_all, display, no_display, draw, home, stop, create_char, write_char,
  write_text, draw_bitmap, set_pixel, set_power, set_inverse,
}
use ras_pi_arduino.Lcd.Transmit.{
  Received, Received-send_cmd, Received-send_address, Received-wipe, Received-write_byte,
  Received-write_buf, Sent-draw_rows, received,
}

Received-as :
    {pins : Bytes.Pins} {s : Bus} {m : Machine} {ws ws' : List Word}
    → ws ≡ ws'
    → Received pins s m ws
    → Received pins s m ws'
Received-as {pins} {s} {m} e h = subst (Received pins s m) e h

text_words-cursor :
    (text : List ℕ) (d : Lcd.Lcd) (column line : ℕ)
    → text_words (record d { column = column; line = line }) text ≡ text_words d text
unfolding text_words Lcd.glyph_of
text_words-cursor [] d column line = refl
text_words-cursor (c ∷ text) d column line =
    ap (λ l. char_words d c ++ l) (text_words-cursor text d column line)

write_char-cursor :
    (chr : ℕ) (d : Lcd.Lcd) (m : Machine)
    → (column line : ℕ) × ((Lcd.write_char chr (d, m)).0
        ≡ record d { column = column; line = line })
unfolding Lcd.write_char
write_char-cursor chr d m = elim (Bool-cases (leb 0x80 chr)) [
  | inl e ↦ (d.column, d.line, rw e refl)
  | inr e ↦ (
    u8 ((d.column + 6) % 84),
    (if u8 ((d.column + 6) % 84) == 0 then (d.line + 1) % 6 else d.line),
    rw e refl,
  )
]

module _ (s : Bus) where
  Received-write_char :
      (chr : ℕ) (d : Lcd.Lcd) {m : Machine} {ws : List Word}
      → AreApart d.pins
      → Received d.pins s m ws
      → Received d.pins s (Lcd.write_char chr (d, m)).1 (ws ++ char_words d chr)
  unfolding Lcd.write_char
  Received-write_char chr d {m} {ws} apart h = elim (Bool-cases (leb 0x80 chr)) [
    | inl e ↦ rw e (Received-as (sym (append-nil ws)) h)
    | inr e ↦ rw e (
        received d.pins apart s
          (append_assoc ws (stream (λ i. get_or (Lcd.glyph_of d chr) i 0) 5) (datum 0 ∷ []))
          (Sent-deselect d.pins apart s (
            Sent-send d.pins apart s 0 (
              Sent-send_from d.pins apart s (λ i. get_or (Lcd.glyph_of d chr) i 0) 5 0
                (Sent-data_mode d.pins apart s (Sent-select d.pins apart s h.sent))))))
  ]

  Received-write_text :
      (text : List ℕ) (d : Lcd.Lcd) {m : Machine} {ws : List Word}
      → AreApart d.pins
      → Received d.pins s m ws
      → Received d.pins s (Lcd.write_text text (d, m)).1 (ws ++ text_words d text)
  unfolding Lcd.write_text text_words
  Received-write_text [] d {m} {ws} apart h = Received-as (sym (append-nil ws)) h
  Received-write_text (c ∷ text) d {m} {ws} apart h =
      let (column, line, moved) = write_char-cursor c d m in
      let d' = record d { column = column; line = line } in
      let m' = (Lcd.write_char c (d, m)).1 in
      let now = Received-write_char c d apart h in
      let rest : Received d.pins s (Lcd.write_text text (d', m')).1
          ((ws ++ char_words d c) ++ text_words d' text) =
        Received-write_text text d' apart now in
      subst
        (λ e.
          Received d.pins s (Lcd.write_text text (e, m')).1
            (ws ++ (char_words d c ++ text_words d text)))
        (sym moved)
        (Received-as
          (append_assoc ws (char_words d c) (text_words d' text)
            ∙ ap (λ l. ws ++ (char_words d c ++ l)) (text_words-cursor text d column line))
          rest)

  Received-draw_bitmap :
      (bytes : ℕ → ℕ) (columns lines : ℕ) (d : Lcd.Lcd) {m : Machine} {ws : List Word}
      → AreApart d.pins
      → Received d.pins s m ws
      → Received d.pins s
          (Lcd.draw_bitmap bytes columns lines (d, m)).1
          (ws ++ words (draw_bitmap bytes columns lines) d)
  unfolding Lcd.draw_bitmap words
  Received-draw_bitmap bytes columns lines d {m} {ws} apart h =
      let (dc, rows) =
        Sent-draw_rows d.pins apart s bytes columns (clipped 84 d.column columns) d.column d.line
          (clipped 6 d.line lines) 0 (Sent-select d.pins apart s h.sent) in
      received d.pins apart s
        (append_assoc ws
          (row_words bytes columns (clipped 84 d.column columns) d.column d.line
            (clipped 6 d.line lines) 0)
          (at (d.column + columns) d.line))
        (Sent-deselect d.pins apart s
          (Sent-address d.pins apart s (d.column + columns) d.line rows))

  Received-call :
      (c : Call) (d : Lcd.Lcd) {m : Machine} {ws : List Word}
      → AreApart d.pins
      → Received d.pins s m ws
      → Received d.pins s (call c (d, m)).1 (ws ++ words c d)
  unfolding call words Lcd.set_cursor Lcd.clear_line Lcd.clear_all Lcd.display Lcd.no_display
      Lcd.draw Lcd.home Lcd.stop Lcd.create_char Lcd.set_pixel Lcd.set_power Lcd.set_inverse
  Received-call (set_cursor column line) d apart h =
      Received-send_address d.pins apart s column line h
  Received-call clear_line d apart h = Received-wipe d.pins apart s 84 d.line h
  Received-call clear_all d apart h = Received-wipe d.pins apart s 504 0 h
  Received-call display d apart h = Received-send_cmd d.pins apart s 0x20 h
  Received-call no_display d apart h = Received-send_cmd d.pins apart s 0x24 h
  Received-call draw d apart h = Received-write_buf d.pins apart s d.buffer h
  Received-call home d apart h = Received-send_address d.pins apart s 0 d.line h
  Received-call stop d {m} {ws} apart h =
      Received-as (append_assoc ws (wiped 504 0) (command 0x24 ∷ []))
        (Received-send_cmd d.pins apart s 0x24 (Received-wipe d.pins apart s 504 0 h))
  Received-call (create_char chr glyph) d {m} {ws} apart h = elim (Bool-cases (ltb 31 chr)) [
    | inl e ↦ rw e (Received-as (sym (append-nil ws)) h)
    | inr e ↦ rw e (Received-as (sym (append-nil ws)) h)
  ]
  Received-call (write_char chr) d apart h = Received-write_char chr d apart h
  Received-call (write_text text) d apart h = Received-write_text text d apart h
  Received-call (draw_bitmap bytes columns lines) d apart h =
      Received-draw_bitmap bytes columns lines d apart h
  Received-call (set_pixel x y value false) d {m} {ws} apart h = Received-as (sym (append-nil ws)) h
  Received-call (set_pixel x y value true) d {m} {ws} apart h =
      let column : x % 84 % 84 ≡ x % 84 = omega arith in
      let line : y / 8 % 6 % 6 ≡ y / 8 % 6 = omega arith in
      let byte = Lcd.with_pixel y value (get_or d.buffer (x % 84 + y / 8 % 6 * 84) 0) in
      Received-as (ap₂ (λ a b. ws ++ (at a b ++ (datum (u8 byte) ∷ []))) column line)
        (Received-write_byte d.pins apart s (x % 84) (y / 8 % 6) byte h)
  Received-call (set_power true) d apart h = Received-send_cmd d.pins apart s 0x20 h
  Received-call (set_power false) d apart h = Received-send_cmd d.pins apart s 0x24 h
  Received-call (set_inverse true) d apart h = Received-send_cmd d.pins apart s 0x0d h
  Received-call (set_inverse false) d apart h = Received-send_cmd d.pins apart s 0x0c h

unfoldable pub words_all : List Call → Lcd.Lcd × Machine → List Word
words_all [] s = []
words_all (c ∷ cs) (d, m) = words c d ++ words_all cs (call c (d, m))

write_text-pins :
    (text : List ℕ) (d : Lcd.Lcd) (m : Machine) → (Lcd.write_text text (d, m)).0.pins ≡ d.pins
unfolding Lcd.write_text
write_text-pins [] d m = refl
write_text-pins (c ∷ text) d m =
    let (d', m') = Lcd.write_char c (d, m) in
    let (column, line, moved) = write_char-cursor c d m in
    write_text-pins text d' m' ∙ ap (λ (e : Lcd.Lcd). e.pins) moved

-- The pins of the driver never change.
call-pins : (c : Call) (d : Lcd.Lcd) (m : Machine) → (call c (d, m)).0.pins ≡ d.pins
unfolding call Lcd.set_cursor Lcd.clear_line Lcd.clear_all Lcd.display Lcd.no_display Lcd.draw
    Lcd.home Lcd.stop Lcd.create_char Lcd.draw_bitmap Lcd.set_pixel Lcd.set_power Lcd.set_inverse
call-pins (set_cursor column line) d m = refl
call-pins clear_line d m = refl
call-pins clear_all d m = refl
call-pins display d m = refl
call-pins no_display d m = refl
call-pins draw d m = refl
call-pins home d m = refl
call-pins stop d m = refl
call-pins (create_char chr glyph) d m = ground arith
call-pins (write_char chr) d m =
    let (column, line, moved) = write_char-cursor chr d m in ap (λ (e : Lcd.Lcd). e.pins) moved
call-pins (write_text text) d m = write_text-pins text d m
call-pins (draw_bitmap bytes columns lines) d m = refl
call-pins (set_pixel x y value write_it) d m = refl
call-pins (set_power on) d m = refl
call-pins (set_inverse inverse) d m = refl

-- Whatever calls are made, a receiver on the five pins, which was between two bytes, not selected
-- and with a low clock, gets exactly the words that the calls are for, in order, and is left so.
pub words-call_all :
    (cs : List Call) (d : Lcd.Lcd) (m : Machine) (s : Bus) (ws : List Word)
    → AreApart d.pins
    → Received d.pins s m ws
    → Received d.pins s (call_all cs (d, m)).1 (ws ++ words_all cs (d, m))
unfolding call_all words_all
words-call_all [] d m s ws apart h = Received-as (sym (append-nil ws)) h
words-call_all (c ∷ cs) d m s ws apart h =
    let (d', m') = call c (d, m) in
    let same : d'.pins ≡ d.pins = call-pins c d m in
    let now : Received d'.pins s m' (ws ++ words c d) =
      subst (λ p. Received p s m' (ws ++ words c d)) (sym same) (Received-call s c d apart h) in
    Received-as (append_assoc ws (words c d) (words_all cs (d', m'))) (
      subst
        (λ p. Received p s (call_all cs (d', m')).1 ((ws ++ words c d) ++ words_all cs (d', m')))
        same (words-call_all cs d' m' s (ws ++ words c d) (subst AreApart (sym same) apart) now))

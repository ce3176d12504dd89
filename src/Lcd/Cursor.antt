-- ===== src/Lcd/Cursor.antt =====
-- The cursor that the display's driver keeps.
use ras_pi_arduino.Prelude.{ℕ, suc, ◌+◌, ◌*◌, ◌/◌, ◌%◌, ◌<◌, ◌≡◌, refl, sym, ap, ◌∙◌, arith}
use ras_pi_arduino.Prelude.{List, [], ◌∷◌, leb, ◌==◌, if◌then◌else◌, subst}
use ras_pi_arduino.Prelude.{Bool-cases, inl, inr}
use ras_pi_arduino.Machine.{Machine}
use ras_pi_arduino.Lcd
use ras_pi_arduino.Lcd.Words.{Call, call}
use ras_pi_arduino.Lcd.Words.{
  set_cursor, clear_line, clear_all, display, no_display, draw, home, stop, create_char, write_char,
  write_text, draw_bitmap, set_pixel, set_power, set_inverse,
}

-- The display has six lines of 14 characters; a cursor that stands at one of them.
abbrev pub cell : Lcd.Lcd → ℕ
cell d = d.line * 14 + d.column / 6

abbrev pub AtCell : Lcd.Lcd → Type 0
AtCell d = (d.column % 6 ≡ 0) × (d.column < 84) × (d.line < 6)

-- Where the cursor is after a character that is shown.
advanced : Lcd.Lcd → Lcd.Lcd
advanced d =
    let column = (d.column + 6) % 84 in
    record d { column = column; line = if column == 0 then (d.line + 1) % 6 else d.line }

write_char-advanced :
    (c : ℕ) (d : Lcd.Lcd) (m : Machine)
    → (Lcd.write_char c (d, m)).0 ≡ (if leb 0x80 c then d else advanced d)
unfolding Lcd.write_char advanced
write_char-advanced c d m =
    let byte : (d.column + 6) % 84 % 256 ≡ (d.column + 6) % 84 = omega arith in
    elim (Bool-cases (leb 0x80 c)) [ inl e ↦ rw e refl | inr e ↦ rw (e, byte) refl ]

-- The characters of a text that have a glyph.
abbrev pub shown : List ℕ → ℕ
shown [] = 0
shown (c ∷ text) = if leb 0x80 c then shown text else suc (shown text)

write_char-AtCell :
    (c : ℕ) (d : Lcd.Lcd) (m : Machine) → AtCell d → AtCell (Lcd.write_char c (d, m)).0
unfolding advanced
write_char-AtCell c d m h =
    subst AtCell (sym (write_char-advanced c d m)) (elim (Bool-cases (leb 0x80 c)) [
      | inl e ↦ rw e h
      | inr e ↦ rw e (omega arith, omega arith, ground (arith, h))
    ])

cell-write_char :
    (c : ℕ) (d : Lcd.Lcd) (m : Machine)
    → AtCell d
    → cell (Lcd.write_char c (d, m)).0 ≡ (if leb 0x80 c then cell d else (cell d + 1) % 84)
unfolding advanced
cell-write_char c d m h =
    ap cell (write_char-advanced c d m)
    ∙ elim (Bool-cases (leb 0x80 c)) [ inl e ↦ rw e refl | inr e ↦ rw e (ground (arith, h)) ]

-- `write` moves the cursor by one character for each one that is shown: from the end of a line to
-- the next one, and from the last line to the first; the cursor stands at a character before.
pub cell-write_text :
    (text : List ℕ) (d : Lcd.Lcd) (m : Machine)
    → AtCell d
    → (AtCell (Lcd.write_text text (d, m)).0)
      × (cell (Lcd.write_text text (d, m)).0 ≡ (cell d + shown text) % 84)
unfolding Lcd.write_text
cell-write_text [] d m h = (h, omega (arith, h))
cell-write_text (c ∷ text) d m h =
    let (d', m') = Lcd.write_char c (d, m) in
    let rest = cell-write_text text d' m' (write_char-AtCell c d m h) in
    (rest.0, rest.1 ∙ ground (arith, cell-write_char c d m h))

-- The cursor is on the display.
abbrev pub InRange : Lcd.Lcd → Type 0
InRange d = (d.column < 84) × (d.line < 6)

write_char-InRange :
    (c : ℕ) (d : Lcd.Lcd) (m : Machine) → InRange d → InRange (Lcd.write_char c (d, m)).0
unfolding advanced
write_char-InRange c d m h =
    subst InRange (sym (write_char-advanced c d m)) (elim (Bool-cases (leb 0x80 c)) [
      | inl e ↦ rw e h
      | inr e ↦ rw e (omega arith, ground (arith, h))
    ])

write_text-InRange :
    (text : List ℕ) (d : Lcd.Lcd) (m : Machine) → InRange d → InRange (Lcd.write_text text (d, m)).0
unfolding Lcd.write_text
write_text-InRange [] d m h = h
write_text-InRange (c ∷ text) d m h =
    let (d', m') = Lcd.write_char c (d, m) in
    write_text-InRange text d' m' (write_char-InRange c d m h)

-- A bitmap that ends before the right edge.
abbrev pub Fits : Lcd.Lcd → Call → Type 0
Fits d (draw_bitmap bytes columns lines) = d.column + columns < 84
Fits d c = Unit

-- Every call keeps the cursor on the display, a bitmap if it ends before the right edge.
pub call-InRange :
    (c : Call) (d : Lcd.Lcd) (m : Machine) → InRange d → Fits d c → InRange (call c (d, m)).0
unfolding call Lcd.set_cursor Lcd.clear_line Lcd.clear_all Lcd.display Lcd.no_display Lcd.draw
    Lcd.home Lcd.stop Lcd.create_char Lcd.draw_bitmap Lcd.set_pixel Lcd.set_power Lcd.set_inverse
call-InRange (set_cursor column line) d m h fits = h
call-InRange clear_line d m h fits = (omega arith, h.1)
call-InRange clear_all d m h fits = (omega arith, omega arith)
call-InRange display d m h fits = h
call-InRange no_display d m h fits = h
call-InRange draw d m h fits = h
call-InRange home d m h fits = h
call-InRange stop d m h fits = (omega arith, omega arith)
call-InRange (create_char chr glyph) d m h fits = ground (arith, h)
call-InRange (write_char chr) d m h fits = write_char-InRange chr d m h
call-InRange (write_text text) d m h fits = write_text-InRange text d m h
call-InRange (draw_bitmap bytes columns lines) d m h fits = (ground (arith, fits), h.1)
call-InRange (set_pixel x y value write_it) d m h fits = h
call-InRange (set_power on) d m h fits = h
call-InRange (set_inverse inverse) d m h fits = h

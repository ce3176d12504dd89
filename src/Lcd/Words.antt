-- ===== src/Lcd/Words.antt =====
-- What each call of the display's driver is for: the words that the display gets.
use ras_pi_arduino.Prelude.{ℕ, zero, suc, ◌+◌, ◌-◌, ◌*◌, ◌/◌, ◌%◌, ◌^◌}
use ras_pi_arduino.Prelude.{Bool, true, false, List, [], ◌∷◌, ◌++◌, map}
use ras_pi_arduino.Prelude.{ltb, leb, if◌then◌else◌, bit_or, get_or}
use ras_pi_arduino.Prelude.Bits.{u8}
use ras_pi_arduino.Machine.{Machine}
use ras_pi_arduino.Lcd
use ras_pi_arduino.Lcd.Bytes.{width}
use ras_pi_arduino.Lcd.Bus.{Word, command, datum}
use ras_pi_arduino.Lcd.Sent.{values}

pub data Call : Type 0 where
  set_cursor : ℕ → ℕ → Call
  clear_line clear_all display no_display draw home stop : Call
  create_char : ℕ → List ℕ → Call
  write_char : ℕ → Call
  write_text : List ℕ → Call
  draw_bitmap : (ℕ → ℕ) → ℕ → ℕ → Call
  set_pixel : ℕ → ℕ → Bool → Bool → Call
  set_power set_inverse : Bool → Call

unfoldable pub call : Call → Lcd.Lcd × Machine → Lcd.Lcd × Machine
call (set_cursor column line) s = Lcd.set_cursor column line s
call clear_line s = Lcd.clear_line s
call clear_all s = Lcd.clear_all s
call display s = Lcd.display s
call no_display s = Lcd.no_display s
call draw s = Lcd.draw s
call home s = Lcd.home s
call stop s = Lcd.stop s
call (create_char chr glyph) s = Lcd.create_char chr glyph s
call (write_char chr) s = Lcd.write_char chr s
call (write_text text) s = Lcd.write_text text s
call (draw_bitmap bytes columns lines) s = Lcd.draw_bitmap bytes columns lines s
call (set_pixel x y value write_it) s = Lcd.set_pixel x y value write_it s
call (set_power on) s = Lcd.set_power on s
call (set_inverse inverse) s = Lcd.set_inverse inverse s

unfoldable pub call_all : List Call → Lcd.Lcd × Machine → Lcd.Lcd × Machine
call_all [] s = s
call_all (c ∷ cs) s = call_all cs (call c s)

-- The two words of an address.
abbrev pub at : ℕ → ℕ → List Word
at column line = command (u8 (bit_or 0x80 column)) ∷ command (u8 (bit_or 0x40 line)) ∷ []

-- Data, from a function of the index.
abbrev pub stream : (ℕ → ℕ) → ℕ → List Word
stream f n = map (λ b. datum (u8 b)) (values f n 0)

abbrev pub wiped : ℕ → ℕ → List Word
wiped n line = at 0 line ++ (stream (λ _. 0) n ++ at 0 line)

abbrev pub char_words : Lcd.Lcd → ℕ → List Word
char_words d chr =
    if leb 0x80 chr then [] else stream (λ i. get_or (Lcd.glyph_of d chr) i 0) 5 ++ (datum 0 ∷ [])

unfoldable pub text_words : Lcd.Lcd → List ℕ → List Word
text_words d [] = []
text_words d (c ∷ text) = char_words d c ++ text_words d text

unfoldable pub row_words : (ℕ → ℕ) → ℕ → ℕ → ℕ → ℕ → ℕ → ℕ → List Word
row_words bytes columns mx scolumn sline zero y = []
row_words bytes columns mx scolumn sline (suc n) y =
    at scolumn (sline + y)
    ++ (stream (λ x. bytes (y * columns + x)) mx
        ++ row_words bytes columns mx scolumn sline n (y + 1))

-- The part of a bitmap that is left to the right edge, or to the last line.
abbrev pub clipped : ℕ → ℕ → ℕ → ℕ
clipped limit start size = if ltb limit (start + size) then u8 (limit + 2 ^ 8 - start) else size

unfoldable pub words : Call → Lcd.Lcd → List Word
words (set_cursor column line) d = at (column % width) (line % 6)
words clear_line d = wiped 84 d.line
words clear_all d = wiped 504 0
words display d = command 0x20 ∷ []
words no_display d = command 0x24 ∷ []
words draw d = at 0 0 ++ stream (λ i. get_or d.buffer i 0) 504
words home d = at 0 (d.line % 6)
words stop d = wiped 504 0 ++ (command 0x24 ∷ [])
words (create_char chr glyph) d = []
words (write_char chr) d = char_words d chr
words (write_text text) d = text_words d text
words (draw_bitmap bytes columns lines) d =
    row_words bytes columns (clipped 84 d.column columns) d.column d.line (clipped 6 d.line lines) 0
    ++ at (d.column + columns) d.line
words (set_pixel x y value false) d = []
words (set_pixel x y value true) d =
    at (x % 84) (y / 8 % 6)
    ++ (datum (u8 (Lcd.with_pixel y value (get_or d.buffer (x % 84 + y / 8 % 6 * 84) 0))) ∷ [])
words (set_power on) d = command (if on then 0x20 else 0x24) ∷ []
words (set_inverse inverse) d = command (if inverse then 0x0d else 0x0c) ∷ []

-- ===== src/Lcd.antt =====
-- libraries/NOKIA_LCD: the driver of a display of 84 columns and 48 rows on five pins. `width` and
-- `height` are public members, which nothing in the library changes after the constructor.
pub mod Charset
pub mod Bytes
pub mod Bus
pub mod Rounds
pub mod Sent
pub mod Words
pub mod Transmit
pub mod Calls
pub mod Pixels
pub mod Cursor
pub mod Begin
mod Tests
use ras_pi_arduino.Prelude.{ℕ, zero, suc, ◌+◌, ◌-◌, ◌*◌, ◌/◌, ◌%◌, ◌^◌, ◌≡◌, Bool, true, false, not}
use ras_pi_arduino.Prelude.{Option, none, some, List, [], ◌∷◌, bit_and, bit_or}
use ras_pi_arduino.Prelude.{ltb, leb, ◌==◌, if◌then◌else◌, get_or, set}
use ras_pi_arduino.Prelude.Bits.{u8}
use ras_pi_arduino.Machine.{Machine, wait}
use ras_pi_arduino.Gpio.{pin_mode, digital_write}
use ras_pi_arduino.Lcd.Charset.{charset}
use ras_pi_arduino.Lcd.Bytes.{
  Pins, width, height, select, deselect, data_mode, address, send, send_from, send_cmd,
}
use ras_pi_arduino.Lcd.Bytes.{send_address, wipe, write_byte, write_buf, draw_rows}

-- `custom` holds the glyphs that `createChar` gave; a null pointer is none.
pub record Lcd : Type 0 where
  pub pins : Pins
  pub column : ℕ
  pub line : ℕ
  pub custom : ℕ → Option (List ℕ)
  pub buffer : List ℕ

-- The constructor, which leaves the glyphs and the buffer as the memory has them.
unfoldable pub create : Pins → (ℕ → Option (List ℕ)) → List ℕ → Lcd
create pins custom buffer = record {
  pins = pins;
  column = 0;
  line = 0;
  custom = custom;
  buffer = buffer;
}

-- `setCursor`: the parameters hide the members, which keep their values.
unfoldable pub set_cursor : ℕ → ℕ → Lcd × Machine → Lcd × Machine
set_cursor column line (d, m) = (d, send_address d.pins column line m)

unfoldable pub clear_line : Lcd × Machine → Lcd × Machine
clear_line (d, m) = (record d { column = 0 }, wipe d.pins width d.line m)

unfoldable pub clear_all : Lcd × Machine → Lcd × Machine
clear_all (d, m) = (record d { column = 0; line = 0 }, wipe d.pins (width * (height / 2 ^ 3)) 0 m)

unfoldable pub create_char : ℕ → List ℕ → Lcd × Machine → Lcd × Machine
create_char chr glyph (d, m) =
    if ltb 31 chr
    then (d, m)
    else (record d { custom = λ c. if c == chr then some glyph else d.custom c }, m)

-- The glyph of a character below 0x80.
unfoldable pub glyph_of : Lcd → ℕ → List ℕ
glyph_of d chr =
    if leb b' ' chr
    then get_or charset (chr - b' ') []
    else elim (d.custom chr) [ none ↦ get_or charset 0 [] | some glyph ↦ glyph ]

unfoldable pub write_char : ℕ → Lcd × Machine → Lcd × Machine
write_char chr (d, m) =
    let glyph = glyph_of d chr in
    let column = u8 ((d.column + 6) % width) in
    let line = if column == 0 then (d.line + 1) % (height / 8) else d.line in
    if leb 0x80 chr then (d, m) else (
      record d { column = column; line = line },
      deselect d.pins (
          send d.pins 0
            (send_from d.pins (λ i. get_or glyph i 0) 5 0 (data_mode d.pins (select d.pins m)))),
    )

-- `write(const char *)`.
unfoldable pub write_text : List ℕ → Lcd × Machine → Lcd × Machine
write_text [] s = s
write_text (c ∷ text) s = write_text text (write_char c s)

unfoldable pub draw_bitmap : (ℕ → ℕ) → ℕ → ℕ → Lcd × Machine → Lcd × Machine
draw_bitmap bytes columns lines (d, m) =
    let mx = if ltb width (d.column + columns) then u8 (width + 2 ^ 8 - d.column) else columns in
    let my =
      if ltb (height / 8) (d.line + lines) then u8 (height / 8 + 2 ^ 8 - d.line) else lines in
    let drawn = draw_rows d.pins bytes columns mx d.column d.line my 0 (select d.pins m) in
    (
      record d { column = u8 (d.column + columns) },
      deselect d.pins (address d.pins (d.column + columns) d.line drawn),
    )

-- The byte of a column with the pixel of row `y` set or cleared.
unfoldable pub with_pixel : ℕ → Bool → ℕ → ℕ
with_pixel y value old =
    if value then bit_or old (2 ^ (y % 8)) else bit_and old (2 ^ 8 - 1 - 2 ^ (y % 8))

unfoldable pub set_pixel : ℕ → ℕ → Bool → Bool → Lcd × Machine → Lcd × Machine
set_pixel x y value write_it (d, m) =
    let column = x % width in
    let line = y / 2 ^ 3 % (height / 2 ^ 3) in
    let i = column + line * width in
    let byte = with_pixel y value (get_or d.buffer i 0) in
    (
      record d { buffer = set d.buffer i byte },
      if write_it then write_byte d.pins column line byte m else m,
    )

unfoldable pub draw : Lcd × Machine → Lcd × Machine
draw (d, m) = (d, write_buf d.pins d.buffer m)

unfoldable pub display : Lcd × Machine → Lcd × Machine
display (d, m) = (d, send_cmd d.pins 0x20 m)

unfoldable pub no_display : Lcd × Machine → Lcd × Machine
no_display (d, m) = (d, send_cmd d.pins 0x24 m)

unfoldable pub set_power : Bool → Lcd × Machine → Lcd × Machine
set_power on (d, m) = (d, send_cmd d.pins (if on then 0x20 else 0x24) m)

unfoldable pub set_inverse : Bool → Lcd × Machine → Lcd × Machine
set_inverse inverse (d, m) = (d, send_cmd d.pins (if inverse then 0x0d else 0x0c) m)

unfoldable pub home : Lcd × Machine → Lcd × Machine
home (d, m) = set_cursor 0 d.line (d, m)

unfoldable pub stop : Lcd × Machine → Lcd × Machine
stop s = no_display (clear_all s)

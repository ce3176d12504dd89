-- ===== src/Lcd/Bytes.antt =====
-- libraries/NOKIA_LCD: the bytes that the driver of the display puts on its pins.
use ras_pi_arduino.Prelude.{ℕ, zero, suc, ◌+◌, ◌*◌, ◌/◌, ◌%◌, ◌^◌, not}
use ras_pi_arduino.Prelude.{List, bit_and, bit_or, ◌==◌, if◌then◌else◌, get_or}
use ras_pi_arduino.Machine.{Machine, wait}
use ras_pi_arduino.Gpio.{pin_mode, digital_write}

pub record Pins : Type 0 where
  pub mosi : ℕ
  pub sck : ℕ
  pub ss : ℕ
  pub dc : ℕ
  pub rst : ℕ

abbrev pub width : ℕ
width = 84

abbrev pub height : ℕ
height = 48

module _ (pins : Pins) where
  -- A round of the loop of `send`.
  unfoldable pub send_bit : ℕ → ℕ → Machine → Machine
  send_bit data_byte i m =
      let on_data =
        digital_write pins.mosi (if not (bit_and data_byte (2 ^ i) == 0) then 1 else 0) m in
      let high = digital_write pins.sck 1 (digital_write pins.sck 1 on_data) in
      digital_write pins.sck 0 (digital_write pins.sck 0 high)

  -- `while(i--)`.
  unfoldable pub send_bits : ℕ → ℕ → Machine → Machine
  send_bits data_byte zero m = m
  send_bits data_byte (suc i) m = send_bits data_byte i (send_bit data_byte i m)

  unfoldable pub send : ℕ → Machine → Machine
  send data_byte m = send_bits data_byte 8 m

  -- `n` bytes of a buffer from index `i` on.
  unfoldable pub send_from : (ℕ → ℕ) → ℕ → ℕ → Machine → Machine
  send_from bytes zero i m = m
  send_from bytes (suc n) i m = send_from bytes n (i + 1) (send (bytes i) m)

  unfoldable pub select : Machine → Machine
  select m = digital_write pins.ss 0 m

  unfoldable pub deselect : Machine → Machine
  deselect m = digital_write pins.ss 1 m

  unfoldable pub command_mode : Machine → Machine
  command_mode m = digital_write pins.dc 0 m

  unfoldable pub data_mode : Machine → Machine
  data_mode m = digital_write pins.dc 1 m

  unfoldable pub send_cmd : ℕ → Machine → Machine
  send_cmd b m = deselect (send b (command_mode (select m)))

  unfoldable pub send_data : ℕ → Machine → Machine
  send_data b m = deselect (send b (data_mode (select m)))

  -- The two commands that set the address, with the chip selected and in command mode.
  unfoldable pub address : ℕ → ℕ → Machine → Machine
  address column line m = send (bit_or 0x40 line) (send (bit_or 0x80 column) (command_mode m))

  -- `writeByte`, and the two methods `writeBuf`.
  unfoldable pub write_byte : ℕ → ℕ → ℕ → Machine → Machine
  write_byte column line b m =
      let addressed = address (column % width) (line % (height / 2 ^ 3)) (select m) in
      deselect (send b (data_mode addressed))

  unfoldable pub write_run : ℕ → ℕ → (ℕ → ℕ) → ℕ → Machine → Machine
  write_run column line bytes len m =
      let addressed = address (column % width) (line % (height / 2 ^ 3)) (select m) in
      deselect (send_from bytes len 0 (data_mode addressed))

  unfoldable pub write_buf : List ℕ → Machine → Machine
  write_buf bytes m =
      let addressed = send 0x40 (send 0x80 (command_mode (select m))) in
      deselect (send_from (λ i. get_or bytes i 0) (width * (height / 8)) 0 (data_mode addressed))

  unfoldable pub send_address : ℕ → ℕ → Machine → Machine
  send_address column line m = deselect (address (column % width) (line % (height / 8)) (select m))

  -- Zeros from an address on, and the address again.
  unfoldable pub wipe : ℕ → ℕ → Machine → Machine
  wipe chars line m =
      let wiped = send_from (λ _. 0) chars 0 (data_mode (address 0 line (select m))) in
      deselect (address 0 line wiped)

  -- `begin`; CHIP_ST7576 is model 1.
  unfoldable pub begin : ℕ → Machine → Machine
  begin model m =
      let outputs =
        pin_mode pins.sck 1 (
          pin_mode pins.mosi 1 (pin_mode pins.dc 1 (pin_mode pins.ss 1 (pin_mode pins.rst 1 m)))) in
      let down =
        digital_write pins.rst 0 (digital_write pins.ss 1 (digital_write pins.rst 1 outputs)) in
      let up = digital_write pins.rst 1 (wait (100 * 1000) down) in
      let extended = send 0x13 (send 0x21 (command_mode (select up))) in
      let voltage = if model == 1 then send 0x05 (send 0xe0 extended) else send 0xc2 extended in
      let plain = send 0x09 (send 0x20 voltage) in
      let wiped = send_from (λ _. 0) (width * (height / 2 ^ 3)) 0 (data_mode plain) in
      let active = wait (100 * 1000) (send 0x0c (send 0x08 (command_mode wiped))) in
      deselect (send 0x40 (send 0x80 active))

  -- The rows of a bitmap that are left, `n` of them from row `y` on.
  unfoldable pub draw_rows : (ℕ → ℕ) → ℕ → ℕ → ℕ → ℕ → ℕ → ℕ → Machine → Machine
  draw_rows bytes columns mx scolumn sline zero y m = m
  draw_rows bytes columns mx scolumn sline (suc n) y m =
      let addressed = address scolumn (sline + y) m in
      let row = send_from (λ x. bytes (y * columns + x)) mx 0 (data_mode addressed) in
      draw_rows bytes columns mx scolumn sline n (y + 1) row

-- ===== src/Uart.antt =====
-- The serial port of cores/piduino/HardwareSerial.cpp: a circular buffer that the check thread
-- fills from the FIFO of the controller.
pub mod Laws
pub mod Calls
mod Tests
use ras_pi_arduino.Prelude.{
  ℕ, ◌+◌, ◌*◌, ◌/◌, ◌%◌, ◌^◌, Bool, true, false, Option, none, some, List, [], ◌∷◌, not,
}
use ras_pi_arduino.Prelude.{bit_and, bit_or, ◌==◌, if◌then◌else◌}
use ras_pi_arduino.Prelude.Bits.{u8, u32}
use ras_pi_arduino.Prelude.Signed.{ℤ}
use ras_pi_arduino.Machine.{Machine, store}
use ras_pi_arduino.Gpio.{pin_mode}
use ras_pi_arduino.Cbuf

pub record Uart : Type 0 where
  pub rx_buffer : Cbuf.Cbuf
  pub check_run : Bool

-- Addresses of UART0DR, UART0IBRD, UART0FBRD, UART0LCRH and UART0CR.
abbrev uart0dr : ℕ
uart0dr = 0x201000

abbrev uart0ibrd : ℕ
uart0ibrd = 0x201024

abbrev uart0fbrd : ℕ
uart0fbrd = 0x201028

abbrev uart0lcrh : ℕ
uart0lcrh = 0x20102c

abbrev uart0cr : ℕ
uart0cr = 0x201030

-- The loop of `uart_check_fifos` over the data words that the FIFO has; a character is the low byte.
unfoldable pub drain_fifo : List ℕ → Cbuf.Cbuf → Cbuf.Cbuf
drain_fifo [] b = b
drain_fifo (w ∷ ws) b = drain_fifo ws (Cbuf.write_char b (u8 w)).1

unfoldable pub uart_check_fifos : List ℕ → Uart → Uart
uart_check_fifos words u =
    if u.check_run then record u { rx_buffer = drain_fifo words u.rx_buffer } else u

-- `write`, with what the flag register reads; `none` while the FIFO is full to the last of them.
unfoldable pub write : List ℕ → ℕ → Machine → Option Machine
write [] c m = none
write (flags ∷ more) c m =
    let rest = write more c m in if bit_and flags 0x20 == 0 then some (store uart0dr c m) else rest

-- The pins 14 and 15 have the function GPF0, 4.
unfoldable pub begin : ℕ → Uart → Machine → Option (Uart × Machine)
begin baud u m =
    let divider = 12000000 / baud in
    let pins = pin_mode 15 4 (pin_mode 14 4 m) in
    let rate = store uart0fbrd (bit_and divider 0x3f) (store uart0ibrd (divider / 2 ^ 6) pins) in
    let line = store uart0lcrh (bit_or (3 * 2 ^ 5) 0x10) rate in
    let m' = store uart0cr (bit_or (bit_or 0x01 0x100) 0x200) line in
    if baud == 0 then none else some (record u { check_run = true }, m')

unfoldable pub end : Uart → Machine → Uart × Machine
end u m =
    let off = store uart0cr 0 (store uart0lcrh 0 m) in
    (record u { check_run = false }, pin_mode 15 0 (pin_mode 14 0 off))

unfoldable pub available : Uart → ℕ
available u = Cbuf.get_size u.rx_buffer

unfoldable pub peek : Uart → ℤ
peek u = Cbuf.peek u.rx_buffer

unfoldable pub read : Uart → ℤ × Uart
read u = let (c, b) = Cbuf.read_char u.rx_buffer in (c, record u { rx_buffer = b })

unfoldable pub flush : Uart → Uart
flush u = record u { rx_buffer = Cbuf.flush u.rx_buffer }

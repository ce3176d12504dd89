-- ===== src/Spi.antt =====
-- The serial peripheral interface, libraries/SPI/SPI.cpp.
pub mod Chip
pub mod Session
mod Tests
use ras_pi_arduino.Prelude.{ℕ, ◌+◌, ◌/◌, Option, none, some, List, [], ◌∷◌}
use ras_pi_arduino.Prelude.{bit_and, bit_or, ◌==◌, if◌then◌else◌}
use ras_pi_arduino.Prelude.Bits.{u8, complement}
use ras_pi_arduino.Machine.{Machine, store}
use ras_pi_arduino.Gpio.{pin_mode}

-- Addresses of SPI0CS, SPI0FIFO and SPI0CLK.
abbrev pub spi0cs : ℕ
spi0cs = 0x204000

abbrev pub spi0fifo : ℕ
spi0fifo = 0x204004

abbrev pub spi0clk : ℕ
spi0clk = 0x204008

-- `SPI0F2DIV(f)` of the core clock; a division by zero is a fault.
unfoldable pub clock_divider : ℕ → Option ℕ
clock_divider f = if f == 0 then none else some (bit_and (250000000 / f + 1) 0xfffe)

-- ALT0 is 4.
unfoldable pub begin : Machine → Option Machine
begin m =
    let pins = pin_mode 11 4 (pin_mode 10 4 (pin_mode 9 4 m)) in
    elim (clock_divider 1000000) [
      | none ↦ none
      | some d ↦ some (store spi0cs (bit_or 0x20 0x10) (store spi0clk d pins))
    ]

unfoldable pub end : Machine → Machine
end m = store spi0cs (bit_or 0x20 0x10) (pin_mode 11 0 (pin_mode 10 0 (pin_mode 9 0 m)))

-- `_BV(SPI0CPHA) | _BV(SPI0CPOL)` is SPI_MODE3.
unfoldable pub set_data_mode : ℕ → Machine → Machine
set_data_mode mode m =
    let cleared = store spi0cs (bit_and (m.mem spi0cs) (complement 0x0c)) m in
    store spi0cs (bit_or (cleared.mem spi0cs) mode) cleared

unfoldable pub set_clock_divider : ℕ → Machine → Machine
set_clock_divider rate m = store spi0clk rate m

unfoldable pub set_clock : ℕ → Machine → Option Machine
set_clock rate m = elim (clock_divider rate) [ none ↦ none | some d ↦ some (set_clock_divider d m) ]

-- The polls of SPI0CS until the FIFO has a byte: the words that are left of those that it reads.
unfoldable pub await_byte : List ℕ → Option (List ℕ)
await_byte [] = none
await_byte (s ∷ ss) = let rest = await_byte ss in if bit_and s 0x20000 == 0 then rest else some ss

-- `transfer`, with the words that the status register and the FIFO read.
unfoldable pub transfer : List ℕ → ℕ → ℕ → Machine → Option (ℕ × Machine)
transfer statuses incoming value m =
    let active = store spi0cs (bit_or (m.mem spi0cs) (bit_or (bit_or 0x80 0x20) 0x10)) m in
    let sent = store spi0fifo value active in
    let idle = store spi0cs (bit_and (sent.mem spi0cs) (complement 0x80)) sent in
    elim (await_byte statuses) [ none ↦ none | some ss ↦ some (u8 incoming, idle) ]

unfoldable pub begin_transaction : ℕ → ℕ → Machine → Option Machine
begin_transaction freq mode m = elim (set_clock freq m) [
  | none ↦ none
  | some m' ↦ some (set_data_mode mode m')
]

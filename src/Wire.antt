-- ===== src/Wire.antt =====
-- `TwoWire` of libraries/Wire/Wire.cpp over the controller BSC1. The static members are the fields
-- of the state; a call that goes to the bus takes the status words and the incoming bytes which the
-- controller will give, and has no result where the transfer has none.
pub mod Laws
pub mod Sessions
pub mod Requests
mod Tests
use ras_pi_arduino.Prelude.{ℕ, zero, suc, ◌+◌, ◌-◌, ◌/◌, ◌^◌, Bool, true, false}
use ras_pi_arduino.Prelude.{Option, none, some, List, [], ◌∷◌, length, set, get_or, replicate}
use ras_pi_arduino.Prelude.{bit_and, ltb, leb, ◌==◌, if◌then◌else◌}
use ras_pi_arduino.Prelude.Bits.{u8}
use ras_pi_arduino.Machine.{Machine, store}
use ras_pi_arduino.Gpio.{pin_mode}
use ras_pi_arduino.Ids.{divider}
use ras_pi_arduino.I2c.{bsc1, write_to, read_from}

pub record Wire : Type 0 where
  pub rx_buffer : List ℕ
  pub rx_index : ℕ
  pub rx_length : ℕ
  pub tx_address : ℕ
  pub tx_buffer : List ℕ
  pub tx_index : ℕ
  pub tx_length : ℕ

-- BUFFER_LENGTH.
abbrev pub buffer_length : ℕ
buffer_length = 32

-- The state before `begin`.
unfoldable pub initial : Wire
initial = record {
  rx_buffer = replicate 32 0;
  rx_index = 0;
  rx_length = 0;
  tx_address = 0;
  tx_buffer = replicate 32 0;
  tx_index = 0;
  tx_length = 0;
}

-- BSC1DIV.
abbrev pub bsc1div : ℕ
bsc1div = 0x804014

unfoldable pub set_clock : ℕ → Machine → Option Machine
set_clock frequency m = elim (divider frequency) [ none ↦ none | some d ↦ some (store bsc1div d m) ]

-- ALT0 is 4, INPUT is 0.
unfoldable pub begin : Wire → Machine → Option (Wire × Machine)
begin w m =
    let w' = record w { rx_index = 0; rx_length = 0; tx_index = 0; tx_length = 0 } in
    elim (set_clock 100000 (pin_mode 3 4 (pin_mode 2 4 m))) [
      | none ↦ none
      | some m' ↦ some (w', m')
    ]

unfoldable pub end : Machine → Machine
end m = pin_mode 3 0 (pin_mode 2 0 m)

unfoldable pub request_from :
    ℕ → ℕ → (ℕ → ℕ) → List ℕ → Wire → Machine → Option (ℕ × Wire × Machine)
request_from address quantity fifo statuses w m =
    let q = if ltb buffer_length quantity then buffer_length else quantity in
    elim (read_from bsc1 address w.rx_buffer q fifo statuses m) [
      | none ↦ none
      | some (reason, buf, m') ↦
          let n = if reason == 0 then q else 0 in
          some (n, record w { rx_buffer = buf; rx_index = 0; rx_length = n }, m')
    ]

unfoldable pub begin_transmission : ℕ → Wire → Wire
begin_transmission address w = record w { tx_address = address; tx_index = 0; tx_length = 0 }

unfoldable pub end_transmission : List ℕ → Wire → Machine → Option (ℕ × Wire × Machine)
end_transmission statuses w m =
    elim (write_to bsc1 w.tx_address w.tx_buffer w.tx_length statuses m) [
      | none ↦ none
      | some (ret, m') ↦ some (ret, record w { tx_index = 0; tx_length = 0 }, m')
    ]

-- `write` of a byte.
unfoldable pub write : ℕ → Wire → ℕ × Wire
write value w = if leb buffer_length w.tx_length then (0, w) else (
  1,
  record w {
    tx_buffer = set w.tx_buffer w.tx_index value;
    tx_index = u8 (w.tx_index + 1);
    tx_length = u8 (w.tx_index + 1);
  },
)

-- `write` of an array, for the state; the result is the quantity.
unfoldable pub write_loop : List ℕ → Wire → Wire
write_loop [] w = w
write_loop (b ∷ bs) w = write_loop bs (write b w).1

unfoldable pub write_bytes : List ℕ → Wire → ℕ × Wire
write_bytes values w = (length values, write_loop values w)

unfoldable pub available : Wire → ℕ
available w = w.rx_length - w.rx_index

unfoldable pub read : Wire → Option ℕ × Wire
read w =
    if ltb w.rx_index w.rx_length
    then (some (get_or w.rx_buffer w.rx_index 0), record w { rx_index = u8 (w.rx_index + 1) })
    else (none, w)

unfoldable pub peek : Wire → Option ℕ
peek w = if ltb w.rx_index w.rx_length then some (get_or w.rx_buffer w.rx_index 0) else none

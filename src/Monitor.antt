-- ===== src/Monitor.antt =====
-- The receive buffers behind Console: the socket of the IDE, cores/piduino/idemonitor.c, the
-- terminal, cores/piduino/piconsole.c, and the stream over both, cores/piduino/Console.cpp. What
-- the system calls return is an argument; a byte read from past the end of an array is a parameter.
pub mod Laws
mod Tests
use ras_pi_arduino.Prelude.{ℕ, zero, suc, ◌+◌, ◌-◌, Bool, true, false, not, ◌&&◌, ◌||◌}
use ras_pi_arduino.Prelude.{Option, none, some, List, [], ◌∷◌, length, take, set, get_or}
use ras_pi_arduino.Prelude.{ltb, ◌==◌, if◌then◌else◌}
use ras_pi_arduino.Prelude.Slices.{blit}
use ras_pi_arduino.Prelude.Signed.{ℤ, pos, negsuc, minus_one, is_negative}

pub record Monitor : Type 0 where
  pub running : Bool
  pub client : ℤ
  pub rx : List ℕ
  pub fill : ℕ

-- MONITOR_RX_LEN.
abbrev pub monitor_rx_len : ℕ
monitor_rx_len = 1024

abbrev pub is_positive : ℤ → Bool
is_positive (pos n) = ltb 0 n
is_positive (negsuc n) = false

unfoldable pub connected : Monitor → Bool
connected m = m.running && is_positive m.client

-- `idemonitor_begin`, with whether the socket was made and bound.
unfoldable pub begin : Bool → Monitor → ℕ × Monitor
begin bound m =
    if bound
    then (0, record m { running = true; client = minus_one; fill = 0 })
    else (1, record m { running = false; client = minus_one; fill = 0 })

-- `idemonitor_write`, with what `send` returns.
unfoldable pub write : ℤ → Monitor → ℤ
write sent m = if not m.running || is_negative m.client then pos 0 else sent

-- The address 127.0.0.1 in network order.
abbrev pub localhost : ℕ
localhost = 16777343

-- What `recv` returns for the space that is left: an error, the end, or bytes.
unfoldable pub received : Option (List ℕ) → Monitor → Monitor
received none m = m
received (some []) m = record m { client = minus_one }
received (some (b ∷ bs)) m =
    let fill' = m.fill + length (b ∷ bs) in
    let rx' = blit m.rx m.fill (b ∷ bs) in
    record m { rx = if ltb fill' monitor_rx_len then set rx' fill' 0 else rx'; fill = fill' }

-- `idemonitor_run`, with what `accept` returns and the address of the peer.
unfoldable pub run : ℤ → ℕ → Option (List ℕ) → Monitor → Monitor
run accepted address data_in m =
    if not m.running
    then m
    else if is_negative m.client
    then if is_positive accepted && not (address == localhost)
      then record m { client = minus_one }
      else record m { client = accepted }
    else if m.fill == monitor_rx_len
    then m
    else received data_in m

unfoldable pub available : Monitor → ℕ
available m = m.fill

-- `a[i] = a[i + step]; i++` for `n` times.
unfoldable pub move_down : ℕ → ℕ → ℕ → ℕ → List ℕ → List ℕ
move_down beyond zero i step xs = xs
move_down beyond (suc n) i step xs =
    move_down beyond n (suc i) step (set xs i (get_or xs (i + step) beyond))

-- `idemonitor_read`: the bytes that it stores, whose number it returns. Each is read before its
-- place is overwritten.
unfoldable pub read : ℕ → ℕ → Monitor → List ℕ × Monitor
read beyond len m =
    let n = if ltb m.fill len then m.fill else len in
    (take n m.rx, record m { rx = move_down beyond n 0 n m.rx; fill = m.fill - n })

unfoldable pub read_char : ℕ → Monitor → Option ℕ × Monitor
read_char beyond m = if m.fill == 0 then (none, m) else (
  some (get_or m.rx 0 beyond),
  record m { rx = move_down beyond (m.fill - 1) 0 1 m.rx; fill = m.fill - 1 },
)

unfoldable pub peek : ℕ → Monitor → Option ℕ
peek beyond m = if m.fill == 0 then none else some (get_or m.rx 0 beyond)

unfoldable pub flush : Monitor → Monitor
flush m = record m { fill = 0 }

-- The terminal. The index is an `int`, which a read takes below 0 if nothing is there.
pub record Terminal : Type 0 where
  pub thread_running : Bool
  pub rx_buffer : List ℕ
  pub index : ℤ

unfoldable pub predecessor : ℤ → ℤ
predecessor (pos zero) = minus_one
predecessor (pos (suc n)) = pos n
predecessor (negsuc n) = negsuc (suc n)

-- `console_run`, with the byte that the terminal has, if it has one. A store below the array is a
-- fault.
unfoldable pub console_run : Option ℕ → Terminal → Option Terminal
console_run none t = some t
console_run (some c) t =
    if t.thread_running
    then elim t.index [
      | pos n ↦
          if ltb n 1024
          then some (record t { rx_buffer = set t.rx_buffer n c; index = pos (suc n) })
          else some t
      | negsuc n ↦ none
    ]
    else some t

abbrev pub bytes_left : ℤ → ℕ
bytes_left (pos n) = n
bytes_left (negsuc n) = 0

unfoldable pub console_read : ℕ → Terminal → ℕ × Terminal
console_read beyond t =
    let left = predecessor t.index in
    (
      get_or t.rx_buffer 0 beyond,
      record t { rx_buffer = move_down beyond (bytes_left left) 0 1 t.rx_buffer; index = left },
    )

unfoldable pub console_peek : ℕ → Terminal → ℕ
console_peek beyond t = get_or t.rx_buffer 0 beyond

unfoldable pub console_available : Terminal → ℤ
console_available t = t.index

-- LinuxConsole: `peek`, `read` and `flush`; the last leaves the bytes of the terminal.
unfoldable pub linux_peek : ℕ → Monitor × Terminal → Option ℕ
linux_peek beyond (m, t) =
    if connected m && not (available m == 0) then peek beyond m else some (console_peek beyond t)

unfoldable pub linux_read : ℕ → Monitor × Terminal → Option ℕ × (Monitor × Terminal)
linux_read beyond (m, t) =
    let (b, m') = read_char beyond m in
    let (c, t') = console_read beyond t in
    if connected m && not (available m == 0) then (b, (m', t)) else (some c, (m, t'))

unfoldable pub linux_flush : Monitor × Terminal → Monitor × Terminal
linux_flush (m, t) = (flush m, t)

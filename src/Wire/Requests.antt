-- ===== src/Wire/Requests.antt =====
-- What becomes of a request for bytes.
use ras_pi_arduino.Prelude.{ℕ, ◌+◌, ◌≤◌, ◌≡◌, refl, arith, false, some, List, length}
use ras_pi_arduino.Prelude.{min, ltb, ◌==◌, if◌then◌else◌}
use ras_pi_arduino.Machine.{Machine}
use ras_pi_arduino.I2c.{bsc1}
use ras_pi_arduino.I2c.Send.{IsDoneAfter}
use ras_pi_arduino.I2c.Ends.{taken, read_from-returns}
use ras_pi_arduino.Wire.{Wire, buffer_length, request_from}
use ras_pi_arduino.Wire.Laws.{IsValid}
use ras_pi_arduino.Wire.Sessions.{Requested, request_from-Requested}

-- `requestFrom` returns, once the controller reports the transfer done, at the latest with its
-- `k`-th status word, and goes on to report it for 36 reads, if the FIFO has no more bytes till then
-- than were asked for, at most 32. It makes the first bytes that come in the ones that `read` will
-- return, that many or none, and returns their number. It keeps the state valid.
pub request_from-returns :
    (address quantity k : ℕ) (fifo : ℕ → ℕ) (statuses : List ℕ) (w : Wire) (m : Machine)
    → IsValid w
    → IsDoneAfter k statuses
    → k + 36 ≤ length statuses
    → taken false statuses ≤ min quantity 32
    → (n : ℕ) × (w' : Wire) × (m' : Machine) × (request_from address quantity fifo statuses w m
        ≡ some (n, w', m'))
      × Requested fifo quantity n w'
unfolding request_from
request_from-returns address quantity k fifo statuses w m v d enough few =
    let q = if ltb buffer_length quantity then buffer_length else quantity in
    let q_min : q ≡ min quantity 32 = ground arith in
    let (r, buf, m', same) =
      read_from-returns bsc1 address w.rx_buffer q k fifo statuses m (omega (arith, q_min))
        (omega (arith, q_min, v.rx_size)) d (omega (arith, q_min, few))
        (omega (arith, q_min, enough)) in
    let n = if r == 0 then q else 0 in
    let w' = record w { rx_buffer = buf; rx_index = 0; rx_length = n } in
    let e : request_from address quantity fifo statuses w m ≡ some (n, w', m') =
      rw (request_from, same) refl in
    (n, w', m', e, request_from-Requested address quantity fifo statuses w m n w' m' v e)

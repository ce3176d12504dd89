-- ===== src/Wire/Tests.antt =====
-- Transfers with a controller that is done at its first status word.
use ras_pi_arduino.Prelude.{
  ℕ, zero, suc, ◌+◌, ◌≡◌, refl, List, [], ◌∷◌, arith, none, some, replicate, take,
}
use ras_pi_arduino.Machine.{Machine, store}
use ras_pi_arduino.I2c.{prepare, receive, drain, fill_buffer, reason, finish, read_from}
use ras_pi_arduino.I2c.Send.{IsDoneAfter}
use ras_pi_arduino.Wire.{Wire, initial, request_from}
use ras_pi_arduino.Wire.Laws.{IsValid}
use ras_pi_arduino.Wire.Sessions.{transmit, Transmitted, transmit-returns, Requested}
use ras_pi_arduino.Wire.Requests.{request_from-returns}

abbrev idle : Machine
idle = record { mem = λ _. 0; trace = [] }

abbrev all_done : List ℕ
all_done = replicate 40 0x02

initial-IsValid : IsValid initial
unfolding initial
initial-IsValid = record {
  rx_size = refl;
  tx_size = refl;
  rx_bound = omega arith;
  rx_order = omega arith;
  tx_bound = omega arith;
  tx_order = refl;
}

abbrev text : List ℕ
text = 0 ∷ 0x59 ∷ 0x23 ∷ []

replicate-IsDoneAfter : (n : ℕ) → IsDoneAfter 0 (replicate n 0x02)
replicate-IsDoneAfter zero = tt
replicate-IsDoneAfter (suc n) = (refl, replicate-IsDoneAfter n)

all_done-IsDoneAfter : IsDoneAfter 0 all_done
all_done-IsDoneAfter = replicate-IsDoneAfter 40

transmit-returns_example :
    (r : ℕ) × (w' : Wire) × (m' : Machine) × (transmit 0x68 text all_done initial idle
      ≡ some (r, w', m'))
    × Transmitted (take 32 text) idle r w' m'
transmit-returns_example =
    transmit-returns 0x68 text 0 all_done initial idle initial-IsValid all_done-IsDoneAfter
      (omega arith)

abbrev incoming_bytes : ℕ → ℕ
incoming_bytes i = i + 7

-- Two bytes come in before the controller is done.
abbrev two_bytes : List ℕ
two_bytes = 0 ∷ 0x20 ∷ 0x20 ∷ 0 ∷ all_done

abbrev after_request : ℕ × Wire × Machine
after_request = elim (request_from 0x68 2 incoming_bytes two_bytes initial idle) [
  | none ↦ (9, initial, idle)
  | some r ↦ r
]

two_come_in : after_request.0 ≡ 2
unfolding initial request_from prepare receive drain fill_buffer reason finish read_from store
two_come_in = refl

request_from-returns_example :
    (n : ℕ) × (w' : Wire) × (m' : Machine) × (request_from 0x68 2 incoming_bytes two_bytes initial
        idle
      ≡ some (n, w', m'))
    × Requested incoming_bytes 2 n w'
request_from-returns_example =
    request_from-returns 0x68 2 4 incoming_bytes two_bytes initial idle initial-IsValid
      all_done-IsDoneAfter (omega arith) (omega arith)

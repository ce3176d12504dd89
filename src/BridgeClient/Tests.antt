-- ===== src/BridgeClient/Tests.antt =====
-- A connection whose peer has gone.
use ras_pi_arduino.Prelude.{◌≡◌, refl, inr, arith, List, [], ◌∷◌}
use ras_pi_arduino.Prelude.Signed.{pos, negsuc}
use ras_pi_arduino.BridgeClient.{Client, construct_fd}
use ras_pi_arduino.BridgeClient.Quiet.{
  Op, write, read, read_char, connected, stop, perform, run, Quiet, perform-Quiet,
}
use ras_pi_arduino.BridgeClient

abbrev ops : List Op
ops =
    write (pos 1) (65 ∷ []) ∷ read_char (pos 0) 1 (66 ∷ []) (pos 1) ∷ connected (pos 0) ∷ stop ∷ []

-- One byte is there, and recv fails.
abbrev lost_read : Op
lost_read = read 8 (pos 0) 1 [] (negsuc 0)

perform-Quiet_example :
    Quiet
      (perform lost_read (construct_fd (pos 5))).2
      ops
      (run ops (perform lost_read (construct_fd (pos 5))).2)
perform-Quiet_example =
    perform-Quiet lost_read ops (construct_fd (pos 5)) (inr (omega arith, refl, omega arith, refl))

-- With nothing to read, read gives a zero, as if one had come.
nothing_to_read : (BridgeClient.read_char (pos 0) 0 [] (pos 0) (construct_fd (pos 5))).0 ≡ pos 0
unfolding BridgeClient.read_char BridgeClient.read construct_fd
nothing_to_read = refl

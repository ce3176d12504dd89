-- ===== src/Udp/Tests.antt =====
-- Datagrams at a new socket.
use ras_pi_arduino.Prelude.{ℕ, ◌≡◌, refl, arith, some, none, List, [], ◌∷◌, length-replicate}
use ras_pi_arduino.Prelude.Signed.{pos, minus_one}
use ras_pi_arduino.Fifo
use ras_pi_arduino.Ip.{zero_address}
use ras_pi_arduino.Udp.{Udp, Datagram, construct, sends, begin_packet_to}
use ras_pi_arduino.Udp.Receive.{
  Op, parse_packet, available, read_char, remote, read, count, value, bytes, sender, run, look,
  look_all, Shows, nothing, run-look_all,
}
use ras_pi_arduino.Udp.Send.{write_then_send, one_datagram, write_then_send-one_datagram}
use ras_pi_arduino.Udp

abbrev hello : Datagram
hello = record { payload = 72 ∷ 73 ∷ 74 ∷ []; ip = 10 ∷ 0 ∷ 0 ∷ 2 ∷ []; port = 7 }

abbrev letter : Datagram
letter = record { payload = 65 ∷ []; ip = 10 ∷ 0 ∷ 0 ∷ 3 ∷ []; port = 8 }

abbrev script : List Op
script =
    parse_packet (some hello)
    ∷ available
    ∷ parse_packet (some letter)
    ∷ read 1
    ∷ read_char
    ∷ read_char
    ∷ parse_packet (some letter)
    ∷ available
    ∷ parse_packet (some hello)
    ∷ remote
    ∷ []

-- The last byte of a datagram is lost, and one of a single byte leaves nothing to read and no room
-- for the next.
script_answers :
    look_all script (record { packet = none; from = (0 ∷ 0 ∷ 0 ∷ 0 ∷ [], 0) })
    ≡ count 3
      ∷ count 2
      ∷ count 0
      ∷ bytes 1 (72 ∷ [])
      ∷ value (pos 73)
      ∷ value minus_one
      ∷ count 1
      ∷ count 0
      ∷ count 0
      ∷ sender (10 ∷ 0 ∷ 0 ∷ 3 ∷ [], 8)
      ∷ []
unfolding look_all look Fifo.take_out Fifo.pop
script_answers = refl

run-look_all_example :
    run script Udp.construct
    ≡ look_all script (record { packet = none; from = (0 ∷ 0 ∷ 0 ∷ 0 ∷ [], 0) })
run-look_all_example =
    run-look_all script Udp.construct (record { packet = none; from = (0 ∷ 0 ∷ 0 ∷ 0 ∷ [], 0) }) new
  where
    new : Shows Udp.construct (record { packet = none; from = (0 ∷ 0 ∷ 0 ∷ 0 ∷ [], 0) })
    new = unfold construct Udp.remote zero_address in record { packet = nothing; from = refl }

write_then_send-one_datagram_example :
    write_then_send (1 ∷ 2 ∷ []) construct ≡ one_datagram (1 ∷ 2 ∷ []) construct
write_then_send-one_datagram_example =
    write_then_send-one_datagram (1 ∷ 2 ∷ []) construct
      (unfold construct in length-replicate {A = ℕ} 1460 0) (unfold construct in omega arith)

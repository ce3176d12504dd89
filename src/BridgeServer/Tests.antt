-- ===== src/BridgeServer/Tests.antt =====
-- A server to which two clients come, of which one goes.
use ras_pi_arduino.Prelude.{
  ℕ, ◌≡◌, refl, arith, true, false, Option, none, some, List, [], ◌∷◌, member, ◌==◌, if◌then◌else◌,
}
use ras_pi_arduino.Prelude.Signed.{ℤ, pos, minus_one}
use ras_pi_arduino.Items.{Item}
use ras_pi_arduino.Items.Chain.{Chain, link}
use ras_pi_arduino.Items.Refine.{Holds, new_heap, new_heap-Holds}
use ras_pi_arduino.BridgeClient.{Client, sends, construct_fd, connected, read}
use ras_pi_arduino.BridgeServer.{Server, Event, same_fd, is_connected, construct, begin, Answers}
use ras_pi_arduino.BridgeServer.Cleanup.{alive}
use ras_pi_arduino.BridgeServer.Change.{first_ready}
use ras_pi_arduino.BridgeServer.Calls.{served, served_all, Serves, available-Serves}
use ras_pi_arduino.BridgeServer.Send.{write-Serves}
use ras_pi_arduino.BridgeClient
use ras_pi_arduino.BridgeServer

abbrev open_one : Answers
open_one = record {
  fd = pos 3;
  bound = true;
  listened = true;
  poll = pos 4;
  added = true;
  allocated = true;
}

abbrev server : Server
server = begin open_one (construct 80 8 new_heap)

abbrev arrival : ℕ → Event
arrival fd = record { fd = pos 3; error = false; hup = false; input = true; accepted = pos fd }

abbrev departure : ℕ → Event
departure fd = record { fd = pos fd; error = false; hup = true; input = true; accepted = minus_one }

-- Descriptor 6 has bytes to read.
abbrev counts : ℤ → ℕ
counts fd = if same_fd fd (pos 6) then 2 else 0

abbrev probe : ℤ → ℤ
probe fd = pos 0

abbrev events : List Event
events = arrival 5 ∷ arrival 6 ∷ departure 5 ∷ departure 6 ∷ []

server-Holds : Holds server.clients []
unfolding begin construct
server-Holds = new_heap-Holds

abbrev left : List Client
left = alive probe (served_all counts server.sockfd events []).1

left_clients : left ≡ construct_fd (pos 6) ∷ []
unfolding served_all served begin construct is_connected connected read construct_fd
    BridgeClient.stop
left_clients = refl

available-Serves_example :
    (s' : Server) × (BridgeServer.available 9 probe counts events server
      ≡ some (first_ready counts left, (served_all counts server.sockfd events []).0, s'))
    × Serves server s' left
available-Serves_example =
    available-Serves 9 probe counts events server [] (unfold begin construct in refl) server-Holds
      (omega arith)

-- Two clients at the addresses 1 and 2, of which the peer of the first has gone.
abbrev two : List Client
two = construct_fd (pos 5) ∷ construct_fd (pos 6) ∷ []

abbrev two_items : ℕ → Option (Item Client)
two_items a =
    if a == 1
    then some (record { string = construct_fd (pos 5); next = 2 })
    else if a == 2
    then some (record { string = construct_fd (pos 6); next = 0 })
    else none

abbrev full_server : Server
full_server = record server {
  clients = record { first = 1; heap = record { items = two_items; unused = 3 } };
}

full_server-Holds : Holds full_server.clients two
unfolding member
full_server-Holds = record {
  places = 1 ∷ 2 ∷ [];
  chain = link (λ e. absurd (omega arith)) refl (link (λ e. absurd (omega arith)) refl Chain.end);
  owns = record {
    distinct = (refl, (refl, tt));
    below = λ b m. ground (arith, m);
    only = λ b m. ground (arith, m);
    positive = omega arith;
  };
}

abbrev first_gone : ℤ → ℤ
first_gone fd = if same_fd fd (pos 5) then minus_one else pos 0

write-Serves_example :
    (s' : Server) × (BridgeServer.write 9 first_gone probe (65 ∷ []) full_server
      ≡ some (1, sends (pos 6) (65 ∷ []) ∷ [], s'))
    × Serves full_server s' (construct_fd (pos 6) ∷ [])
unfolding construct_fd
write-Serves_example =
    write-Serves 9 first_gone probe (65 ∷ []) full_server two full_server-Holds (omega arith)

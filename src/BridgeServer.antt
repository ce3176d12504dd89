-- ===== src/BridgeServer.antt =====
-- libraries/Bridge/src/BridgeServer.cpp and BridgeServer.h: a server with the linked list of its
-- clients, which stand in the heap of Items.antt: the item of a client has it as its `string`.
-- `fuel` is for the loops over the list. What the system answers is an argument, by the descriptor
-- where one function asks for several clients: `probe` for a read of no bytes and `counts` for
-- FIONREAD, which do not change during a call of the server.
pub mod Cleanup
pub mod Change
pub mod Idle
pub mod Calls
pub mod Send
mod Tests
use ras_pi_arduino.Prelude.{ℕ, zero, suc, ◌+◌, Bool, true, false, ◌||◌, not, Option, none, some}
use ras_pi_arduino.Prelude.{List, [], ◌∷◌, ◌++◌, length, ltb, ◌==◌, if◌then◌else◌, ◌>>=◌}
use ras_pi_arduino.Prelude.Signed.{ℤ, pos, negsuc, minus_one, is_negative}
use ras_pi_arduino.Items.{Items, Item, Heap, put, unlink}
use ras_pi_arduino.Items
use ras_pi_arduino.BridgeClient.{Client, Call, closes, construct_fd, connected, is_zero}
use ras_pi_arduino.BridgeClient

pub record Server : Type 0 where
  pub sockfd : ℤ
  pub pollfd : ℤ
  pub port : ℕ
  pub max_clients : ℕ
  pub listening : Bool
  pub clients : Items Client

-- `BridgeServer(port, max_clients)`, with the heap in which the list is to be.
unfoldable pub construct : ℕ → ℕ → Heap Client → Server
construct port max_clients heap = record {
  sockfd = minus_one;
  pollfd = pos 0;
  port = port;
  max_clients = max_clients;
  listening = false;
  clients = record { first = 0; heap = heap };
}

abbrev pub Clients : Type 0
Clients = Items Client

abbrev pub same_fd : ℤ → ℤ → Bool
same_fd (pos m) (pos n) = m == n
same_fd (pos m) (negsuc n) = false
same_fd (negsuc m) (pos n) = false
same_fd (negsuc m) (negsuc n) = m == n

-- `connected()` of a client. It changes a client only if it answers false, and then the client is
-- deleted.
unfoldable pub is_connected : (ℤ → ℤ) → Client → Bool
is_connected probe c = (connected (probe c.sockfd) c).0

-- The first loop of `cleanup`, at the client `c1`.
unfoldable pub drop_lost : ℕ → (ℤ → ℤ) → ℕ → Heap Client → Option Clients
drop_lost zero probe c1 h = none
drop_lost (suc fuel) probe c1 h = elim (c1 == 0) [
  | true ↦ some (record { first = c1; heap = h })
  | false ↦ do
    item ← h.items c1
    elim (is_connected probe item.string) [
      | true ↦ some (record { first = c1; heap = h })
      | false ↦ drop_lost fuel probe item.next (put c1 none h)
    ]
]

-- The second loop, where `c1` is the client before `c2`.
unfoldable pub clean_from : ℕ → (ℤ → ℤ) → ℕ → ℕ → Heap Client → Option (Heap Client)
clean_from zero probe c1 c2 h = none
clean_from (suc fuel) probe c1 c2 h = elim (c2 == 0) [
  | true ↦ some h
  | false ↦ do
    item ← h.items c2
    elim (is_connected probe item.string) [
      | true ↦ clean_from fuel probe c2 item.next h
      | false ↦ do h' ← unlink c1 c2 item h; clean_from fuel probe c1 item.next h'
    ]
]

-- `cleanup` behind the first loop.
unfoldable pub clean_behind : ℕ → (ℤ → ℤ) → Clients → Option Clients
clean_behind fuel probe s = elim (s.first == 0) [
  | true ↦ some s
  | false ↦ do
    item ← s.heap.items s.first
    h ← clean_from fuel probe s.first item.next s.heap
    some (record s { heap = h })
]

unfoldable pub cleanup : ℕ → (ℤ → ℤ) → Clients → Option Clients
cleanup fuel probe s = elim (s.first == 0) [
  | true ↦ some s
  | false ↦ do s' ← drop_lost fuel probe s.first s.heap; clean_behind fuel probe s'
]

-- The loop of `write`, for what send answers for each descriptor.
unfoldable pub write_from :
    ℕ → (ℤ → ℤ) → List ℕ → ℕ → Heap Client → Option (List Call × Heap Client)
write_from zero sent bytes it h = none
write_from (suc fuel) sent bytes it h = elim (it == 0) [
  | true ↦ some ([], h)
  | false ↦ do
    item ← h.items it
    let (n, calls, c) = BridgeClient.write (sent item.string.sockfd) bytes item.string
    (more, h') ← write_from fuel sent bytes item.next (put it (some (record item { string = c })) h)
    some (calls ++ more, h')
]

unfoldable pub write : ℕ → (ℤ → ℤ) → (ℤ → ℤ) → List ℕ → Server → Option (ℕ × List Call × Server)
write fuel probe sent bytes s = do
  cs ← cleanup fuel probe s.clients
  (calls, h) ← write_from fuel sent bytes cs.first cs.heap
  some (length bytes, calls, record s { clients = record cs { heap = h } })

-- `stopAll`.
unfoldable pub stop_all : ℕ → Clients → Option (List Call × Clients)
stop_all zero s = none
stop_all (suc fuel) s = elim (s.first == 0) [
  | true ↦ some ([], s)
  | false ↦ do
    item ← s.heap.items s.first
    (more, s') ← stop_all fuel (record { first = item.next; heap = put s.first none s.heap })
    some ((BridgeClient.stop item.string).0 ++ more, s')
]

unfoldable pub client_by_fd : ℕ → ℤ → ℕ → Heap Client → Option ℕ
client_by_fd zero fd it h = none
client_by_fd (suc fuel) fd it h = elim (it == 0) [
  | true ↦ some it
  | false ↦ do
    item ← h.items it
    elim (same_fd item.string.sockfd fd) [
      | true ↦ some it
      | false ↦ client_by_fd fuel fd item.next h
    ]
]

-- `if(c != NULL && !c->available()) c->stop()`, for the client of the descriptor.
unfoldable pub stop_idle : ℕ → (ℤ → ℕ) → ℤ → Clients → Option (List Call × Clients)
stop_idle fuel counts fd s = do
  c ← client_by_fd fuel fd s.first s.heap
  elim (c == 0) [
    | true ↦ some ([], s)
    | false ↦ do
      item ← s.heap.items c
      elim (counts item.string.sockfd == 0) [
        | true ↦
            let (calls, c') = BridgeClient.stop item.string in
            some (calls, record s { heap = put c (some (record item { string = c' })) s.heap })
        | false ↦ some ([], s)
      ]
  ]

-- An event of epoll_wait, with what accept4 answers if it is one of the listening socket.
pub record Event : Type 0 where
  pub fd : ℤ
  pub error : Bool
  pub hup : Bool
  pub input : Bool
  pub accepted : ℤ

-- The body of the loop of `available`.
unfoldable pub serve : ℕ → (ℤ → ℕ) → ℤ → Event → Clients → Option (List Call × Clients)
serve fuel counts sockfd e s = elim (e.error || e.hup || not e.input) [
  | true ↦ stop_idle fuel counts e.fd s
  | false ↦ elim (same_fd sockfd e.fd) [
    | true ↦ elim (is_zero e.accepted) [
      | true ↦ some ([], s)
      | false ↦ do s' ← Items.add fuel (construct_fd e.accepted) s; some ([], s')
    ]
    | false ↦ stop_idle fuel counts e.fd s
  ]
]

unfoldable pub serve_all : ℕ → (ℤ → ℕ) → ℤ → List Event → Clients → Option (List Call × Clients)
serve_all fuel counts sockfd [] s = some ([], s)
serve_all fuel counts sockfd (e ∷ es) s = do
  (calls, s') ← serve fuel counts sockfd e s
  (more, s'') ← serve_all fuel counts sockfd es s'
  some (calls ++ more, s'')

-- The last loop of `available`: a copy of the first client with bytes to read.
unfoldable pub pick_from : ℕ → (ℤ → ℕ) → ℕ → Heap Client → Option Client
pick_from zero counts it h = none
pick_from (suc fuel) counts it h = elim (it == 0) [
  | true ↦ some BridgeClient.construct
  | false ↦ do
    item ← h.items it
    elim (counts item.string.sockfd == 0) [
      | true ↦ pick_from fuel counts item.next h
      | false ↦ some item.string
    ]
]

unfoldable pub available :
    ℕ → (ℤ → ℤ) → (ℤ → ℕ) → List Event → Server → Option (Client × List Call × Server)
available fuel probe counts events s = elim s.listening [
  | false ↦ some (BridgeClient.construct, [], s)
  | true ↦ do
    (calls, served) ← serve_all fuel counts s.sockfd events s.clients
    cs ← cleanup fuel probe served
    c ← pick_from fuel counts cs.first cs.heap
    some (c, calls, record s { clients = cs })
]

-- What the calls of `begin` answer: socket, bind, listen, epoll_create1, epoll_ctl and calloc.
pub record Answers : Type 0 where
  pub fd : ℤ
  pub bound : Bool
  pub listened : Bool
  pub poll : ℤ
  pub added : Bool
  pub allocated : Bool

unfoldable pub begin : Answers → Server → Server
begin a s =
    if s.listening
    then s
    else if is_negative a.fd || not a.bound || not a.listened
    then record s { sockfd = a.fd }
    else if same_fd a.poll minus_one || not a.added || not a.allocated
    then record s { sockfd = a.fd; pollfd = a.poll }
    else record s { sockfd = a.fd; pollfd = a.poll; listening = true }

-- `end`.
unfoldable pub end : ℕ → Server → Option (List Call × Server)
end fuel s = do
  (calls, cs) ← stop_all fuel s.clients
  some (
    calls ++ (closes s.sockfd ∷ []),
    record s { sockfd = minus_one; listening = false; clients = cs },
  )

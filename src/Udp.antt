-- ===== src/Udp.antt =====
-- libraries/Bridge/src/BridgeUdp.cpp and BridgeUdp.h: datagrams over a socket of the system. What
-- socket, bind, gethostbyname and recvfrom answer is an argument; the other system calls are listed
-- in the order in which they are made.
pub mod Receive
pub mod Send
mod Tests
use ras_pi_arduino.Prelude.{ℕ, zero, suc, ◌+◌, ◌-◌, Bool, true, false, not, Option, none, some}
use ras_pi_arduino.Prelude.{List, [], ◌∷◌, ◌++◌, length, take, drop, set, replicate}
use ras_pi_arduino.Prelude.{ltb, leb, ◌==◌, if◌then◌else◌}
use ras_pi_arduino.Prelude.Signed.{ℤ, pos, minus_one, is_minus_one}
use ras_pi_arduino.Cbuf
use ras_pi_arduino.Cbuf.{Cbuf, create, get_size}
use ras_pi_arduino.Ip.{Address, zero_address}

-- `buffer` has the 1460 cells that BridgeUdp.h gives it.
pub record Udp : Type 0 where
  pub server : ℤ
  pub multicast_ip : Address
  pub remote_ip : Address
  pub remote_port : ℕ
  pub buffer : List ℕ
  pub buffer_len : ℕ
  pub rx_buffer : Option Cbuf

pub data Call : Type 0 where
  closes : ℤ → Call
  -- The address and the port that bind is for, and whether it succeeded.
  binds : ℤ → ℕ → Bool → Call
  sends : ℤ → List ℕ → Address → ℕ → Call

-- The constructor. The cells of `buffer`, which it leaves as they are, are taken to be zeros.
unfoldable pub construct : Udp
construct = record {
  server = minus_one;
  multicast_ip = zero_address;
  remote_ip = zero_address;
  remote_port = 0;
  buffer = replicate 1460 0;
  buffer_len = 0;
  rx_buffer = none;
}

-- `if(udp_server)`.
abbrev pub is_nonzero : ℤ → Bool
is_nonzero (pos n) = not (n == 0)
is_nonzero (ℤ.negsuc n) = true

unfoldable pub stop : Udp → List Call × Udp
stop u =
    if is_minus_one u.server
    then ([], u)
    else (closes u.server ∷ [], record u { server = minus_one })

-- `begin`: what it returns, its calls, and the state. `fd` is what socket answers and `bound`
-- whether bind succeeds.
unfoldable pub begin : ℤ → Bool → ℕ → Udp → ℕ × List Call × Udp
begin fd bound port u =
    let (calls, u') = if is_nonzero u.server then stop u else ([], u) in
    if is_minus_one fd
    then (0, calls, record u' { server = fd })
    else if bound
    then (1, calls ++ (binds fd port true ∷ []), record u' { server = fd })
    else (0, calls ++ (binds fd port false ∷ []), record u' { server = minus_one })

unfoldable pub begin_multicast : ℤ → Bool → Address → ℕ → Udp → ℕ × List Call × Udp
begin_multicast fd bound a port u = begin fd bound port (record u { multicast_ip = a })

-- `bzero(cells, n)`.
unfoldable pub bzero : ℕ → List ℕ → Option (List ℕ)
bzero n cells = if leb n (length cells) then some (replicate n 0 ++ drop n cells) else none

-- `bzero(buffer, 1500)` with the length reset.
unfoldable pub clear_buffer : Udp → Option Udp
clear_buffer u = elim (bzero 1500 u.buffer) [
  | none ↦ none
  | some cells ↦ some (record u { buffer = cells; buffer_len = 0 })
]

unfoldable pub begin_packet : Udp → Option (ℕ × Udp)
begin_packet u = elim (u.remote_port == 0) [
  | true ↦ some (0, u)
  | false ↦ elim (clear_buffer u) [ none ↦ none | some u' ↦ some (1, u') ]
]

unfoldable pub begin_packet_to : Address → ℕ → Udp → Option (ℕ × Udp)
begin_packet_to ip port u = begin_packet (record u { remote_ip = ip; remote_port = port })

-- `beginPacket` of a name, for which gethostbyname answers `host`.
unfoldable pub begin_packet_host : Option Address → ℕ → Udp → Option (ℕ × Udp)
begin_packet_host none port u = some (0, u)
begin_packet_host (some ip) port u = begin_packet_to ip port u

unfoldable pub end_packet : Udp → Call
end_packet u = sends u.server (take u.buffer_len u.buffer) u.remote_ip u.remote_port

-- `buffer[buffer_len++] = data`.
unfoldable pub append : ℕ → Udp → Option Udp
append byte u =
    if ltb u.buffer_len (length u.buffer)
    then some (record u { buffer = set u.buffer u.buffer_len byte; buffer_len = u.buffer_len + 1 })
    else none

unfoldable pub write : ℕ → Udp → Option (ℕ × List Call × Udp)
write byte u = elim (u.buffer_len == 1500) [
  | true ↦ elim (clear_buffer u) [
    | none ↦ none
    | some u' ↦ elim (append byte u') [ none ↦ none | some u'' ↦ some (1, end_packet u ∷ [], u'') ]
  ]
  | false ↦ elim (append byte u) [ none ↦ none | some u' ↦ some (1, [], u') ]
]

-- The loop of `write(buffer, size)`.
unfoldable pub write_all : List ℕ → Udp → Option (ℕ × List Call × Udp)
write_all [] u = some (0, [], u)
write_all (x ∷ xs) u = elim (write x u) [
  | none ↦ none
  | some r ↦ elim (write_all xs r.2) [ none ↦ none | some q ↦ some (suc q.0, r.1 ++ q.1, q.2) ]
]

-- What recvfrom answers: a datagram, with its sender, of which it copies 2048 bytes at most.
pub record Datagram : Type 0 where
  pub payload : List ℕ
  pub ip : Address
  pub port : ℕ

unfoldable pub parse_packet : Option Datagram → Udp → ℕ × Udp
parse_packet got u = elim u.rx_buffer [
  | some b ↦ (0, u)
  | none ↦ elim got [
    | none ↦ (0, u)
    | some d ↦
        let buf = take 2048 d.payload in
        (
          length buf,
          record u {
            remote_ip = d.ip;
            remote_port = d.port;
            rx_buffer = some (Cbuf.write (create (length buf)) buf (length buf)).1;
          },
        )
  ]
]

unfoldable pub available : Udp → ℕ
available u = elim u.rx_buffer [ none ↦ 0 | some b ↦ get_size b ]

-- The buffer after a read from it: deleted if nothing is left.
unfoldable pub keep : Cbuf → Option Cbuf
keep b = if get_size b == 0 then none else some b

-- `read()`.
unfoldable pub read_char : Udp → ℤ × Udp
read_char u = elim u.rx_buffer [
  | none ↦ (minus_one, u)
  | some b ↦ let (out, b') = Cbuf.read_char b in (out, record u { rx_buffer = keep b' })
]

-- `read(buffer, len)`: the count that it returns, and what it copies.
unfoldable pub read : ℕ → Udp → ℕ × List ℕ × Udp
read len u = elim u.rx_buffer [
  | none ↦ (0, [], u)
  | some b ↦ let (n, xs, b') = Cbuf.read b len in (n, xs, record u { rx_buffer = keep b' })
]

unfoldable pub peek : Udp → ℤ
peek u = elim u.rx_buffer [ none ↦ minus_one | some b ↦ Cbuf.peek b ]

unfoldable pub flush : Udp → Udp
flush u = record u { rx_buffer = none }

unfoldable pub remote : Udp → Address × ℕ
remote u = (u.remote_ip, u.remote_port)

-- ===== src/BridgeClient.antt =====
-- libraries/Bridge/src/BridgeClient.cpp and BridgeClient.h: a connection over a socket. What the
-- system answers is an argument: `probe` for a read of no bytes, `count` for FIONREAD, and the
-- answers of socket, connect, send, recv and setsockopt. The calls that tell on others are listed
-- in the order in which they are made. The member `next` is that of the linked list of the server.
pub mod Quiet
mod Tests
use ras_pi_arduino.Prelude.{ℕ, ◌+◌, Bool, true, false, ◌&&◌, not, Option, none, some}
use ras_pi_arduino.Prelude.{List, [], ◌∷◌, length, get_or, ltb, ◌==◌, if◌then◌else◌}
use ras_pi_arduino.Prelude.Signed.{ℤ, pos, negsuc, minus_one, is_negative}
use ras_pi_arduino.Ip
use ras_pi_arduino.Ip.{Address}

pub record Client : Type 0 where
  pub sockfd : ℤ
  pub connected_flag : Bool

pub data Call : Type 0 where
  connects : ℤ → Address → ℕ → Call
  sends : ℤ → List ℕ → Call
  receives : ℤ → ℕ → Call
  closes : ℤ → Call

-- `BridgeClient()` and `BridgeClient(fd)`.
unfoldable pub construct : Client
construct = record { sockfd = minus_one; connected_flag = false }

unfoldable pub construct_fd : ℤ → Client
construct_fd fd = record { sockfd = fd; connected_flag = true }

-- `connect`, where `fd` is what socket answers and `answer` what connect does.
unfoldable pub connect : ℤ → ℤ → Address → ℕ → Client → ℕ × List Call × Client
connect fd answer ip port c =
    if is_negative fd
    then (0, [], record c { sockfd = fd })
    else if is_negative answer
    then (0, connects fd ip port ∷ [], record c { sockfd = fd })
    else (1, connects fd ip port ∷ [], record c { sockfd = fd; connected_flag = true })

-- `connect` to a name, for which gethostbyname answers `host`.
unfoldable pub connect_host : Option Address → ℤ → ℤ → ℕ → Client → ℕ × List Call × Client
connect_host none fd answer port c = (0, [], c)
connect_host (some ip) fd answer port c = connect fd answer ip port c

-- The `int` that send returned, as the count that `write` returns, where it is not negative.
abbrev pub to_count : ℤ → ℕ
to_count (pos n) = n
to_count (negsuc n) = 0

unfoldable pub write : ℤ → List ℕ → Client → ℕ × List Call × Client
write res buf c =
    if c.connected_flag
    then (
      to_count res,
      sends c.sockfd buf ∷ [],
      record c { connected_flag = not (is_negative res) },
    )
    else (0, [], c)

abbrev pub is_zero : ℤ → Bool
is_zero (pos n) = n == 0
is_zero (negsuc n) = false

-- `read(buf, size)`: what it returns, what it copies, its calls, and the client. `received` and
-- `res` are what recv copies and returns.
unfoldable pub read : ℕ → ℤ → ℕ → List ℕ → ℤ → Client → ℤ × List ℕ × List Call × Client
read size probe count received res c =
    if c.connected_flag
    then if ltb 0 size && is_zero probe && ltb 0 count
      then (
        res,
        received,
        receives c.sockfd size ∷ [],
        record c { connected_flag = not (is_negative res) },
      )
      else (probe, [], [], record c { connected_flag = not (is_negative probe) })
    else (minus_one, [], [], c)

-- `read()`: `data` is 0 unless a byte was copied to it.
unfoldable pub read_char : ℤ → ℕ → List ℕ → ℤ → Client → ℤ × List Call × Client
read_char probe count received res c =
    let (r, copied, calls, c') = read 1 probe count received res c in
    (if is_negative r then r else pos (get_or copied 0 0), calls, c')

unfoldable pub stop : Client → List Call × Client
stop c = (
  elim c.sockfd [ pos fd ↦ if ltb 0 fd then closes (pos fd) ∷ [] else [] | negsuc n ↦ [] ],
  record c { connected_flag = false },
)

unfoldable pub connected : ℤ → Client → Bool × Client
connected probe c =
    if c.connected_flag
    then (let (r, copied, calls, c') = read 0 probe 0 [] (pos 0) c in (c'.connected_flag, c'))
    else (false, c)

-- `setTimeout`, for the answers of its two calls of setsockopt, of which the second is made if the
-- first succeeds.
unfoldable pub set_timeout : ℤ → ℤ → ℤ
set_timeout first second = if is_negative first then minus_one else second

-- `operator==`, for what getpeername answers for each socket.
unfoldable pub equals : (ℤ → Address) → (ℤ → ℕ) → (ℤ → ℤ → Bool) → Client → Client → Bool
equals ip port same a b =
    same a.sockfd b.sockfd
    && port a.sockfd == port b.sockfd
    && Ip.equals (ip a.sockfd) (ip b.sockfd)

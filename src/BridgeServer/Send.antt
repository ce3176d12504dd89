-- ===== src/BridgeServer/Send.antt =====
-- What `write` sends, and to whom.
use ras_pi_arduino.Prelude.{ℕ, ◌<◌, ◌≡◌, refl, arith}
use ras_pi_arduino.Prelude.{
  ◌&&◌, not, ap, ◌∙◌, some, List, [], ◌∷◌, map, length, if◌then◌else◌, Bool-cases, inl, inr, ◌>>=◌,
}
use ras_pi_arduino.Prelude.Signed.{ℤ, is_negative}
use ras_pi_arduino.Items.Refine.{Holds}
use ras_pi_arduino.BridgeClient.{Client, Call, sends, construct_fd, is_zero}
use ras_pi_arduino.BridgeServer.{
  Server, Clients, Event, serve, serve_all, stop_idle, cleanup, pick_from, write_from, stop_all,
  same_fd, is_connected,
}
use ras_pi_arduino.BridgeServer.Calls.{Serves, length-alive}
use ras_pi_arduino.BridgeServer.Cleanup.{alive, cleanup-Holds}
use ras_pi_arduino.BridgeServer.Change.{written, write_calls, write_from-Holds}
use ras_pi_arduino.BridgeClient
use ras_pi_arduino.BridgeServer

-- The clients that were connected and whose probe does not fail.
abbrev pub staying : (ℤ → ℤ) → List Client → List Client
staying probe [] = []
staying probe (c ∷ cs) =
    if c.connected_flag && not (is_negative (probe c.sockfd))
    then c ∷ staying probe cs
    else staying probe cs

-- A client, connected exactly if its send did not fail.
abbrev pub after_send : (ℤ → ℤ) → Client → Client
after_send sent c = record c { connected_flag = not (is_negative (sent c.sockfd)) }

abbrev pub one_send : List ℕ → Client → Call
one_send bytes c = sends c.sockfd bytes

is_connected-eq :
    (probe : ℤ → ℤ) (c : Client)
    → is_connected probe c ≡ (c.connected_flag && not (is_negative (probe c.sockfd)))
unfolding is_connected BridgeClient.connected BridgeClient.read
is_connected-eq probe c = ground arith

alive-staying : (probe : ℤ → ℤ) (cs : List Client) → alive probe cs ≡ staying probe cs
alive-staying probe [] = refl
alive-staying probe (c ∷ cs) =
    elim (Bool-cases (c.connected_flag && not (is_negative (probe c.sockfd)))) [
      | inl h ↦ rw (alive, is_connected-eq, h) (ap (λ more. c ∷ more) (alive-staying probe cs))
      | inr h ↦ rw (alive, is_connected-eq, h) (alive-staying probe cs)
    ]

sent_to-staying :
    (probe sent : ℤ → ℤ) (bytes : List ℕ) (cs : List Client)
    → (write_calls sent bytes (staying probe cs) ≡ map (one_send bytes) (staying probe cs))
      × (map (written sent bytes) (staying probe cs) ≡ map (after_send sent) (staying probe cs))
unfolding BridgeClient.write
sent_to-staying probe sent bytes [] = (refl, refl)
sent_to-staying probe sent bytes (c ∷ cs) =
    let (calls, list) = sent_to-staying probe sent bytes cs in
    elim (Bool-cases c.connected_flag) [
      | inr h ↦ rw h (calls, list)
      | inl h ↦ elim (Bool-cases (is_negative (probe c.sockfd))) [
        | inl n ↦ rw (h, n) (calls, list)
        | inr n ↦
            rw (h, n)
              (
                ap (λ more. one_send bytes c ∷ more) calls,
                ap (λ more. after_send sent c ∷ more) list,
              )
      ]
    ]

-- write first deletes the clients that were not connected or whose probe fails, sends the bytes
-- once to each client that is left, in order, and returns their number; a client stays connected
-- exactly if its send did not fail, and all stay in the list. The fuel exceeds the clients.
pub write-Serves :
    (fuel : ℕ) (probe sent : ℤ → ℤ) (bytes : List ℕ) (s : Server) (cs : List Client)
    → Holds s.clients cs
    → length cs < fuel
    → (s' : Server) × (BridgeServer.write fuel probe sent bytes s
        ≡ some (length bytes, map (one_send bytes) (staying probe cs), s'))
      × Serves s s' (map (after_send sent) (staying probe cs))
unfolding BridgeServer.write
write-Serves fuel probe sent bytes s cs h enough =
    let (s1, done, h1) = cleanup-Holds probe fuel h enough in
    let (heap, done', h2) =
      write_from-Holds sent bytes fuel h1 (omega (arith, length-alive probe cs)) in
    let stay = alive-staying probe cs in
    let (calls, list) = sent_to-staying probe sent bytes cs in
    let all_calls = ap (write_calls sent bytes) stay ∙ calls in
    let all_clients = ap (map (written sent bytes)) stay ∙ list in
    (
      record s { clients = record s1 { heap = heap } },
      rw (BridgeServer.write, done, ◌>>=◌, done', all_calls) refl,
      record { clients = rw all_clients at h2; same = refl },
    )

-- ===== src/BridgeServer/Calls.antt =====
-- The methods of the server, and what they make of the list of its clients.
use ras_pi_arduino.Prelude.{ℕ, suc, ◌+◌, ◌<◌, ◌≤◌, ◌≡◌, refl, arith, Option}
use ras_pi_arduino.Prelude.{
  Bool, true, false, ◌||◌, not, some, List, [], ◌∷◌, ◌++◌, length, length-append, if◌then◌else◌,
  Bool-cases, inl, inr, ◌>>=◌,
}
use ras_pi_arduino.Prelude.Signed.{ℤ, minus_one}
use ras_pi_arduino.Items.Refine.{Holds, add-Chain}
use ras_pi_arduino.BridgeClient.{Client, Call, closes, construct_fd, is_zero}
use ras_pi_arduino.BridgeServer.{
  Server, Clients, Event, serve, serve_all, stop_idle, cleanup, pick_from, write_from, stop_all,
  same_fd, is_connected,
}
use ras_pi_arduino.BridgeServer.Cleanup.{alive, cleanup-Holds}
use ras_pi_arduino.BridgeServer.Change.{stop_calls, stop_all-Chain, first_ready, pick_from-Chain}
use ras_pi_arduino.BridgeServer.Idle.{
  changed, length-changed, calls_of, stopped, idle_calls, stop_idle-Holds,
}
use ras_pi_arduino.BridgeServer

module _ (counts : ℤ → ℕ) (sockfd : ℤ) where
  -- An event on the listening socket, with no error.
  abbrev pub is_accept : Event → Bool
  is_accept e = if e.error || e.hup || not e.input then false else same_fd sockfd e.fd

  -- What an event makes of the list, and the calls for it.
  unfoldable pub served : Event → List Client → List Call × List Client
  served e cs =
      if is_accept e
      then if is_zero e.accepted then ([], cs) else ([], cs ++ (construct_fd e.accepted ∷ []))
      else (calls_of (idle_calls counts) e.fd cs, changed (stopped counts) e.fd cs)

  unfoldable pub served_all : List Event → List Client → List Call × List Client
  served_all [] cs = ([], cs)
  served_all (e ∷ es) cs =
      let (calls, cs') = served e cs in
      let (more, cs'') = served_all es cs' in (calls ++ more, cs'')

  length-served : (e : Event) (cs : List Client) → length (served e cs).1 ≤ suc (length cs)
  unfolding served
  length-served e cs = ground (
    arith,
    length-changed (stopped counts) e.fd cs,
    length-append cs (construct_fd e.accepted ∷ []),
  )

  abbrev Served : Option (List Call × Clients) → List Call × List Client → Type 0
  Served r t = (s' : Clients) × (r ≡ some (t.0, s')) × Holds s' t.1

  serve-Holds :
      (fuel : ℕ) (e : Event) {s : Clients} {cs : List Client}
      → Holds s cs
      → length cs < fuel
      → Served (serve fuel counts sockfd e s) (served e cs)
  unfolding serve served
  serve-Holds fuel e {s} {cs} h enough =
      let (s1, done, h1) = stop_idle-Holds counts fuel e.fd h enough in
      let (s2, added, h2) = add-Chain fuel (construct_fd e.accepted) h.chain h.owns enough in
      elim (Bool-cases (e.error || e.hup || not e.input)) [
        | inl b ↦ (s1, rw (serve, b) done, rw b h1)
        | inr b ↦ elim (Bool-cases (same_fd sockfd e.fd)) [
          | inl t ↦ elim (Bool-cases (is_zero e.accepted)) [
            | inl z ↦ (s, rw (serve, b, t, z) refl, rw (b, t, z) h)
            | inr z ↦ (s2, rw (serve, b, t, z, added) refl, rw (b, t, z) h2)
          ]
          | inr t ↦ (s1, rw (serve, b, t) done, rw (b, t) h1)
        ]
      ]

  serve_all-Holds :
      (fuel : ℕ) (es : List Event) {s : Clients} {cs : List Client}
      → Holds s cs
      → length cs + length es < fuel
      → Served (serve_all fuel counts sockfd es s) (served_all es cs)
  unfolding serve_all served_all
  serve_all-Holds fuel [] {s} h enough = (s, refl, h)
  serve_all-Holds fuel (e ∷ es) {s} {cs} h enough =
      let (s1, done, h1) = serve-Holds fuel e h (omega arith) in
      let (s2, done', h2) = serve_all-Holds fuel es h1 (omega (arith, length-served e cs)) in
      (s2, rw (serve_all, done, ◌>>=◌, done') refl, h2)

  length-served_all :
      (es : List Event) (cs : List Client) → length (served_all es cs).1 ≤ length cs + length es
  unfolding served_all
  length-served_all [] cs = omega arith
  length-served_all (e ∷ es) cs =
      omega (arith, length-served e cs, length-served_all es (served e cs).1)

pub length-alive : (probe : ℤ → ℤ) (cs : List Client) → length (alive probe cs) ≤ length cs
length-alive probe [] = omega arith
length-alive probe (c ∷ cs) = ground (arith, length-alive probe cs)

-- The server with the list as its clients.
pub record Serves (s s' : Server) (cs : List Client) : Type 0 where
  pub clients : Holds s'.clients cs
  pub same : record s { clients = s'.clients } ≡ s'

-- available of a server that listens serves the events in order: an event on the listening socket
-- adds the client that accept4 gives at the end of the list, unless it is descriptor 0, and any
-- other stops the first client of its descriptor if that has nothing to read. Then the clients that
-- are not connected are deleted, and the answer is a copy of the first one left with bytes to read.
-- The fuel exceeds the clients and the events.
pub available-Serves :
    (fuel : ℕ) (probe : ℤ → ℤ) (counts : ℤ → ℕ) (events : List Event) (s : Server)
    (cs : List Client)
    → s.listening ≡ true
    → Holds s.clients cs
    → length cs + length events < fuel
    → let (calls, cs') = served_all counts s.sockfd events cs in
      (s' : Server) × (BridgeServer.available fuel probe counts events s
        ≡ some (first_ready counts (alive probe cs'), calls, s'))
      × Serves s s' (alive probe cs')
unfolding BridgeServer.available
available-Serves fuel probe counts events s cs on h enough =
    let (s1, done, h1) = serve_all-Holds counts s.sockfd fuel events h enough in
    let cs1 = (served_all counts s.sockfd events cs).1 in
    let few = length-served_all counts s.sockfd events cs in
    let (s2, done', h2) = cleanup-Holds probe fuel h1 (omega (arith, few)) in
    let picked =
      pick_from-Chain counts fuel h2.chain (omega (arith, few, length-alive probe cs1)) in
    (
      record s { clients = s2 },
      ground (arith, on, done, done', picked),
      record { clients = h2; same = refl },
    )

-- `end` stops every client, in order, and closes the listening socket.
pub end-Serves :
    (fuel : ℕ) (s : Server) (cs : List Client)
    → Holds s.clients cs
    → length cs < fuel
    → (s' : Server) × (BridgeServer.end fuel s ≡ some (stop_calls cs ++ (closes s.sockfd ∷ []), s'))
      × Holds s'.clients []
      × (s'.listening ≡ false)
unfolding BridgeServer.end
end-Serves fuel s cs h enough =
    let (s1, done, h1) = stop_all-Chain fuel h.chain h.owns enough in
    (
      record s { sockfd = minus_one; listening = false; clients = s1 },
      rw (BridgeServer.end, done) refl,
      h1,
      refl,
    )

-- ===== src/BridgeClient/Quiet.antt =====
-- A connection that has ended.
use ras_pi_arduino.Prelude.{ℕ, ◌<◌, ◌≡◌, refl, ap, arith, Bool, true, false, All}
use ras_pi_arduino.Prelude.{List, [], ◌∷◌, ◌++◌, map, ltb, Bool-cases, inl, inr, ◌⊎◌}
use ras_pi_arduino.Prelude.Signed.{ℤ, pos, negsuc, minus_one, is_negative}
use ras_pi_arduino.BridgeClient.{Client, Call, closes}
use ras_pi_arduino.BridgeClient

-- The calls of a sketch that do not connect, with what the system answers.
pub data Op : Type 0 where
  write : ℤ → List ℕ → Op
  read : ℕ → ℤ → ℕ → List ℕ → ℤ → Op
  read_char : ℤ → ℕ → List ℕ → ℤ → Op
  connected : ℤ → Op
  stop : Op

pub data Reply : Type 0 where
  count : ℕ → Reply
  value : ℤ → Reply
  copy : ℤ → List ℕ → Reply
  truth : Bool → Reply
  done : Reply

unfoldable pub perform : Op → Client → Reply × List Call × Client
perform (write res buf) c =
    let (n, calls, c') = BridgeClient.write res buf c in (count n, calls, c')
perform (read size probe n received res) c =
    let (r, xs, calls, c') = BridgeClient.read size probe n received res c in (copy r xs, calls, c')
perform (read_char probe n received res) c =
    let (r, calls, c') = BridgeClient.read_char probe n received res c in (value r, calls, c')
perform (connected probe) c = let (b, c') = BridgeClient.connected probe c in (truth b, [], c')
perform stop c = let (calls, c') = BridgeClient.stop c in (done, calls, c')

unfoldable pub run : List Op → Client → List Reply × List Call × Client
run [] c = ([], [], c)
run (op ∷ ops) c =
    let (r, calls, c') = perform op c in
    let (rs, more, c'') = run ops c' in (r ∷ rs, calls ++ more, c'')

-- What a call answers when the connection has ended.
abbrev pub refusal : Op → Reply
refusal (write res buf) = count 0
refusal (read size probe n received res) = copy minus_one []
refusal (read_char probe n received res) = value minus_one
refusal (connected probe) = truth false
refusal stop = done

-- A read that asks recv, of some bytes that are there, and recv fails.
abbrev pub RecvFails : ℕ → ℤ → ℕ → ℤ → Type 0
RecvFails size probe n res = (0 < size) × (probe ≡ pos 0) × (0 < n) × (is_negative res ≡ true)

-- The calls that fail: send, the probe of a read of no bytes, or recv gives a negative number.
abbrev pub Fails : Op → Type 0
Fails (write res buf) = is_negative res ≡ true
Fails (read size probe n received res) = (is_negative probe ≡ true) ⊎ RecvFails size probe n res
Fails (read_char probe n received res) = (is_negative probe ≡ true) ⊎ RecvFails 1 probe n res
Fails (connected probe) = is_negative probe ≡ true
Fails stop = Unit

-- The calls of the system are closes of the socket.
abbrev pub OnlyCloses : ℤ → List Call → Type 0
OnlyCloses fd calls = All (λ call. call ≡ closes fd) calls

pub record Quiet (c : Client) (ops : List Op) (r : List Reply × List Call × Client) : Type 0 where
  pub refused : r.0 ≡ map refusal ops
  pub calls : OnlyCloses c.sockfd r.1
  pub ended : r.2.connected_flag ≡ false

abbrev ended_at : ℤ → Client
ended_at fd = record { sockfd = fd; connected_flag = false }

stop-OnlyCloses : (fd : ℤ) → OnlyCloses fd (BridgeClient.stop (ended_at fd)).0
unfolding BridgeClient.stop
stop-OnlyCloses (negsuc n) = tt
stop-OnlyCloses (pos n) = elim (Bool-cases (ltb 0 n)) [
  | inl e ↦ rw (BridgeClient.stop, e) (refl, tt)
  | inr e ↦ rw (BridgeClient.stop, e) tt
]

All-append :
    (fd : ℤ) (xs ys : List Call) → OnlyCloses fd xs → OnlyCloses fd ys → OnlyCloses fd (xs ++ ys)
All-append fd [] ys h k = k
All-append fd (x ∷ xs) ys h k = (h.0, All-append fd xs ys h.1 k)

-- One call at a connection that has ended.
perform-refusal :
    (op : Op) (fd : ℤ)
    → ((perform op (ended_at fd)).0 ≡ refusal op)
      × OnlyCloses fd (perform op (ended_at fd)).1
      × ((perform op (ended_at fd)).2 ≡ ended_at fd)
unfolding perform BridgeClient.write BridgeClient.read BridgeClient.read_char BridgeClient.connected
perform-refusal (write res buf) fd = (refl, tt, refl)
perform-refusal (read size probe n received res) fd = (refl, tt, refl)
perform-refusal (read_char probe n received res) fd = (refl, tt, refl)
perform-refusal (connected probe) fd = (refl, tt, refl)
perform-refusal stop fd = (refl, stop-OnlyCloses fd, unfold BridgeClient.stop in refl)

run-Quiet : (ops : List Op) (fd : ℤ) → Quiet (ended_at fd) ops (run ops (ended_at fd))
unfolding run
run-Quiet [] fd = record { refused = refl; calls = tt; ended = refl }
run-Quiet (op ∷ ops) fd =
    let (reply, calls, same) = perform-refusal op fd in
    let q = run-Quiet ops fd in
    rw (run, reply, same)
      (record {
        refused = ap (λ rs. refusal op ∷ rs) q.refused;
        calls = All-append fd (perform op (ended_at fd)).1 (run ops (ended_at fd)).1 calls q.calls;
        ended = q.ended;
      })

ended-perform : (op : Op) (c : Client) → Fails op → (perform op c).2 ≡ ended_at c.sockfd
unfolding perform BridgeClient.write BridgeClient.read BridgeClient.read_char BridgeClient.connected
    BridgeClient.stop
ended-perform (write res buf) c h = ground (arith, h)
ended-perform (read size (pos k) n received res) c (inl h) = cc
ended-perform (read size (negsuc k) n received res) c (inl h) = ground (arith, h)
ended-perform (read size probe n received res) c (inr (some_size, ready, there, h)) =
    rw ready (ground (arith, some_size, there, h))
ended-perform (read_char (pos k) n received res) c (inl h) = cc
ended-perform (read_char (negsuc k) n received res) c (inl h) = ground (arith, h)
ended-perform (read_char probe n received res) c (inr (some_size, ready, there, h)) =
    rw ready (ground (arith, there, h))
ended-perform (connected (pos k)) c h = cc
ended-perform (connected (negsuc k)) c h = ground (arith, h)
ended-perform stop c h = refl

-- After a call of write, read or connected that the system fails, which for a read is in its probe
-- of no bytes or, with bytes to read, in recv, or after stop, the connection stays ended, whatever the system answers and whichever of these calls follow: nothing more is sent or
-- received, every write gives 0, every read -1 and connected false, and the only calls that reach
-- the socket are the closes of stop.
pub perform-Quiet :
    (op : Op) (ops : List Op) (c : Client)
    → Fails op
    → Quiet (perform op c).2 ops (run ops (perform op c).2)
perform-Quiet op ops c h = rw (ended-perform op c h) (run-Quiet ops c.sockfd)

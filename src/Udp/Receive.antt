-- ===== src/Udp/Receive.antt =====
-- The received side of BridgeUDP against the bytes that a sketch is to see.
use ras_pi_arduino.Prelude.{
  ℕ, zero, suc, ◌-◌, ◌<◌, ◌^◌, ◌≡◌, refl, sym, ap, ap₂, subst, ◌∙◌, arith, min,
}
use ras_pi_arduino.Prelude.{false, Option, none, some, List, [], ◌∷◌}
use ras_pi_arduino.Prelude.{length, take, length-take, ltb, ◌==◌, if◌then◌else◌}
use ras_pi_arduino.Prelude.Signed.{ℤ, minus_one}
use ras_pi_arduino.Fifo
use ras_pi_arduino.Cbuf
use ras_pi_arduino.Cbuf.{Cbuf, create, get_size}
use ras_pi_arduino.Cbuf.Ops.{IsValid, contents, capacity, create-IsValid, length-contents, read_lem}
use ras_pi_arduino.Prelude.Slices.{blit}
use ras_pi_arduino.Cbuf.Window.{window}
use ras_pi_arduino.Cbuf.Run.{
  read_char-refines, read_char-IsValid, peek-refines, read-refines, write-refines, write-IsValid,
}
use ras_pi_arduino.Udp.{Udp, Datagram}
use ras_pi_arduino.Udp

-- The calls that look at what came in; `parse_packet` with what recvfrom answers.
pub data Op : Type 0 where
  parse_packet : Option Datagram → Op
  available read_char peek flush remote : Op
  read : ℕ → Op

pub data Reply : Type 0 where
  count : ℕ → Reply
  value : ℤ → Reply
  bytes : ℕ → List ℕ → Reply
  sender : List ℕ × ℕ → Reply
  done : Reply

unfoldable pub perform : Op → Udp → Reply × Udp
perform (parse_packet got) u = let (n, u') = Udp.parse_packet got u in (count n, u')
perform available u = (count (Udp.available u), u)
perform read_char u = let (c, u') = Udp.read_char u in (value c, u')
perform peek u = (value (Udp.peek u), u)
perform flush u = (done, Udp.flush u)
perform remote u = (sender (Udp.remote u), u)
perform (read n) u = let (k, xs, u') = Udp.read n u in (bytes k xs, u')

unfoldable pub run : List Op → Udp → List Reply
run [] u = []
run (op ∷ ops) u = let (r, u') = perform op u in r ∷ run ops u'

-- What a sketch sees: the bytes that are left of a packet, if there is one, and its sender.
pub record View : Type 0 where
  pub packet : Option (List ℕ)
  pub from : List ℕ × ℕ

abbrev rest_of : List ℕ → Option (List ℕ)
rest_of [] = none
rest_of (x ∷ xs) = some (x ∷ xs)

-- All but the last byte of the first 2048.
abbrev pub without_last : List ℕ → List ℕ
without_last xs = take (length (take 2048 xs) - 1) (take 2048 xs)

unfoldable pub look : Op → View → Reply × View
look (parse_packet got) v = elim v.packet [
  | some q ↦ (count 0, v)
  | none ↦ elim got [
    | none ↦ (count 0, v)
    | some d ↦ (
      count (length (take 2048 d.payload)),
      record { packet = some (without_last d.payload); from = (d.ip, d.port) },
    )
  ]
]
look available v = (count (elim v.packet [ none ↦ 0 | some q ↦ length q ]), v)
look read_char v = elim v.packet [
  | none ↦ (value minus_one, v)
  | some q ↦ let (c, q') = Fifo.pop q in (value c, record v { packet = rest_of q' })
]
look peek v = (value (elim v.packet [ none ↦ minus_one | some q ↦ Fifo.peek q ]), v)
look flush v = (done, record v { packet = none })
look remote v = (sender v.from, v)
look (read n) v = elim v.packet [
  | none ↦ (bytes 0 [], v)
  | some q ↦ let (k, xs, q') = Fifo.take_out q n in (bytes k xs, record v { packet = rest_of q' })
]

unfoldable pub look_all : List Op → View → List Reply
look_all [] v = []
look_all (op ∷ ops) v = let (r, v') = look op v in r ∷ look_all ops v'

-- A buffer that holds `q`: one in use, or one of size 0, which an empty datagram gives.
pub data Buffers : Cbuf → List ℕ → Type 0 where
  live : {b : Cbuf} {q : List ℕ} → IsValid b → contents b ≡ q → Buffers b q
  unused : Buffers (create 0) []

pub data Sees : Option Cbuf → Option (List ℕ) → Type 0 where
  nothing : Sees none none
  something : {b : Cbuf} {q : List ℕ} → Buffers b q → Sees (some b) (some q)

pub record Shows (u : Udp) (v : View) : Type 0 where
  pub packet : Sees u.rx_buffer v.packet
  pub from : Udp.remote u ≡ v.from

abbrev Follows : Op → Udp → View → Type 0
Follows op u v = ((perform op u).0 ≡ (look op v).0) × Shows (perform op u).1 (look op v).1

get_size-Buffers : {b : Cbuf} {q : List ℕ} → Buffers b q → get_size b ≡ length q
get_size-Buffers (live v e) = sym (length-contents v) ∙ ap (λ q. length q) e
get_size-Buffers unused = unfold get_size create in refl

Sees-keep : {b : Cbuf} (q : List ℕ) → Buffers b q → Sees (Udp.keep b) (rest_of q)
unfolding Udp.keep
Sees-keep {b} [] h = rw (Udp.keep, get_size-Buffers h) nothing
Sees-keep {b} (x ∷ q) h =
    let more : (suc (length q) == 0) ≡ false = ground arith in
    rw (Udp.keep, get_size-Buffers h, more) (something h)

abbrev Pops : List ℕ → ℤ × Cbuf → Type 0
Pops q r = (r.0 ≡ (Fifo.pop q).0) × Buffers r.1 (Fifo.pop q).1

read_char-Buffers : {b : Cbuf} {q : List ℕ} → Buffers b q → Pops q (Cbuf.read_char b)
read_char-Buffers (live v e) =
    let r = read_char-refines v in
    (
      ap (λ t. t.0) r ∙ ap (λ q. (Fifo.pop q).0) e,
      live (read_char-IsValid v) (ap (λ t. t.1) r ∙ ap (λ q. (Fifo.pop q).1) e),
    )
read_char-Buffers unused = unfold Cbuf.read_char create Fifo.pop in (refl, unused)

peek-Buffers : {b : Cbuf} {q : List ℕ} → Buffers b q → Cbuf.peek b ≡ Fifo.peek q
peek-Buffers (live v e) = peek-refines v ∙ ap (λ q. Fifo.peek q) e
peek-Buffers unused = unfold Cbuf.peek create Fifo.peek in refl

abbrev Takes : List ℕ → ℕ → ℕ × List ℕ × Cbuf → Type 0
Takes q n r = let t = Fifo.take_out q n in (r.0 ≡ t.0) × (r.1 ≡ t.1) × Buffers r.2 t.2

read-nothing : (n : ℕ) → Cbuf.read (create 0) n ≡ (0, [], create 0)
unfolding Cbuf.read Cbuf.copy_out get_size create
read-nothing n = let e : (if ltb n 0 then n else 0) ≡ 0 = ground arith in rw (Cbuf.read, e) refl

take_out-nil : (n : ℕ) → Fifo.take_out [] n ≡ (0, [], [])
unfolding Fifo.take_out
take_out-nil zero = refl
take_out-nil (suc n) = let e : min (suc n) 0 ≡ 0 = omega arith in rw (Fifo.take_out, e) refl

read-Buffers : {b : Cbuf} {q : List ℕ} (n : ℕ) → Buffers b q → Takes q n (Cbuf.read b n)
read-Buffers n (live v e) =
    let r = read-refines v n in
    (
      ap (λ t. t.0) r ∙ ap (λ q. (Fifo.take_out q n).0) e,
      ap (λ t. t.1) r ∙ ap (λ q. (Fifo.take_out q n).1) e,
      live (read_lem n v).valid (ap (λ t. t.2) r ∙ ap (λ q. (Fifo.take_out q n).2) e),
    )
read-Buffers n unused = rw (read-nothing n, take_out-nil n) (refl, refl, unused)

write-Buffers :
    (xs : List ℕ)
    → length xs < 2 ^ 31
    → Buffers (Cbuf.write (create (length xs)) xs (length xs)).1 (take (length xs - 1) xs)
write-Buffers [] h = unfold Cbuf.write Cbuf.copy_in Cbuf.room blit create in unused
write-Buffers (x ∷ xs) h =
    let v = create-IsValid (suc (length xs)) (omega arith) h in
    live (write-IsValid (x ∷ xs) v) (ap (λ t. t.1) (write-refines v (x ∷ xs)) ∙ all)
  where
    all :
        (Fifo.push_all
          (capacity (create (suc (length xs))))
          (contents (create (suc (length xs))))
          (x ∷ xs)).1
        ≡ take (suc (length xs) - 1) (x ∷ xs)
    all = unfold create window Fifo.push_all in ap (λ n. take n (x ∷ xs)) (omega arith)

-- The state with `o` as its buffer, and the view of it.
abbrev with_buffer : Udp → Option Cbuf → Udp
with_buffer u o = record u { rx_buffer = o }

abbrev seen : Udp → Option (List ℕ) → View
seen u q = record { packet = q; from = (u.remote_ip, u.remote_port) }

parse_packet-Follows :
    (got : Option Datagram) (u : Udp) {o : Option Cbuf} {q : Option (List ℕ)}
    → Sees o q
    → Follows (parse_packet got) (with_buffer u o) (seen u q)
unfolding perform look Udp.parse_packet Udp.remote
parse_packet-Follows got u (something h) = (refl, record { packet = something h; from = refl })
parse_packet-Follows none u nothing = (refl, record { packet = nothing; from = refl })
parse_packet-Follows (some d) u nothing =
    let short : length (take 2048 d.payload) < 2 ^ 31 = omega (arith, length-take 2048 d.payload) in
    (refl, record { packet = something (write-Buffers (take 2048 d.payload) short); from = refl })

perform-Follows :
    (op : Op) (u : Udp) {o : Option Cbuf} {q : Option (List ℕ)}
    → Sees o q
    → Follows op (with_buffer u o) (seen u q)
unfolding perform look Udp.available Udp.read_char Udp.peek Udp.flush Udp.read Udp.remote
perform-Follows (parse_packet got) u p = parse_packet-Follows got u p
perform-Follows available u nothing = (refl, record { packet = nothing; from = refl })
perform-Follows available u (something h) =
    (ap (λ n. count n) (get_size-Buffers h), record { packet = something h; from = refl })
perform-Follows read_char u nothing = (refl, record { packet = nothing; from = refl })
perform-Follows read_char u (something {q = q} h) =
    let (e, h') = read_char-Buffers h in
    (ap (λ c. value c) e, record { packet = Sees-keep (Fifo.pop q).1 h'; from = refl })
perform-Follows peek u nothing = (refl, record { packet = nothing; from = refl })
perform-Follows peek u (something h) =
    (ap (λ c. value c) (peek-Buffers h), record { packet = something h; from = refl })
perform-Follows flush u p = (refl, record { packet = nothing; from = refl })
perform-Follows remote u p = (refl, record { packet = p; from = refl })
perform-Follows (read n) u nothing = (refl, record { packet = nothing; from = refl })
perform-Follows (read n) u (something {q = q} h) =
    let (e, e', h') = read-Buffers n h in
    (
      ap₂ (λ k xs. bytes k xs) e e',
      record { packet = Sees-keep (Fifo.take_out q n).2 h'; from = refl },
    )

-- Whatever packets come in and whichever calls of parsePacket, available, read, peek, flush,
-- remoteIP and remotePort are made in whichever order, the calls answer as the view does: a packet
-- is taken when none is left, parsePacket gives its length up to 2048, and then the bytes but the
-- last can be read, once and in order. The packet is gone when a read leaves nothing of it, or with
-- flush.
pub run-look_all : (ops : List Op) (u : Udp) (v : View) → Shows u v → run ops u ≡ look_all ops v
unfolding run look_all Udp.remote
run-look_all [] u v s = refl
run-look_all (op ∷ ops) u v s =
    let same : seen u v.packet ≡ v = λ i. record { packet = v.packet; from = s.from i } in
    let f = subst (λ w. Follows op u w) same (perform-Follows op u s.packet) in
    ap₂ (λ r rs. r ∷ rs) f.0 (run-look_all ops _ _ f.1)

-- ===== src/Udp/Send.antt =====
-- The sent side of BridgeUDP: what write and endPacket make of bytes, up to the end of the buffer.
use ras_pi_arduino.Prelude.{ℕ, zero, suc, ◌+◌, ◌≤◌, ◌<◌, ◌≡◌, refl, ap, ◌∙◌, arith}
use ras_pi_arduino.Prelude.{true, false, Option, none, some, List, [], ◌∷◌, ◌++◌}
use ras_pi_arduino.Prelude.{
  length, length-set, take, set, append_assoc, append-nil, leb, Bool-cases, Option-cases, inl, inr,
}
use ras_pi_arduino.Prelude.{if◌then◌else◌}
use ras_pi_arduino.Udp.{Udp, Call, sends, write, write_all, end_packet, append}

-- `write` of an array, then `endPacket`: the count that write returns, and the calls of the system.
unfoldable pub write_then_send : List ℕ → Udp → Option (ℕ × List Call)
write_then_send xs u = elim (write_all xs u) [
  | none ↦ none
  | some r ↦ some (r.0, r.1 ++ (end_packet r.2 ∷ []))
]

-- One datagram for all that was written, if it fits.
unfoldable pub one_datagram : List ℕ → Udp → Option (ℕ × List Call)
one_datagram xs u =
    if leb (u.buffer_len + length xs) 1460
    then some (
      length xs,
      sends u.server (take u.buffer_len u.buffer ++ xs) u.remote_ip u.remote_port ∷ [],
    )
    else none

take-set :
    (n : ℕ) (cells : List ℕ) (x : ℕ)
    → n < length cells
    → take (n + 1) (set cells n x) ≡ take n cells ++ (x ∷ [])
take-set n [] x h = absurd (omega arith)
take-set zero (c ∷ cells) x h = refl
take-set (suc n) (c ∷ cells) x h =
    let e : suc n + 1 ≡ suc (n + 1) = omega arith in
    rw e (ap (λ t. c ∷ t) (take-set n cells x (omega arith)))

-- One byte more in the buffer.
abbrev with_byte : ℕ → Udp → Udp
with_byte x u = record u { buffer = set u.buffer u.buffer_len x; buffer_len = u.buffer_len + 1 }

write_lem :
    (x : ℕ) (u : Udp)
    → length u.buffer ≡ 1460
    → u.buffer_len ≤ 1460
    → write x u ≡ (if leb 1460 u.buffer_len then none else some (1, [], with_byte x u))
unfolding write append
write_lem x u size h = ground arith

-- The first byte fits, and the rest follows it.
write_then_send_next :
    (x : ℕ) (xs : List ℕ) (u : Udp)
    → write x u ≡ some (1, [], with_byte x u)
    → write_then_send (x ∷ xs) u
      ≡ elim (write_then_send xs (with_byte x u)) [ none ↦ none | some r ↦ some (suc r.0, r.1) ]
unfolding write_then_send write_all
write_then_send_next x xs u e =
    rw (write_then_send, write_all, e)
      (elim (Option-cases (write_all xs (with_byte x u))) [
        | inl n ↦ rw n refl
        | inr (r, f) ↦ rw f refl
      ])

one_datagram_next :
    (x : ℕ) (xs : List ℕ) (u : Udp)
    → u.buffer_len < length u.buffer
    → elim (one_datagram xs (with_byte x u)) [ none ↦ none | some r ↦ some (suc r.0, r.1) ]
      ≡ one_datagram (x ∷ xs) u
unfolding one_datagram
one_datagram_next x xs u h =
    let e : u.buffer_len + 1 + length xs ≡ u.buffer_len + suc (length xs) = omega arith in
    let f : take (u.buffer_len + 1) (set u.buffer u.buffer_len x) ++ xs
        ≡ take u.buffer_len u.buffer ++ (x ∷ xs) =
      ap (λ t. t ++ xs) (take-set u.buffer_len u.buffer x h)
      ∙ append_assoc (take u.buffer_len u.buffer) (x ∷ []) xs in
    rw (e, f)
      (elim (Bool-cases (leb (u.buffer_len + suc (length xs)) 1460)) [
        | inl t ↦ rw t refl
        | inr t ↦ rw t refl
      ])

-- The bytes that write appends to a buffer with at most 1460 bytes in it go out with endPacket, as
-- one datagram behind those that were there, to the remote address and port, if they are 1460
-- together at most, and the count is theirs; if they are more, the code stores outside the buffer.
pub write_then_send-one_datagram :
    (xs : List ℕ) (u : Udp)
    → length u.buffer ≡ 1460
    → u.buffer_len ≤ 1460
    → write_then_send xs u ≡ one_datagram xs u
unfolding write_then_send one_datagram write_all end_packet
write_then_send-one_datagram [] u size h =
    let e : leb (u.buffer_len + 0) 1460 ≡ true = ground arith in
    rw (write_then_send, write_all, e, append-nil (take u.buffer_len u.buffer)) refl
write_then_send-one_datagram (x ∷ xs) u size h = elim (Bool-cases (leb 1460 u.buffer_len)) [
  | inl t ↦
      let e : write x u ≡ none = write_lem x u size h ∙ rw t refl in
      let f : leb (u.buffer_len + suc (length xs)) 1460 ≡ false = ground (arith, t) in
      rw (write_then_send, write_all, e, f) refl
  | inr t ↦
      let e : write x u ≡ some (1, [], with_byte x u) = write_lem x u size h ∙ rw t refl in
      let ih =
        write_then_send-one_datagram xs (with_byte x u) (length-set u.buffer u.buffer_len x ∙ size)
          (ground (arith, t)) in
      write_then_send_next x xs u e ∙ rw ih (one_datagram_next x xs u (ground (arith, t, size)))
]

-- ===== src/Wire/Sessions.antt =====
-- Whole transfers: what reaches the bus, and what the reads after a request return.
use ras_pi_arduino.Prelude.{ℕ, zero, suc, ◌+◌, ◌≤◌, ◌≡◌, ◌≢◌, refl, sym, ap, ◌∙◌, arith, min, subst}
use ras_pi_arduino.Prelude.{
  Option, some, List, [], ◌++◌, length, take, drop, length-append, length-drop, take-append_left,
  take_all, ◌⊎◌,
}
use ras_pi_arduino.Prelude.{
  ltb, ◌==◌, if◌then◌else◌, Option-cases, Bool-cases, ==→eq, unless_zero, when_zero, inl, inr,
}
use ras_pi_arduino.Machine.{Machine}
use ras_pi_arduino.I2c.{bsc1, read_from, write_to}
use ras_pi_arduino.I2c.Send.{sent, write_to_lem, IsApart, IsDoneAfter, write_to-returns}
use ras_pi_arduino.I2c.Receive.{incoming, Filled, read_from-Filled}
use ras_pi_arduino.Wire.{
  Wire, buffer_length, begin_transmission, write_bytes, request_from, end_transmission,
}
use ras_pi_arduino.Wire.Laws.{IsValid, outgoing, unread, write_bytes_lem}

begin_transmission-IsValid :
    (address : ℕ) (w : Wire) → IsValid w → IsValid (begin_transmission address w)
unfolding begin_transmission
begin_transmission-IsValid address w v = record {
  rx_size = v.rx_size;
  tx_size = v.tx_size;
  rx_bound = v.rx_bound;
  rx_order = v.rx_order;
  tx_bound = omega arith;
  tx_order = refl;
}

outgoing-begin_transmission :
    (address : ℕ) (w : Wire) → outgoing (begin_transmission address w) ≡ []
unfolding begin_transmission
outgoing-begin_transmission address w = refl

-- A transmission: `beginTransmission`, `write` of the bytes and `endTransmission`.
abbrev pub transmit : ℕ → List ℕ → List ℕ → Wire → Machine → Option (ℕ × Wire × Machine)
transmit address bs statuses w m =
    end_transmission statuses (write_bytes bs (begin_transmission address w)).1 m

length-incoming : (fifo : ℕ → ℕ) (i n : ℕ) → length (incoming fifo i n) ≡ n
length-incoming fifo i zero = refl
length-incoming fifo i (suc n) = ap suc (length-incoming fifo (suc i) n)

pub bsc1-IsApart : IsApart bsc1
bsc1-IsApart = (
  (λ e. absurd (omega (arith, e))),
  (λ e. absurd (omega (arith, e))),
  (λ e. absurd (omega (arith, e))),
  (λ e. absurd (omega (arith, e))),
)

emptied : Wire → Wire
emptied w = record w { tx_index = 0; tx_length = 0 }

emptied-IsValid : (w : Wire) → IsValid w → IsValid (emptied w)
unfolding emptied
emptied-IsValid w v = record {
  rx_size = v.rx_size;
  tx_size = v.tx_size;
  rx_bound = v.rx_bound;
  rx_order = v.rx_order;
  tx_bound = omega arith;
  tx_order = refl;
}

-- What `endTransmission` leaves.
pub record Transmitted (bs : List ℕ) (m : Machine) (r : ℕ) (w' : Wire) (m' : Machine) : Type 0 where
  pub valid : IsValid w'
  pub none_pending : outgoing w' ≡ []
  pub remaining : List ℕ
  pub in_order : sent bsc1 m' ++ remaining ≡ sent bsc1 m ++ bs
  pub all_sent : (r ≢ 0) ⊎ (sent bsc1 m' ≡ sent bsc1 m ++ bs)

end_transmission-Transmitted :
    (statuses : List ℕ) (w : Wire) (m : Machine) (r : ℕ) (w' : Wire) (m' : Machine)
    → IsValid w
    → end_transmission statuses w m ≡ some (r, w', m')
    → Transmitted (outgoing w) m r w' m'
unfolding end_transmission emptied
end_transmission-Transmitted statuses w m r w' m' v e =
    elim (Option-cases (write_to bsc1 w.tx_address w.tx_buffer w.tx_length statuses m)) [
      | inl o ↦ absurd (ground (arith, o))
      | inr ((r', m''), o) ↦
          let last : (r' ≡ r) × (emptied w ≡ w') × (m'' ≡ m') = ground (arith, o, e) in
          let p =
            write_to_lem bsc1 w.tx_address w.tx_buffer w.tx_length m statuses r' m'' bsc1-IsApart
              o in
          record {
            valid = subst IsValid last.1 (emptied-IsValid w v);
            none_pending = ap outgoing (sym last.1);
            remaining = p.0;
            in_order = ap (λ t. sent bsc1 t ++ p.0) (sym last.2) ∙ p.1;
            all_sent = unless_zero r λ z. ap (sent bsc1) (sym last.2) ∙ when_zero p.2 (last.0 ∙ z);
          }
    ]

-- A transmission puts a prefix of its first 32 bytes on the bus, in order, and all of these if it
-- returns 0. It leaves the state valid and nothing to send.
pub transmit-Transmitted :
    (address : ℕ) (bs statuses : List ℕ) (w : Wire) (m : Machine) (r : ℕ) (w' : Wire) (m' : Machine)
    → IsValid w
    → transmit address bs statuses w m ≡ some (r, w', m')
    → Transmitted (take 32 bs) m r w' m'
transmit-Transmitted address bs statuses w m r w' m' v e =
    let begun = begin_transmission-IsValid address w v in
    let p = write_bytes_lem bs (begin_transmission address w) begun in
    subst (λ t. Transmitted t m r w' m')
      (p.1 ∙ ap (λ t. take 32 (t ++ bs)) (outgoing-begin_transmission address w))
      (end_transmission-Transmitted statuses (write_bytes bs (begin_transmission address w)).1 m r
        w' m' p.0 e)

end_transmission-returns :
    (k : ℕ) (statuses : List ℕ) (w : Wire) (m : Machine)
    → IsValid w
    → IsDoneAfter k statuses
    → k + 36 ≤ length statuses
    → (r : ℕ) × (w' : Wire) × (m' : Machine) × (end_transmission statuses w m ≡ some (r, w', m'))
unfolding end_transmission emptied
end_transmission-returns k statuses w m v d h =
    let q =
      write_to-returns bsc1 w.tx_address w.tx_buffer w.tx_length k statuses m d
        (omega (arith, v.tx_bound)) in
    (q.0, emptied w, q.1, rw (end_transmission, q.2) refl)

-- A transmission returns once the controller reports it done, at the latest with its `k`-th status
-- word, and goes on to report it for 36 reads. It puts a prefix of its first 32 bytes on the bus, in
-- order, and all of these if it returns 0. It leaves the state valid and nothing to send.
pub transmit-returns :
    (address : ℕ) (bs : List ℕ) (k : ℕ) (statuses : List ℕ) (w : Wire) (m : Machine)
    → IsValid w
    → IsDoneAfter k statuses
    → k + 36 ≤ length statuses
    → (r : ℕ) × (w' : Wire) × (m' : Machine) × (transmit address bs statuses w m ≡ some (r, w', m'))
      × Transmitted (take 32 bs) m r w' m'
transmit-returns address bs k statuses w m v d h =
    let p =
      write_bytes_lem bs (begin_transmission address w) (begin_transmission-IsValid address w v) in
    let (r, w', m', e) =
      end_transmission-returns k statuses (write_bytes bs (begin_transmission address w)).1 m p.0 d
        h in
    (r, w', m', e, transmit-Transmitted address bs statuses w m r w' m' v e)

-- What `requestFrom` leaves.
pub record Requested (fifo : ℕ → ℕ) (quantity n : ℕ) (w' : Wire) : Type 0 where
  pub valid : IsValid w'
  pub all_or_none : (n ≡ min quantity 32) ⊎ (n ≡ 0)
  pub received : unread w' ≡ incoming fifo 0 n

requested : Wire → List ℕ → ℕ → Wire
requested w buf n = record w { rx_buffer = buf; rx_index = 0; rx_length = n }

requested-IsValid :
    (w : Wire) (buf : List ℕ) (n : ℕ)
    → IsValid w
    → length buf ≡ 32
    → n ≤ 32
    → IsValid (requested w buf n)
unfolding requested
requested-IsValid w buf n v hb hn = record {
  rx_size = hb;
  tx_size = v.tx_size;
  rx_bound = hn;
  rx_order = omega arith;
  tx_bound = v.tx_bound;
  tx_order = v.tx_order;
}

unread-requested :
    (fifo : ℕ → ℕ) (w : Wire) (buf rest : List ℕ) (n : ℕ)
    → buf ≡ incoming fifo 0 n ++ rest
    → unread (requested w buf n) ≡ incoming fifo 0 n
unfolding requested
unread-requested fifo w buf rest n e =
    ap (take n) e
    ∙ take-append_left n (incoming fifo 0 n) rest (omega (arith, length-incoming fifo 0 n))
    ∙ take_all n (incoming fifo 0 n) (omega (arith, length-incoming fifo 0 n))

received_part :
    (fifo : ℕ → ℕ) (q : ℕ) (buf buf' : List ℕ) (r : ℕ)
    → Filled fifo q buf buf' r
    → length buf' ≡ length buf
      × (rest : List ℕ) × (buf' ≡ incoming fifo 0 (if r == 0 then q else 0) ++ rest)
received_part fifo q buf buf' r f =
    let size : length buf' ≡ length buf =
      ap length f.contents
      ∙ length-append (incoming fifo 0 f.count) (drop f.count buf)
      ∙ omega (arith, length-incoming fifo 0 f.count, length-drop f.count buf, f.fits) in
    elim (Bool-cases (r == 0)) [
      | inl e ↦ (
        size,
        drop f.count buf,
        rw e (
            f.contents
            ∙ ap (λ t. incoming fifo 0 t ++ drop f.count buf) (when_zero f.complete (==→eq r 0 e))),
      )
      | inr e ↦ (size, buf', rw e refl)
    ]

-- `requestFrom` makes the first bytes that come in the ones that `read` will return, the quantity
-- asked for but at most 32, or none, and returns their number. It keeps the state valid.
pub request_from-Requested :
    (address quantity : ℕ) (fifo : ℕ → ℕ) (statuses : List ℕ) (w : Wire) (m : Machine) (n : ℕ)
    (w' : Wire) (m' : Machine)
    → IsValid w
    → request_from address quantity fifo statuses w m ≡ some (n, w', m')
    → Requested fifo quantity n w'
unfolding request_from requested
request_from-Requested address quantity fifo statuses w m n w' m' v e =
    let q = if ltb buffer_length quantity then buffer_length else quantity in
    let q_min : q ≡ min quantity 32 = ground arith in
    elim (Option-cases (read_from bsc1 address w.rx_buffer q fifo statuses m)) [
      | inl o ↦ absurd (ground (arith, o))
      | inr ((r, buf, m''), o) ↦
          let f =
            read_from-Filled bsc1 address w.rx_buffer q fifo statuses m r buf m''
              (omega (arith, q_min)) (omega (arith, v.rx_size)) o in
          let p = received_part fifo q w.rx_buffer buf r f in
          let k = if r == 0 then q else 0 in
          let last : (k ≡ n) × (requested w buf k ≡ w') = ground (arith, o, e) in
          let small : k ≤ 32 = ground (arith, q_min) in
          record {
            valid = subst IsValid last.1 (requested-IsValid w buf k v (p.0 ∙ v.rx_size) small);
            all_or_none = ground (arith, last.0, q_min);
            received =
                ap unread (sym last.1)
                ∙ unread-requested fifo w buf p.1 k p.2
                ∙ ap (incoming fifo 0) last.0;
          }
    ]

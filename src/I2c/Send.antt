-- ===== src/I2c/Send.antt =====
-- What a write of the serial controllers puts into the FIFO, and that it ends.
use ras_pi_arduino.Prelude.{ℕ, zero, suc, ◌+◌, ◌≤◌, ◌≡◌, ◌≢◌, refl, sym, ap, ◌∙◌, arith, subst}
use ras_pi_arduino.Prelude.{bit_or, Bool, true, false, Option, none, some, List, [], ◌∷◌, ◌++◌, All}
use ras_pi_arduino.Prelude.{
  append_assoc, append-nil, length, take, drop, take-append-drop, length-take, length-drop, ◌==◌,
  if◌then◌else◌, Bool-cases, inl, inr, Option-cases, ◌⊎◌, unless_zero,
}
use ras_pi_arduino.Machine.{Machine, Event, stored, waited, store}
use ras_pi_arduino.I2c

-- The bytes that the stores of a trace put into the FIFO.
unfoldable pub fifo_bytes : ℕ → List Event → List ℕ
fifo_bytes fifo [] = []
fifo_bytes fifo (stored a v ∷ es) = if a == fifo then v ∷ fifo_bytes fifo es else fifo_bytes fifo es
fifo_bytes fifo (waited n ∷ es) = fifo_bytes fifo es

fifo_bytes-append :
    (fifo : ℕ) (es fs : List Event)
    → fifo_bytes fifo (es ++ fs) ≡ fifo_bytes fifo es ++ fifo_bytes fifo fs
unfolding fifo_bytes
fifo_bytes-append fifo [] fs = refl
fifo_bytes-append fifo (stored a v ∷ es) fs = ground (arith, fifo_bytes-append fifo es fs)
fifo_bytes-append fifo (waited n ∷ es) fs = fifo_bytes-append fifo es fs

-- No other register that a transfer stores to is the FIFO.
abbrev pub IsApart : I2c.Controller → Type 0
IsApart c =
    (c.control ≢ c.fifo)
    × (c.status ≢ c.fifo)
    × (c.data_length ≢ c.fifo)
    × (c.slave_address ≢ c.fifo)

module _ (c : I2c.Controller) where
  abbrev pub sent : Machine → List ℕ
  sent m = fifo_bytes c.fifo m.trace

  sent-store_fifo : (b : ℕ) (m : Machine) → sent (store c.fifo b m) ≡ sent m ++ (b ∷ [])
  unfolding store fifo_bytes
  sent-store_fifo b m = fifo_bytes-append c.fifo m.trace (stored c.fifo b ∷ []) ∙ ground arith

  sent-store_other : (a v : ℕ) (m : Machine) → a ≢ c.fifo → sent (store a v m) ≡ sent m
  unfolding store fifo_bytes
  sent-store_other a v m h =
      fifo_bytes-append c.fifo m.trace (stored a v ∷ []) ∙ ground (arith, append-nil (sent m))

  sent-fill : (bs : List ℕ) (m : Machine) → sent (I2c.fill c bs m) ≡ sent m ++ bs
  unfolding I2c.fill
  sent-fill [] m = sym (append-nil (sent m))
  sent-fill (b ∷ bs) m =
      sent-fill bs (store c.fifo b m)
      ∙ ap (λ t. t ++ bs) (sent-store_fifo b m)
      ∙ append_assoc (sent m) (b ∷ []) bs

  -- The bytes in the FIFO and those that remain are always the whole text.
  sent-send :
      (filling : Bool) (remaining ss : List ℕ) (m : Machine) (remaining' ss' : List ℕ)
      (m' : Machine)
      → I2c.send c filling remaining ss m ≡ some (remaining', ss', m')
      → sent m' ++ remaining' ≡ sent m ++ remaining
  unfolding I2c.send
  sent-send filling remaining [] m remaining' ss' m' e = ground arith
  sent-send filling [] (s ∷ ss) m remaining' ss' m' e =
      ground (arith, e, sent-send filling [] ss m remaining' ss' m')
  sent-send filling (b ∷ bs) (s ∷ ss) m remaining' ss' m' e =
      let stored_b : sent (store c.fifo b m) ++ bs ≡ sent m ++ (b ∷ bs) =
        ap (λ t. t ++ bs) (sent-store_fifo b m) ∙ append_assoc (sent m) (b ∷ []) bs in
      ground (
        arith,
        stored_b,
        sent-send true bs ss (store c.fifo b m) remaining' ss' m',
        sent-send true (b ∷ bs) ss m remaining' ss' m',
        sent-send false (b ∷ bs) ss m remaining' ss' m',
      )

  sent-prepare :
      (address len : ℕ) (m : Machine) → IsApart c → sent (I2c.prepare c address len m) ≡ sent m
  unfolding I2c.prepare
  sent-prepare address len m (h1, h2, h3, h4) =
      sent-store_other c.data_length len _ h3
      ∙ sent-store_other c.status _ _ h2
      ∙ sent-store_other c.control _ _ h1
      ∙ sent-store_other c.slave_address address m h4

  sent-finish : (m : Machine) → IsApart c → sent (I2c.finish c m) ≡ sent m
  unfolding I2c.finish
  sent-finish m apart = sent-store_other c.control _ m apart.0

-- The transfer is over at the latest `k` reads of the status from now.
abbrev pub IsDoneAfter : ℕ → List ℕ → Type 0
IsDoneAfter k ss = All (λ s. I2c.has s I2c.done ≡ true) (drop k ss)

-- The loops end and leave the two reads of the status that tell the reason.
abbrev Ends : Option (List ℕ × List ℕ × Machine) → Type 0
Ends none = ⊥
Ends (some (remaining, ss, m)) = 2 ≤ length ss

module _ (c : I2c.Controller) where
  send-Ends_done :
      (filling : Bool) (remaining ss : List ℕ) (m : Machine)
      → IsDoneAfter 0 ss
      → length remaining + (if filling then 4 else 3) ≤ length ss
      → Ends (I2c.send c filling remaining ss m)
  unfolding I2c.send
  send-Ends_done filling remaining [] m d h = absurd (ground arith)
  send-Ends_done filling [] (s ∷ ss) m d h = ground (arith, d.0)
  send-Ends_done false (b ∷ bs) (s ∷ ss) m d h = ground (arith, d.0)
  send-Ends_done true (b ∷ bs) (s ∷ ss) m d h = elim (Bool-cases (I2c.has s I2c.txd)) [
    | inl e ↦ rw e (send-Ends_done true bs ss (store c.fifo b m) d.1 (omega arith))
    | inr e ↦ rw e (send-Ends_done false (b ∷ bs) ss m d.1 (omega arith))
  ]

  send-Ends :
      (k : ℕ) (filling : Bool) (remaining ss : List ℕ) (m : Machine)
      → IsDoneAfter k ss
      → k + length remaining + 4 ≤ length ss
      → Ends (I2c.send c filling remaining ss m)
  unfolding I2c.send
  send-Ends k filling remaining [] m d h = absurd (omega arith)
  send-Ends zero filling remaining (s ∷ ss) m d h =
      send-Ends_done filling remaining (s ∷ ss) m d (ground arith)
  send-Ends (suc k) filling [] (s ∷ ss) m d h =
      ground (arith, send-Ends k filling [] ss m d (omega arith))
  send-Ends (suc k) filling (b ∷ bs) (s ∷ ss) m d h = ground (
    arith,
    send-Ends k true bs ss (store c.fifo b m) d (omega arith),
    send-Ends k true (b ∷ bs) ss m d (omega arith),
    send-Ends k false (b ∷ bs) ss m d (omega arith),
  )

none_left :
    (remaining ss : List ℕ) → I2c.reason (I2c.is_nonempty remaining) ss ≡ some 0 → remaining ≡ []
unfolding I2c.reason
none_left [] ss e = refl
none_left (b ∷ bs) [] e = ground arith
none_left (b ∷ bs) (s ∷ []) e = ground arith
none_left (b ∷ bs) (s ∷ s' ∷ ss) e = ground arith

reason-some : (remaining : Bool) (ss : List ℕ) → 2 ≤ length ss → I2c.reason remaining ss ≢ none
unfolding I2c.reason
reason-some remaining [] h = absurd (omega arith)
reason-some remaining (s ∷ []) h = absurd (omega arith)
reason-some remaining (s ∷ s' ∷ ss) h = ground arith

module _ (c : I2c.Controller) (address : ℕ) (buf : List ℕ) (len : ℕ) (m : Machine) where
  abbrev started : Machine
  started =
      store c.control (bit_or I2c.i2cen I2c.st)
        (I2c.fill c (take 16 (take len buf)) (I2c.prepare c address len m))

  sent-started : IsApart c → sent c started ≡ sent c m ++ take 16 (take len buf)
  sent-started apart =
      sent-store_other c c.control _ _ apart.0
      ∙ sent-fill c (take 16 (take len buf)) (I2c.prepare c address len m)
      ∙ ap (λ t. t ++ take 16 (take len buf)) (sent-prepare c address len m apart)

  -- What a write leaves: the bytes that it did not send.
  pub record Wrote (r : ℕ) (m' : Machine) : Type 0 where
    pub remaining : List ℕ
    pub in_order : sent c m' ++ remaining ≡ sent c m ++ take len buf
    pub all_sent : r ≡ 0 → remaining ≡ []

  abbrev outcome : List ℕ → Option (List ℕ × List ℕ × Machine)
  outcome statuses = I2c.send c false (drop 16 (take len buf)) statuses started

  write_to-Wrote :
      (statuses : List ℕ) (r : ℕ) (m' : Machine)
      → IsApart c
      → I2c.write_to c address buf len statuses m ≡ some (r, m')
      → Wrote r m'
  unfolding I2c.write_to
  write_to-Wrote statuses r m' apart e = elim (Option-cases (outcome statuses)) [
    | inl none' ↦ absurd (ground (arith, none'))
    | inr ((remaining, ss, m''), o) ↦
        elim (Option-cases (I2c.reason (I2c.is_nonempty remaining) ss)) [
          | inl none' ↦ absurd (ground (arith, none', o))
          | inr (r', re) ↦
              let last : (r' ≡ r) × (I2c.finish c m'' ≡ m') = ground (arith, o, re, e) in
              record {
                remaining = remaining;
                in_order =
                    ap (λ t. sent c t ++ remaining) (sym last.1)
                    ∙ ap (λ t. t ++ remaining) (sent-finish c m'' apart)
                    ∙ sent-send c false (drop 16 (take len buf)) statuses started remaining ss m'' o
                    ∙ ap (λ t. t ++ drop 16 (take len buf)) (sent-started apart)
                    ∙ append_assoc (sent c m) (take 16 (take len buf)) (drop 16 (take len buf))
                    ∙ ap (λ t. sent c m ++ t) (take-append-drop 16 (take len buf));
                all_sent = λ z. none_left remaining ss (re ∙ ap some (last.0 ∙ z));
              }
        ]
  ]

  write_to-some :
      (k : ℕ) (statuses : List ℕ)
      → IsDoneAfter k statuses
      → k + len + 4 ≤ length statuses
      → I2c.write_to c address buf len statuses m ≢ none
  unfolding I2c.write_to
  write_to-some k statuses d h =
      let ends =
        send-Ends c k false (drop 16 (take len buf)) statuses started d
          (omega (arith, length-drop 16 (take len buf), length-take len buf)) in
      elim (Option-cases (outcome statuses)) [
        | inl o ↦ absurd (subst Ends o ends)
        | inr ((remaining, ss, m''), o) ↦
            ground (arith, o, reason-some (I2c.is_nonempty remaining) ss (subst Ends o ends))
      ]

-- `twi_writeTo` and `ids_write` put a prefix of the bytes into the FIFO, in order, and all of them
-- if they return 0; the controller is one whose other registers are not its FIFO.
pub write_to_lem :
    (c : I2c.Controller) (address : ℕ) (buf : List ℕ) (len : ℕ) (m : Machine) (statuses : List ℕ)
    (r : ℕ) (m' : Machine)
    → IsApart c
    → I2c.write_to c address buf len statuses m ≡ some (r, m')
    → (remaining : List ℕ) × (sent c m' ++ remaining ≡ sent c m ++ take len buf)
      × ((r ≢ 0) ⊎ (sent c m' ≡ sent c m ++ take len buf))
write_to_lem c address buf len m statuses r m' apart e =
    let w = write_to-Wrote c address buf len m statuses r m' apart e in
    (
      w.remaining,
      w.in_order,
      unless_zero r λ z.
          sym (append-nil (sent c m')) ∙ ap (λ t. sent c m' ++ t) (sym (w.all_sent z)) ∙ w.in_order,
    )

-- They return once the controller reports the transfer done, at the latest with its `k`-th status
-- word, and goes on to report it for the length of the text and four reads more.
pub write_to-returns :
    (c : I2c.Controller) (address : ℕ) (buf : List ℕ) (len k : ℕ) (statuses : List ℕ) (m : Machine)
    → IsDoneAfter k statuses
    → k + len + 4 ≤ length statuses
    → (r : ℕ) × (m' : Machine) × (I2c.write_to c address buf len statuses m ≡ some (r, m'))
write_to-returns c address buf len k statuses m d h =
    elim (Option-cases (I2c.write_to c address buf len statuses m)) [
      | inl e ↦ absurd (write_to-some c address buf len m k statuses d h e)
      | inr ((r, m'), e) ↦ (r, m', e)
    ]

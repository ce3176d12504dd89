-- ===== src/Wire/Laws.antt =====
-- The state of the bus object: what every call keeps, and what the two buffers hold.
use ras_pi_arduino.Prelude.{
  ℕ, zero, suc, ◌+◌, ◌-◌, ◌≤◌, ◌<◌, ◌≡◌, refl, sym, ap, ◌∙◌, arith, true, false,
}
use ras_pi_arduino.Prelude.{
  none, some, List, [], ◌∷◌, ◌++◌, length, set, take, drop, get_or, length-set, length-append,
  length-take, length-drop, take_all, drop_all, take-append_left, append-nil, append_assoc,
}
use ras_pi_arduino.Prelude.Bits.{u8}
use ras_pi_arduino.Prelude.{ltb, Bool-cases, ltb→lt, ltb-false→le, ◌⊎◌, inl, inr}
use ras_pi_arduino.Wire.{Wire, write, write_loop, write_bytes, read, peek, available}

-- Both buffers have their 32 bytes, and the indices are within them.
pub record IsValid (w : Wire) : Type 0 where
  pub rx_size : length w.rx_buffer ≡ 32
  pub tx_size : length w.tx_buffer ≡ 32
  pub rx_bound : w.rx_length ≤ 32
  pub rx_order : w.rx_index ≤ w.rx_length
  pub tx_bound : w.tx_length ≤ 32
  pub tx_order : w.tx_index ≡ w.tx_length

-- The bytes written since `beginTransmission`, and those that `read` will return.
abbrev pub outgoing : Wire → List ℕ
outgoing w = take w.tx_length w.tx_buffer

abbrev pub unread : Wire → List ℕ
unread w = drop w.rx_index (take w.rx_length w.rx_buffer)

le_or_lt : (a b : ℕ) → (a ≤ b) ⊎ (b < a)
le_or_lt a b = elim (Bool-cases (ltb b a)) [
  | inl e ↦ inr (ltb→lt b a e)
  | inr e ↦ inl (ltb-false→le b a e)
]

take-set_next :
    (i : ℕ) (xs : List ℕ) (b : ℕ)
    → i < length xs
    → take (suc i) (set xs i b) ≡ take i xs ++ (b ∷ [])
take-set_next i [] b h = absurd (omega arith)
take-set_next zero (x ∷ xs) b h = refl
take-set_next (suc i) (x ∷ xs) b h = ap (λ t. x ∷ t) (take-set_next i xs b (omega arith))

drop-take_next :
    (i n : ℕ) (xs : List ℕ)
    → i < n
    → n ≤ length xs
    → drop i (take n xs) ≡ get_or xs i 0 ∷ drop (suc i) (take n xs)
drop-take_next i n [] h k = absurd (omega arith)
drop-take_next i zero (x ∷ xs) h k = absurd (omega arith)
drop-take_next zero (suc n) (x ∷ xs) h k = refl
drop-take_next (suc i) (suc n) (x ∷ xs) h k = drop-take_next i n xs (omega arith) (omega arith)

length-outgoing : (w : Wire) → IsValid w → length (outgoing w) ≡ w.tx_length
length-outgoing w v = length-take w.tx_length w.tx_buffer ∙ omega (arith, v.tx_size, v.tx_bound)

write-full : (b : ℕ) (w : Wire) → 32 ≤ w.tx_length → (write b w).1 ≡ w
unfolding write
write-full b w h = ground arith

write-room :
    (b : ℕ) (w : Wire)
    → w.tx_length < 32
    → (write b w).1 ≡ record w {
      tx_buffer = set w.tx_buffer w.tx_index b;
      tx_index = u8 (w.tx_index + 1);
      tx_length = u8 (w.tx_index + 1);
    }
unfolding write
write-room b w h = ground arith

write-IsValid : (b : ℕ) (w : Wire) → IsValid w → IsValid (write b w).1
write-IsValid b w v = elim (le_or_lt 32 w.tx_length) [
  | inl h ↦ rw (write-full b w h) v
  | inr h ↦ rw (write-room b w h) record {
    rx_size = v.rx_size;
    tx_size = length-set w.tx_buffer w.tx_index b ∙ v.tx_size;
    rx_bound = v.rx_bound;
    rx_order = v.rx_order;
    tx_bound = omega (arith, v.tx_order, h);
    tx_order = refl;
  }
]

outgoing-write :
    (b : ℕ) (w : Wire) → IsValid w → outgoing (write b w).1 ≡ take 32 (outgoing w ++ (b ∷ []))
outgoing-write b w v = elim (le_or_lt 32 w.tx_length) [
  | inl h ↦
      ap outgoing (write-full b w h)
      ∙ sym (take_all 32 (outgoing w) (omega (arith, length-outgoing w v, v.tx_bound)))
      ∙ sym (take-append_left 32 (outgoing w) (b ∷ []) (omega (arith, length-outgoing w v)))
  | inr h ↦
      let next : u8 (w.tx_index + 1) ≡ suc w.tx_length = omega (arith, v.tx_order, h) in
      ap outgoing (write-room b w h)
      ∙ ap (λ k. take k (set w.tx_buffer w.tx_index b)) next
      ∙ ap (λ k. take (suc w.tx_length) (set w.tx_buffer k b)) v.tx_order
      ∙ take-set_next w.tx_length w.tx_buffer b (omega (arith, v.tx_size, h))
      ∙ sym (
          take_all 32 (outgoing w ++ (b ∷ []))
            (omega (arith, length-append (outgoing w) (b ∷ []), length-outgoing w v, h)))
]

write_loop-IsValid : (bs : List ℕ) (w : Wire) → IsValid w → IsValid (write_loop bs w)
unfolding write_loop
write_loop-IsValid [] w v = v
write_loop-IsValid (b ∷ bs) w v = write_loop-IsValid bs (write b w).1 (write-IsValid b w v)

take-append_take : (n : ℕ) (xs ys : List ℕ) → take n (take n xs ++ ys) ≡ take n (xs ++ ys)
take-append_take zero xs ys = refl
take-append_take (suc n) [] ys = refl
take-append_take (suc n) (x ∷ xs) ys = ap (λ t. x ∷ t) (take-append_take n xs ys)

outgoing-write_loop :
    (bs : List ℕ) (w : Wire) → IsValid w → outgoing (write_loop bs w) ≡ take 32 (outgoing w ++ bs)
unfolding write_loop
outgoing-write_loop [] w v = sym (
    ap (take 32) (append-nil (outgoing w))
    ∙ take_all 32 (outgoing w) (omega (arith, length-outgoing w v, v.tx_bound)))
outgoing-write_loop (b ∷ bs) w v =
    outgoing-write_loop bs (write b w).1 (write-IsValid b w v)
    ∙ ap (λ t. take 32 (t ++ bs)) (outgoing-write b w v)
    ∙ take-append_take 32 (outgoing w ++ (b ∷ [])) bs
    ∙ ap (take 32) (append_assoc (outgoing w) (b ∷ []) bs)

-- `write` of an array keeps the state valid, and adds the bytes for which there is room to those
-- that go out. It returns the number of all of them.
pub write_bytes_lem :
    (bs : List ℕ) (w : Wire)
    → IsValid w
    → IsValid (write_bytes bs w).1
      × (outgoing (write_bytes bs w).1 ≡ take 32 (outgoing w ++ bs))
      × ((write_bytes bs w).0 ≡ length bs)
unfolding write_bytes
write_bytes_lem bs w v = (write_loop-IsValid bs w v, outgoing-write_loop bs w v, refl)

-- `read` and `peek` give the first byte that is unread, and -1 if there is none; `read` takes it,
-- and `available` is the number of those that are unread.
pub record Reads (w : Wire) : Type 0 where
  pub valid : IsValid (read w).1
  pub same : (read w).0 ≡ peek w
  pub byte : unread w ≡ (elim (peek w) [ none ↦ [] | some b ↦ b ∷ unread (read w).1 ])
  pub count : available w ≡ length (unread w)

unread-byte :
    (w : Wire)
    → IsValid w
    → w.rx_index < w.rx_length
    → unread w
      ≡ get_or w.rx_buffer w.rx_index 0 ∷ drop (suc w.rx_index) (take w.rx_length w.rx_buffer)
unread-byte w v h =
    drop-take_next w.rx_index w.rx_length w.rx_buffer h (omega (arith, v.rx_size, v.rx_bound))

length-unread : (w : Wire) → IsValid w → length (unread w) ≡ w.rx_length - w.rx_index
length-unread w v = omega (
  arith,
  length-drop w.rx_index (take w.rx_length w.rx_buffer),
  length-take w.rx_length w.rx_buffer,
  v.rx_size,
  v.rx_bound,
)

read_there :
    (w : Wire)
    → w.rx_index < w.rx_length
    → w.rx_length ≤ 32
    → read w ≡ (some (get_or w.rx_buffer w.rx_index 0), record w { rx_index = suc w.rx_index })
unfolding read
read_there w h b =
    let next : u8 (w.rx_index + 1) ≡ suc w.rx_index = omega arith in
    let there : ltb w.rx_index w.rx_length ≡ true = ground arith in rw (there, next) refl

read_nothing : (w : Wire) → w.rx_length ≤ w.rx_index → read w ≡ (none, w)
unfolding read
read_nothing w h = let there : ltb w.rx_index w.rx_length ≡ false = ground arith in rw there refl

peek-read : (w : Wire) → (read w).0 ≡ peek w
unfolding read peek
peek-read w = elim (Bool-cases (ltb w.rx_index w.rx_length)) [
  | inl e ↦ rw e refl
  | inr e ↦ rw e refl
]

pub read-Reads : (w : Wire) → IsValid w → Reads w
unfolding available
read-Reads w v = elim (le_or_lt w.rx_length w.rx_index) [
  | inr h ↦ record {
    valid = rw (read_there w h v.rx_bound) record {
      rx_size = v.rx_size;
      tx_size = v.tx_size;
      rx_bound = v.rx_bound;
      rx_order = omega (arith, h);
      tx_bound = v.tx_bound;
      tx_order = v.tx_order;
    };
    same = peek-read w;
    byte =
        rw (sym (peek-read w), read_there w h v.rx_bound, read_there w h v.rx_bound)
          (unread-byte w v h);
    count = sym (length-unread w v);
  }
  | inl h ↦ record {
    valid = rw (read_nothing w h) v;
    same = peek-read w;
    byte =
        rw (sym (peek-read w), read_nothing w h)
          (drop_all w.rx_index (take w.rx_length w.rx_buffer)
            (omega (arith, length-take w.rx_length w.rx_buffer, h)));
    count = sym (length-unread w v);
  }
]

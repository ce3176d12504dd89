-- ===== src/I2c.antt =====
-- The transfers of libraries/Wire/utility/twi.c and cores/piduino/wiring_ids.c: the same code for
-- the two serial controllers BSC1 and BSC0. Successive reads of the status register give the words
-- of a list; read number i of the FIFO of the controller gives
-- the byte `fifo i`. `none` is a
-- loop that is still polling when the status words are used up.
pub mod Send
pub mod Receive
pub mod Ends
use ras_pi_arduino.Prelude.{
  ℕ, zero, suc, ◌+◌, ◌-◌, ◌*◌, ◌/◌, ◌%◌, ◌^◌, Bool, true, false, not, ◌&&◌, ◌||◌,
}
use ras_pi_arduino.Prelude.{
  Option, none, some, List, [], ◌∷◌, ◌++◌, length, take, drop, set, get_or,
}
use ras_pi_arduino.Prelude.{bit_and, bit_or, ltb, ◌==◌, if◌then◌else◌}
use ras_pi_arduino.Prelude.Bits.{u32}
use ras_pi_arduino.Machine.{Machine, store}

-- Where the registers C, S, DLEN, A and FIFO of a controller are.
pub record Controller : Type 0 where
  pub control : ℕ
  pub status : ℕ
  pub data_length : ℕ
  pub slave_address : ℕ
  pub fifo : ℕ

abbrev pub bsc_at : ℕ → Controller
bsc_at base = record {
  control = base;
  status = base + 4;
  data_length = base + 8;
  slave_address = base + 0xc;
  fifo = base + 0x10;
}

abbrev pub bsc0 : Controller
bsc0 = bsc_at 0x205000

abbrev pub bsc1 : Controller
bsc1 = bsc_at 0x804000

-- `_BV` of the bits of the control and the status register.
abbrev pub i2cen : ℕ
i2cen = 0x8000

abbrev pub st : ℕ
st = 0x80

abbrev pub clear : ℕ
clear = 0x10

abbrev pub read : ℕ
read = 0x01

abbrev pub clkt : ℕ
clkt = 0x200

abbrev pub err : ℕ
err = 0x100

abbrev pub rxd : ℕ
rxd = 0x20

abbrev pub txd : ℕ
txd = 0x10

abbrev pub done : ℕ
done = 0x02

abbrev pub has : ℕ → ℕ → Bool
has s flag = not (bit_and s flag == 0)

-- The stores that start every transfer.
unfoldable pub prepare : Controller → ℕ → ℕ → Machine → Machine
prepare c address len m =
    let addressed = store c.slave_address address m in
    let cleared = store c.control (bit_or (addressed.mem c.control) clear) addressed in
    store c.data_length len (store c.status (bit_or (bit_or clkt err) done) cleared)

-- A loop of stores to the FIFO.
unfoldable pub fill : Controller → List ℕ → Machine → Machine
fill c [] m = m
fill c (b ∷ bs) m = fill c bs (store c.fifo b m)

-- The nested polling loops of a write, with the bytes that remain: `filling` inside the inner
-- loop, which is left without a read when nothing remains.
unfoldable pub send :
    Controller → Bool → List ℕ → List ℕ → Machine → Option (List ℕ × List ℕ × Machine)
send c filling remaining [] m = none
send c filling remaining (s ∷ ss) m = elim remaining [
  | [] ↦ let more = send c filling [] ss m in if has s done then some ([], ss, m) else more
  | b ∷ bs ↦
      let next = if filling && has s txd then bs else b ∷ bs in
      let sent = if filling && has s txd then store c.fifo b m else m in
      let more = send c (not filling || has s txd) next ss sent in
      if not filling && has s done then some (b ∷ bs, ss, m) else more
]

-- The reason that a transfer reports, from the last reads of the status register.
unfoldable pub reason : Bool → List ℕ → Option ℕ
reason remaining [] = none
reason remaining (s ∷ []) = if has s err then some 1 else none
reason remaining (s ∷ s' ∷ ss) =
    if has s err
    then some 1
    else if has s' clkt
    then some 2
    else if remaining
    then some 3
    else some 0

-- `BSCxC |= _BV(BSCDONE)`.
unfoldable pub finish : Controller → Machine → Machine
finish c m = store c.control (bit_or (m.mem c.control) done) m

abbrev pub is_nonempty : List ℕ → Bool
is_nonempty [] = false
is_nonempty (b ∷ bs) = true

-- `twi_writeTo` and `ids_write`, of the first `len` bytes of `buf`.
unfoldable pub write_to : Controller → ℕ → List ℕ → ℕ → List ℕ → Machine → Option (ℕ × Machine)
write_to c address buf len statuses m =
    let filled = fill c (take 16 (take len buf)) (prepare c address len m) in
    let started = store c.control (bit_or i2cen st) filled in
    elim (send c false (drop 16 (take len buf)) statuses started) [
      | none ↦ none
      | some (remaining, ss, m') ↦ elim (reason (is_nonempty remaining) ss) [
        | none ↦ none
        | some r ↦ some (r, finish c m')
      ]
    ]

-- The polling loops of a read, `draining` inside the inner one: how many times the FIFO is read,
-- and the status words that are left.
unfoldable pub receive : Bool → List ℕ → Option (ℕ × List ℕ)
receive draining [] = none
receive draining (s ∷ ss) =
    let taking = draining && has s rxd in
    let more = receive (not draining || taking) ss in
    if not draining && has s done
    then some (0, ss)
    else elim more [ none ↦ none | some (n, end) ↦ some (if taking then suc n else n, end) ]

-- The loop after the transfer is done, for at most `remaining` bytes.
unfoldable pub drain : ℕ → List ℕ → Option (ℕ × List ℕ)
drain zero ss = some (0, ss)
drain (suc remaining) [] = none
drain (suc remaining) (s ∷ ss) =
    let more = drain remaining ss in
    if has s rxd
    then elim more [ none ↦ none | some (n, end) ↦ some (suc n, end) ]
    else some (0, ss)

-- `buf[i] = BSCxFIFO; i++` for `n` times; a store beyond the buffer is a fault.
unfoldable pub fill_buffer : (ℕ → ℕ) → ℕ → ℕ → List ℕ → Option (List ℕ)
fill_buffer fifo i zero buf = some buf
fill_buffer fifo i (suc n) [] = none
fill_buffer fifo i (suc n) (x ∷ buf) = elim (fill_buffer fifo (suc i) n buf) [
  | none ↦ none
  | some r ↦ some (fifo i ∷ r)
]

-- `remaining` after `n` decrements.
abbrev pub left : ℕ → ℕ → ℕ
left len n = u32 (len + (2 ^ 32 - n % 2 ^ 32))

-- `twi_readFrom` and `ids_read`: the reason, the buffer and the stores.
unfoldable pub read_from :
    Controller → ℕ → List ℕ → ℕ → (ℕ → ℕ) → List ℕ → Machine → Option (ℕ × List ℕ × Machine)
read_from c address buf len fifo statuses m =
    let started = store c.control (bit_or (bit_or i2cen st) read) (prepare c address len m) in
    elim (receive false statuses) [
      | none ↦ none
      | some (first, ss) ↦ elim (drain (left len first) ss) [
        | none ↦ none
        | some (second, end) ↦ elim (reason (not (left len (first + second) == 0)) end) [
          | none ↦ none
          | some r ↦ elim (fill_buffer fifo 0 (first + second) buf) [
            | none ↦ none
            | some buf' ↦ some (r, buf', finish c started)
          ]
        ]
      ]
    ]

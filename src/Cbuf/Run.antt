-- ===== src/Cbuf/Run.antt =====
-- Calls of a `cbuf` in sequence, against the queue of Fifo.antt.
use ras_pi_arduino.Prelude.{ℕ, suc, zero, subst, ◌+◌, ◌-◌, ◌<◌, min, ◌≡◌, refl, sym, ap, ◌∙◌, arith}
use ras_pi_arduino.Prelude.{List, [], ◌∷◌, ◌++◌, true, false, inl, inr}
use ras_pi_arduino.Prelude.{Bool-cases, length, take, drop, get_or}
use ras_pi_arduino.Prelude.{take-append-drop}
use ras_pi_arduino.Prelude.{take-min-length, split_at}
use ras_pi_arduino.Prelude.Slices.{slice, blit, set-eq-blit}
use ras_pi_arduino.Fifo
use ras_pi_arduino.Fifo.{
  Op, put, put_all, get, get_all, look, clear, Reply, count, value, bytes, done,
}
use ras_pi_arduino.Cbuf.{Cbuf, wrap_if_bufend, get_size, room, is_empty, peek}
use ras_pi_arduino.Cbuf.{read_char, read, copy_out, write, copy_in, write_char, flush}
use ras_pi_arduino.Cbuf.Window.{window}
use ras_pi_arduino.Cbuf.Ops.{IsValid, contents, capacity, room-add-get_size}
use ras_pi_arduino.Cbuf.Ops.{length-contents, Reads, read_lem, write_lem}

-- A client's calls in order, with what each returns.
unfoldable pub run : Cbuf → List Op → List Reply
run b [] = []
run b (put c ∷ ops) = let (n, b') = write_char b c in count n ∷ run b' ops
run b (put_all xs ∷ ops) = let (n, b') = write b xs (length xs) in count n ∷ run b' ops
run b (get ∷ ops) = let (c, b') = read_char b in value c ∷ run b' ops
run b (get_all n ∷ ops) = let (k, xs, b') = read b n in bytes k xs ∷ run b' ops
run b (look ∷ ops) = value (peek b) ∷ run b ops
run b (clear ∷ ops) = done ∷ run (flush b) ops

slice_one : (xs : List ℕ) (i : ℕ) → i < length xs → slice xs i 1 ≡ get_or xs i 0 ∷ []
slice_one [] i h = absurd (omega arith)
slice_one (x ∷ xs) zero h = refl
slice_one (x ∷ xs) (suc i) h = slice_one xs i (omega arith)

blit-nil : (xs : List ℕ) (i : ℕ) → blit xs i [] ≡ xs
unfolding blit
blit-nil xs i = ap (λ k. take i xs ++ drop k xs) {y = i} (omega arith) ∙ take-append-drop i xs

-- Writing one byte is writing an array of one.
pub write_char_lem : {b : Cbuf} (c : ℕ) → IsValid b → write_char b c ≡ write b (c ∷ []) 1
unfolding write_char write copy_in room
write_char_lem {b} c v = ground (arith, blit-nil b.buf b.end, set-eq-blit b.buf b.end c)

abbrev next_byte : Cbuf → Cbuf
next_byte b = record b { begin = wrap_if_bufend b (b.begin + 1) }

module _ {b : Cbuf} (v : IsValid b) where
  empty_window : is_empty b ≡ true → contents b ≡ []
  unfolding is_empty window
  empty_window h = ground arith

  one_read : is_empty b ≡ false → Reads b 1 (1, get_or b.buf b.begin 0 ∷ [], next_byte b)
  unfolding is_empty
  one_read h =
      let n : min 1 (get_size b) ≡ 1 = unfold get_size in ground arith in
      subst (λ r. Reads b 1 r) e (rw n at (read_lem 1 v))
    where
      e : read b 1 ≡ (1, get_or b.buf b.begin 0 ∷ [], next_byte b)
      e = unfold read copy_out get_size in ground (arith, slice_one b.buf b.begin)

  -- `read()` returns the oldest byte and takes it out; -1 when there is none.
  pub read_char-refines : let (c, b') = read_char b in (c, contents b') ≡ Fifo.pop (contents b)
  unfolding read_char Fifo.pop
  read_char-refines = elim (Bool-cases (is_empty b)) [
    | inl h ↦ rw (h, empty_window h)
    | inr h ↦ let r = one_read h in rw (h, ← r.rest)
  ]

  pub read_char-IsValid : IsValid (read_char b).1
  unfolding read_char
  read_char-IsValid = elim (Bool-cases (is_empty b)) [
    | inl h ↦ rw h v
    | inr h ↦ rw h (one_read h).valid
  ]

  pub size-read_char : (read_char b).1.size ≡ b.size
  unfolding read_char
  size-read_char = ground arith

  pub peek-refines : peek b ≡ Fifo.peek (contents b)
  unfolding peek Fifo.peek
  peek-refines = elim (Bool-cases (is_empty b)) [
    | inl h ↦ rw (h, empty_window h)
    | inr h ↦ let r = one_read h in rw (h, ← r.rest)
  ]

  -- `write(src, size)` of a whole array.
  pub write-refines :
      (xs : List ℕ)
      → let (n, b') = write b xs (length xs) in
        (n, contents b') ≡ Fifo.push_all (capacity b) (contents b) xs
  unfolding Fifo.push_all
  write-refines xs =
      let w = write_lem xs (length xs) v (omega arith) in
      let n : min (length xs) (room b) ≡ min (length xs) (capacity b - length (contents b)) =
        omega (arith, room-add-get_size v, length-contents v) in
      let k : room b ≡ capacity b - length (contents b) =
        omega (arith, room-add-get_size v, length-contents v) in
      let t : take (min (length xs) (room b)) xs ≡ take (capacity b - length (contents b)) xs =
        take-min-length (room b) xs ∙ ap (λ m. take m xs) k in
      λ i. ((w.number ∙ n) i, (w.appended ∙ ap (λ m. contents b ++ m) t) i)

  pub flush-IsValid : IsValid (flush b)
  unfolding flush
  flush-IsValid = ground arith

  pub contents-flush : contents (flush b) ≡ []
  unfolding flush window
  contents-flush = refl

  pub read-refines :
      (n : ℕ) → let (k, xs, b') = read b n in (k, xs, contents b') ≡ Fifo.take_out (contents b) n
  unfolding Fifo.take_out
  read-refines n =
      let r = read_lem n v in
      let parts =
        split_at n (read b n).1 (contents (read b n).2)
          (rw r.rest (omega (arith, r.taken, length-contents v))) in
      let all = r.rest in
      let k : min n (get_size b) ≡ min n (length (contents b)) = omega (arith, length-contents v) in
      λ i. ((r.number ∙ k) i, (sym parts.0 ∙ ap (take n) all) i, (sym parts.1 ∙ ap (drop n) all) i)

-- Every operation keeps the invariant and the size.
pub write-IsValid : {b : Cbuf} (xs : List ℕ) → IsValid b → IsValid (write b xs (length xs)).1
write-IsValid xs v = (write_lem xs (length xs) v (omega arith)).valid

pub size-write : {b : Cbuf} (xs : List ℕ) → IsValid b → (write b xs (length xs)).1.size ≡ b.size
size-write xs v = (write_lem xs (length xs) v (omega arith)).same_size

-- The calls after one that leaves `b'`, which has the size of `b`.
same_capacity :
    (b b' : Cbuf) (ops : List Op)
    → b'.size ≡ b.size
    → run b' ops ≡ Fifo.run (capacity b') (contents b') ops
    → run b' ops ≡ Fifo.run (capacity b) (contents b') ops
same_capacity b b' ops e h = h ∙ ap (λ s. Fifo.run (s - 1) (contents b') ops) e

-- No sequence of calls tells a valid buffer from the queue of its bytes, bounded by its size less
-- one: the counts, the bytes and the -1 that they return are the same.
pub run-refines :
    (ops : List Op) {b : Cbuf} → IsValid b → run b ops ≡ Fifo.run (capacity b) (contents b) ops
unfolding run Fifo.run
run-refines [] v = refl
run-refines (put x ∷ ops) {b} v =
    let xs : List ℕ = x ∷ [] in
    rw (
      write_char_lem x v,
      same_capacity b _ ops (size-write xs v) (run-refines ops (write-IsValid xs v)),
      ← write-refines v xs,
    )
run-refines (put_all xs ∷ ops) {b} v = rw (
  same_capacity b _ ops (size-write xs v) (run-refines ops (write-IsValid xs v)),
  ← write-refines v xs,
)
run-refines (get ∷ ops) {b} v = rw (
  same_capacity b _ ops (size-read_char v) (run-refines ops (read_char-IsValid v)),
  ← read_char-refines v,
)
run-refines (get_all n ∷ ops) {b} v =
    let r = read_lem n v in
    rw (same_capacity b _ ops r.same_size (run-refines ops r.valid), ← read-refines v n)
run-refines (look ∷ ops) v = rw (run-refines ops v, peek-refines v)
run-refines (clear ∷ ops) {b} v =
    ap (λ t. done ∷ t)
      (same_capacity b (flush b) ops (unfold flush in refl) (run-refines ops (flush-IsValid v))
        ∙ ap (λ q. Fifo.run (capacity b) q ops) (contents-flush v))

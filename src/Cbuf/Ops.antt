-- ===== src/Cbuf/Ops.antt =====
-- The invariant of a `cbuf`, and what `read` and `write` do to the bytes that it holds.
use ras_pi_arduino.Prelude.{ℕ, ◌+◌, ◌-◌, ◌^◌, ◌≤◌, ◌<◌, min, ◌≡◌, sym, ap, ◌∙◌, arith}
use ras_pi_arduino.Prelude.{List, ◌++◌}
use ras_pi_arduino.Prelude.{ltb, if◌then◌else◌, length, take, drop}
use ras_pi_arduino.Prelude.{
  replicate, length-replicate, length-append, length-take, length-drop, take-split,
}
use ras_pi_arduino.Prelude.Slices.{slice, blit, length-blit, length-slice}
use ras_pi_arduino.Cbuf.{Cbuf, create, get_size, room, copy_out, copy_in, read, write}
use ras_pi_arduino.Cbuf.Window.{window, length-window, read_straight, read_below_end}
use ras_pi_arduino.Cbuf.Window.{read_to_end, read_round, write_straight, write_to_end, write_round}
use ras_pi_arduino.Cbuf.Window.{write_below_begin}

-- Both pointers stand inside the array, which has a size that a pointer difference can express.
pub record IsValid (b : Cbuf) : Type 0 where
  pub array : length b.buf ≡ b.size
  pub begin_in : b.begin < b.size
  pub end_in : b.end < b.size
  pub small : b.size < 2 ^ 31

abbrev pub contents : Cbuf → List ℕ
contents b = window b.buf b.size b.begin b.end

-- One cell always stays free.
abbrev pub capacity : Cbuf → ℕ
capacity b = b.size - 1

pub create-IsValid : (n : ℕ) → 0 < n → n < 2 ^ 31 → IsValid (create n)
unfolding create
create-IsValid n h k = omega (arith, zeros)
  where
    zeros : length (replicate {A = ℕ} n 0) ≡ n
    zeros = length-replicate n 0

-- `room()` is the part of the capacity that `getSize()` leaves, and neither wraps.
pub room-add-get_size : {b : Cbuf} → IsValid b → room b + get_size b ≡ capacity b
unfolding room get_size
room-add-get_size v = ground arith

-- `getSize()` counts the bytes that the buffer holds.
pub length-contents : {b : Cbuf} → IsValid b → length (contents b) ≡ get_size b
unfolding get_size
length-contents {b} v = length-window b.buf b.size b.begin b.end v.array v.begin_in v.end_in

-- What a read of `n` bytes gives and leaves.
pub record Reads (b : Cbuf) (n : ℕ) (out : ℕ × List ℕ × Cbuf) : Type 0 where
  pub valid : IsValid out.2
  pub same_size : out.2.size ≡ b.size
  pub number : out.0 ≡ n
  pub taken : length out.1 ≡ n
  pub rest : out.1 ++ contents out.2 ≡ contents b

copy_out-Reads : {b : Cbuf} (n : ℕ) → IsValid b → n ≤ get_size b → Reads b n (copy_out b n)
unfolding copy_out get_size
copy_out-Reads {b} n v h = record {
  valid = ground arith;
  same_size = ground arith;
  number = ground arith;
  taken = ground (
    arith,
    length-slice b.buf b.begin n,
    length-slice b.buf b.begin (b.size - b.begin),
    length-slice b.buf 0 (n - (b.size - b.begin)),
    length-append (slice b.buf b.begin (b.size - b.begin)) (slice b.buf 0 (n - (b.size - b.begin))),
  );
  rest = ground (
    arith,
    read_straight b.buf b.size b.begin b.end n,
    read_below_end b.buf b.size b.begin b.end n,
    read_to_end b.buf b.size b.begin b.end n,
    read_round b.buf b.size b.begin b.end n,
  );
}

-- A write of the first `n` bytes of `src`, of which there is room for `n`.
pub record Writes (b : Cbuf) (src : List ℕ) (n : ℕ) (out : ℕ × Cbuf) : Type 0 where
  pub valid : IsValid out.1
  pub same_size : out.1.size ≡ b.size
  pub number : out.0 ≡ n
  pub appended : contents out.1 ≡ contents b ++ take n src

copy_in-Writes :
    {b : Cbuf} (src : List ℕ) (n : ℕ)
    → IsValid b
    → n ≤ room b
    → n ≤ length src
    → Writes b src n (copy_in b src n)
unfolding copy_in room
copy_in-Writes {b} src n v h k = record {
  valid = ground (
    arith,
    length-blit b.buf b.end (take n src),
    length-take n src,
    length-blit b.buf b.end (take (b.size - b.end) src),
    length-take (b.size - b.end) src,
    length-blit (blit b.buf b.end (take (b.size - b.end) src)) 0
        (take (n - (b.size - b.end)) (drop (b.size - b.end) src)),
    length-take (n - (b.size - b.end)) (drop (b.size - b.end) src),
    length-drop (b.size - b.end) src,
  );
  same_size = ground arith;
  number = ground arith;
  appended = ground (
    arith,
    length-take n src,
    write_straight b.buf b.size b.begin b.end (take n src),
    write_to_end b.buf b.size b.begin b.end (take n src),
    write_below_begin b.buf b.size b.begin b.end (take n src),
    length-take (b.size - b.end) src,
    length-drop (b.size - b.end) src,
    length-take (n - (b.size - b.end)) (drop (b.size - b.end) src),
    write_round b.buf b.size b.begin b.end (take (b.size - b.end) src)
        (take (n - (b.size - b.end)) (drop (b.size - b.end) src)),
    take_two_parts,
  );
}
  where
    take_two_parts :
        b.size - b.end ≤ n
        → take (b.size - b.end) src ++ take (n - (b.size - b.end)) (drop (b.size - b.end) src)
          ≡ take n src
    take_two_parts g =
        sym (take-split (b.size - b.end) (n - (b.size - b.end)) src)
        ∙ ap (λ t. take t src) {y = n} (omega arith)

-- `read(dst, size)` takes as many of the oldest bytes as there are, up to `size`.
pub read_lem : {b : Cbuf} (size : ℕ) → IsValid b → Reads b (min size (get_size b)) (read b size)
unfolding read
read_lem {b} size v =
    let e : (if ltb size (get_size b) then size else get_size b) ≡ min size (get_size b) =
      ground arith in
    rw e (copy_out-Reads (min size (get_size b)) v (omega arith))

-- `write(src, size)` appends as many bytes as there is room for, up to `size`.
pub write_lem :
    {b : Cbuf} (src : List ℕ) (size : ℕ)
    → IsValid b
    → size ≤ length src
    → Writes b src (min size (room b)) (write b src size)
unfolding write
write_lem {b} src size v h =
    let e : (if ltb size (room b) then size else room b) ≡ min size (room b) = ground arith in
    rw e (copy_in-Writes src (min size (room b)) v (omega arith) (omega arith))

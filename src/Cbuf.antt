-- ===== src/Cbuf.antt =====
-- `class cbuf` of cores/piduino/cbuf.h and cores/piduino/cbuf.cpp. The pointers into `_buf` are
-- offsets; `char` has no sign on ARM, so a character is a number below 256.
pub mod Window
pub mod Ops
pub mod Run
mod Tests
use ras_pi_arduino.Prelude.{ℕ, ◌+◌, ◌-◌, ◌^◌, Bool, List, [], ◌∷◌, ◌++◌, ◌&&◌}
use ras_pi_arduino.Prelude.{ltb, leb, ◌==◌, if◌then◌else◌, take, drop, set, get_or, replicate}
use ras_pi_arduino.Prelude.Slices.{slice, blit}
use ras_pi_arduino.Prelude.Bits.{u32}
use ras_pi_arduino.Prelude.Signed.{ℤ, pos, minus_one}

pub record Cbuf : Type 0 where
  pub size : ℕ
  pub buf : List ℕ
  pub begin : ℕ
  pub end : ℕ

-- The constructor. What `new` leaves in the array is taken to be zeros; nothing reads it.
unfoldable pub create : ℕ → Cbuf
create n = record { size = n; buf = replicate n 0; begin = 0; end = 0 }

unfoldable pub wrap_if_bufend : Cbuf → ℕ → ℕ
wrap_if_bufend b p = if p == b.size then 0 else p

unfoldable pub get_size : Cbuf → ℕ
get_size b = if leb b.begin b.end then b.end - b.begin else b.size - (b.begin - b.end)

-- `size_t` arithmetic wraps when the buffer has size 0.
unfoldable pub room : Cbuf → ℕ
room b =
    if leb b.begin b.end then u32 (b.size + 2 ^ 32 - (b.end - b.begin) - 1) else b.begin - b.end - 1

unfoldable pub is_empty : Cbuf → Bool
is_empty b = b.begin == b.end

unfoldable pub is_full : Cbuf → Bool
unfolding wrap_if_bufend
is_full b = wrap_if_bufend b (b.end + 1) == b.begin

unfoldable pub peek : Cbuf → ℤ
unfolding is_empty
peek b = if is_empty b then minus_one else pos (get_or b.buf b.begin 0)

-- `read()`.
unfoldable pub read_char : Cbuf → ℤ × Cbuf
unfolding is_empty wrap_if_bufend
read_char b =
    if is_empty b
    then (minus_one, b)
    else (pos (get_or b.buf b.begin 0), record b { begin = wrap_if_bufend b (b.begin + 1) })

-- The copies of `read(dst, size)` for `n` bytes to read: the count that it returns, what it copies
-- to `dst`, and the buffer.
unfoldable pub copy_out : Cbuf → ℕ → ℕ × List ℕ × Cbuf
unfolding wrap_if_bufend
copy_out b n =
    let top = b.size - b.begin in
    if ltb b.end b.begin && ltb top n
    then (
      n,
      slice b.buf b.begin top ++ slice b.buf 0 (n - top),
      record b { begin = wrap_if_bufend b (n - top) },
    )
    else (n, slice b.buf b.begin n, record b { begin = wrap_if_bufend b (b.begin + n) })

-- `read(dst, size)`.
unfoldable pub read : Cbuf → ℕ → ℕ × List ℕ × Cbuf
read b size =
    let available = get_size b in copy_out b (if ltb size available then size else available)

-- The copies of `write(src, size)` for `n` bytes to write: the count that it returns, and the
-- buffer.
unfoldable pub copy_in : Cbuf → List ℕ → ℕ → ℕ × Cbuf
unfolding wrap_if_bufend
copy_in b src n =
    let top = b.size - b.end in
    if leb b.begin b.end && ltb top n
    then (
      n,
      record b {
        buf = blit (blit b.buf b.end (take top src)) 0 (take (n - top) (drop top src));
        end = wrap_if_bufend b (n - top);
      },
    )
    else (n, record b { buf = blit b.buf b.end (take n src); end = wrap_if_bufend b (b.end + n) })

-- `write(src, size)`.
unfoldable pub write : Cbuf → List ℕ → ℕ → ℕ × Cbuf
write b src size =
    let available = room b in copy_in b src (if ltb size available then size else available)

-- `write(c)`.
unfoldable pub write_char : Cbuf → ℕ → ℕ × Cbuf
unfolding is_full wrap_if_bufend
write_char b c =
    if is_full b
    then (0, b)
    else (1, record b { buf = set b.buf b.end c; end = wrap_if_bufend b (b.end + 1) })

unfoldable pub flush : Cbuf → Cbuf
flush b = record b { begin = 0; end = 0 }

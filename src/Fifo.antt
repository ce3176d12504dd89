-- ===== src/Fifo.antt =====
-- What a bounded buffer of bytes promises: a queue, oldest byte first, that holds at most `cap`.
use ras_pi_arduino.Prelude.{ℕ, ◌-◌, List, [], ◌∷◌, ◌++◌, min}
use ras_pi_arduino.Prelude.{length, take, drop}
use ras_pi_arduino.Prelude.Signed.{ℤ, pos, minus_one}

abbrev pub Fifo : Type 0
Fifo = List ℕ

unfoldable pub peek : Fifo → ℤ
peek [] = minus_one
peek (x ∷ q) = pos x

unfoldable pub pop : Fifo → ℤ × Fifo
pop [] = (minus_one, [])
pop (x ∷ q) = (pos x, q)

unfoldable pub take_out : Fifo → ℕ → ℕ × List ℕ × Fifo
take_out q n = (min n (length q), take n q, drop n q)

-- What a client asks of a buffer, and what it sees of each call.
pub data Op : Type 0 where
  put : ℕ → Op
  put_all : List ℕ → Op
  get : Op
  get_all : ℕ → Op
  look : Op
  clear : Op

pub data Reply : Type 0 where
  count : ℕ → Reply
  value : ℤ → Reply
  bytes : ℕ → List ℕ → Reply
  done : Reply

module _ (cap : ℕ) where
  unfoldable pub push_all : Fifo → List ℕ → ℕ × Fifo
  push_all q xs = (min (length xs) (cap - length q), q ++ take (cap - length q) xs)

  unfoldable pub run : Fifo → List Op → List Reply
  run q [] = []
  run q (put x ∷ ops) = let (n, q') = push_all q (x ∷ []) in count n ∷ run q' ops
  run q (put_all xs ∷ ops) = let (n, q') = push_all q xs in count n ∷ run q' ops
  run q (get ∷ ops) = let (c, q') = pop q in value c ∷ run q' ops
  run q (get_all n ∷ ops) = let (k, xs, q') = take_out q n in bytes k xs ∷ run q' ops
  run q (look ∷ ops) = value (peek q) ∷ run q ops
  run q (clear ∷ ops) = done ∷ run [] ops

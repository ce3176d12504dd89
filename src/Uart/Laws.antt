-- ===== src/Uart/Laws.antt =====
-- What the check thread leaves in the buffer of the serial port.
use ras_pi_arduino.Prelude.{
  ℕ, zero, suc, ◌-◌, ◌≡◌, refl, sym, ap, ◌∙◌, arith, List, [], ◌∷◌, ◌++◌, map, length, take,
  append-nil, append_assoc, length-append, true,
}
use ras_pi_arduino.Prelude.Bits.{u8}
use ras_pi_arduino.Fifo
use ras_pi_arduino.Cbuf.{Cbuf, write_char}
use ras_pi_arduino.Cbuf.Ops.{IsValid, contents, capacity}
use ras_pi_arduino.Cbuf.Run.{write_char_lem, write-refines, write-IsValid, size-write}
use ras_pi_arduino.Uart.{Uart, drain_fifo, uart_check_fifos}

-- The queue after the bytes for which there is room.
pub record Pushed (bs : List ℕ) (b b' : Cbuf) : Type 0 where
  pub valid : IsValid b'
  pub size : b'.size ≡ b.size
  pub queue : contents b' ≡ contents b ++ take (capacity b - length (contents b)) bs

write_char-Pushed : (c : ℕ) (b : Cbuf) → IsValid b → Pushed (c ∷ []) b (write_char b c).1
unfolding Fifo.push_all
write_char-Pushed c b v = rw (write_char_lem c v) record {
  valid = write-IsValid (c ∷ []) v;
  size = size-write (c ∷ []) v;
  queue = ap (λ t. t.1) (write-refines v (c ∷ []));
}

take-nil : (n : ℕ) → take {A = ℕ} n [] ≡ []
take-nil zero = refl
take-nil (suc n) = refl

take_twice :
    (q bs : List ℕ) (c most k : ℕ)
    → most - length q ≡ k
    → (q ++ take k (c ∷ [])) ++ take (most - length (q ++ take k (c ∷ []))) bs
      ≡ q ++ take k (c ∷ bs)
take_twice q bs c most zero h =
    let none_left : most - length (q ++ []) ≡ 0 = omega (arith, length-append q []) in
    rw none_left (append-nil (q ++ []))
take_twice q bs c most (suc k) h =
    let left : most - length (q ++ (c ∷ [])) ≡ k = omega (arith, length-append q (c ∷ [])) in
    ap (λ t. (q ++ (c ∷ t)) ++ take (most - length (q ++ (c ∷ t))) bs) (take-nil k)
    ∙ ap (λ n. (q ++ (c ∷ [])) ++ take n bs) left
    ∙ append_assoc q (c ∷ []) (take k bs)

pub drain_fifo-Pushed :
    (ws : List ℕ) (b : Cbuf) → IsValid b → Pushed (map u8 ws) b (drain_fifo ws b)
unfolding drain_fifo
drain_fifo-Pushed [] b v = record {
  valid = v;
  size = refl;
  queue =
      sym (append-nil (contents b))
      ∙ ap (λ t. contents b ++ t) (sym (take-nil (capacity b - length (contents b))));
}
drain_fifo-Pushed (w ∷ ws) b v =
    let p = write_char-Pushed (u8 w) b v in
    let b' = (write_char b (u8 w)).1 in
    let r = drain_fifo-Pushed ws b' p.valid in
    let room = capacity b - length (contents b) in
    record {
      valid = r.valid;
      size = r.size ∙ p.size;
      queue =
          r.queue
          ∙ ap (λ n. contents b' ++ take (n - 1 - length (contents b')) (map u8 ws)) p.size
          ∙ ap (λ q. q ++ take (capacity b - length q) (map u8 ws)) p.queue
          ∙ take_twice (contents b) (map u8 ws) (u8 w) (capacity b) room refl;
    }

-- After `uart_check_fifos` of a running port the buffer is valid and holds what it held before and
-- behind it the low bytes of the words that came in, in order, those for which there was room; the
-- later ones are lost. The buffer was valid.
pub uart_check_fifos_lem :
    (ws : List ℕ) (u : Uart)
    → IsValid u.rx_buffer
    → u.check_run ≡ true
    → let b = u.rx_buffer in
      let b' = (uart_check_fifos ws u).rx_buffer in
      IsValid b' × (contents b' ≡ contents b ++ take (capacity b - length (contents b)) (map u8 ws))
unfolding uart_check_fifos
uart_check_fifos_lem ws u v e =
    let p = drain_fifo-Pushed ws u.rx_buffer v in rw e (p.valid, p.queue)

-- ===== src/Uart/Calls.antt =====
-- The check thread and the sketch at the serial port, in any order.
use ras_pi_arduino.Prelude.{
  ℕ, ◌-◌, ◌≡◌, refl, sym, ap, ap₂, ◌∙◌, List, [], ◌∷◌, ◌++◌, map, length, take, true,
}
use ras_pi_arduino.Prelude.Bits.{u8}
use ras_pi_arduino.Prelude.Signed.{ℤ}
use ras_pi_arduino.Fifo
use ras_pi_arduino.Cbuf.{Cbuf}
use ras_pi_arduino.Cbuf
use ras_pi_arduino.Cbuf.Ops.{IsValid, contents, capacity, length-contents}
use ras_pi_arduino.Cbuf.Run.{
  read_char-refines, read_char-IsValid, size-read_char, peek-refines, flush-IsValid, contents-flush,
}
use ras_pi_arduino.Uart.{Uart, uart_check_fifos, drain_fifo}
use ras_pi_arduino.Uart
use ras_pi_arduino.Uart.Laws.{drain_fifo-Pushed}

-- A pass of the check thread, with the words in the FIFO, or a call of the sketch.
pub data Op : Type 0 where
  check : List ℕ → Op
  available read peek flush : Op

pub data Reply : Type 0 where
  done : Reply
  count : ℕ → Reply
  value : ℤ → Reply

unfoldable pub run : List Op → Uart → List Reply
run [] u = []
run (check ws ∷ ops) u = done ∷ run ops (uart_check_fifos ws u)
run (available ∷ ops) u = count (Uart.available u) ∷ run ops u
run (read ∷ ops) u = let (c, u') = Uart.read u in value c ∷ run ops u'
run (peek ∷ ops) u = value (Uart.peek u) ∷ run ops u
run (flush ∷ ops) u = done ∷ run ops (Uart.flush u)

-- The same over a queue that holds `most` bytes: those for which there is no room are lost.
unfoldable pub run_queue : ℕ → List Op → List ℕ → List Reply
run_queue most [] q = []
run_queue most (check ws ∷ ops) q =
    done ∷ run_queue most ops (q ++ take (most - length q) (map u8 ws))
run_queue most (available ∷ ops) q = count (length q) ∷ run_queue most ops q
run_queue most (read ∷ ops) q = let (c, q') = Fifo.pop q in value c ∷ run_queue most ops q'
run_queue most (peek ∷ ops) q = value (Fifo.peek q) ∷ run_queue most ops q
run_queue most (flush ∷ ops) q = done ∷ run_queue most ops []

abbrev port : Cbuf → Uart
port b = record { rx_buffer = b; check_run = true }

-- The calls after one that leaves the buffer `b'` with the queue `q`.
after :
    (ops : List Op) (b b' : Cbuf) (q : List ℕ)
    → b'.size ≡ b.size
    → contents b' ≡ q
    → run ops (port b') ≡ run_queue (capacity b') ops (contents b')
    → run ops (port b') ≡ run_queue (capacity b) ops q
after ops b b' q size same h =
    h ∙ ap (λ n. run_queue (n - 1) ops (contents b')) size ∙ ap (run_queue (capacity b) ops) same

-- However passes of the check thread and calls of available, read, peek and flush follow on each
-- other at a running port with a valid buffer, the calls answer as those of a queue do that holds
-- the size less one: the low bytes of the words that come in are read in order, each once, and only
-- those that come when the queue is full are lost.
pub run-run_queue :
    (ops : List Op) (b : Cbuf)
    → IsValid b
    → run ops (port b) ≡ run_queue (capacity b) ops (contents b)
unfolding run run_queue uart_check_fifos Uart.available Uart.read Uart.peek Uart.flush
run-run_queue [] b v = refl
run-run_queue (check ws ∷ ops) b v =
    let p = drain_fifo-Pushed ws b v in
    ap (λ rs. done ∷ rs)
      (after ops b (drain_fifo ws b) _ p.size p.queue (run-run_queue ops (drain_fifo ws b) p.valid))
run-run_queue (available ∷ ops) b v =
    ap₂ (λ n rs. count n ∷ rs) (sym (length-contents v)) (run-run_queue ops b v)
run-run_queue (read ∷ ops) b v =
    let r = read_char-refines v in
    let b' = (Cbuf.read_char b).1 in
    ap₂ (λ c rs. value c ∷ rs) (ap (λ t. t.0) r)
      (after ops b b' _ (size-read_char v) (ap (λ t. t.1) r)
        (run-run_queue ops b' (read_char-IsValid v)))
run-run_queue (peek ∷ ops) b v = ap₂ (λ c rs. value c ∷ rs) (peek-refines v) (run-run_queue ops b v)
run-run_queue (flush ∷ ops) b v =
    ap (λ rs. done ∷ rs)
      (after ops b (Cbuf.flush b) [] (unfold Cbuf.flush in refl) (contents-flush v)
        (run-run_queue ops (Cbuf.flush b) (flush-IsValid v)))

-- ===== src/Uart/Tests.antt =====
-- Two characters that come in at a new port, between calls of the sketch.
use ras_pi_arduino.Prelude.{◌≡◌, refl, arith, true, List, [], ◌∷◌}
use ras_pi_arduino.Prelude.Signed.{pos, minus_one}
use ras_pi_arduino.Fifo
use ras_pi_arduino.Cbuf.{create}
use ras_pi_arduino.Cbuf.Ops.{contents, capacity, create-IsValid}
use ras_pi_arduino.Uart.Calls.{
  Op, check, available, read, peek, flush, done, count, value, run, run_queue, run-run_queue,
}

abbrev script : List Op
script = check (0x41 ∷ []) ∷ read ∷ read ∷ check (0x842 ∷ 0x43 ∷ []) ∷ available ∷ peek ∷ flush ∷ []

script_answers :
    run_queue 1023 script []
    ≡ done ∷ value (pos 0x41) ∷ value minus_one ∷ done ∷ count 2 ∷ value (pos 0x42) ∷ done ∷ []
unfolding run_queue Fifo.pop Fifo.peek
script_answers = refl

run-run_queue_example :
    run script (record { rx_buffer = create 1024; check_run = true })
    ≡ run_queue (capacity (create 1024)) script (contents (create 1024))
run-run_queue_example =
    run-run_queue script (create 1024) (create-IsValid 1024 (omega arith) (omega arith))

-- ===== src/Monitor/Tests.antt =====
-- A buffer of five bytes.
use ras_pi_arduino.Prelude.{◌≡◌, refl, arith, true, [], ◌∷◌, replicate, none, some}
use ras_pi_arduino.Prelude.Signed.{pos}
use ras_pi_arduino.Monitor
use ras_pi_arduino.Monitor.Laws.{IsValid}

abbrev five : Monitor.Monitor
five = record {
  running = true;
  client = pos 7;
  rx = 1 ∷ 2 ∷ 3 ∷ 4 ∷ 5 ∷ replicate 1019 0;
  fill = 5;
}

five-IsValid : IsValid 0 five
five-IsValid = (refl, omega arith)

abbrev fresh : Monitor.Terminal
fresh = record { thread_running = true; rx_buffer = []; index = pos 0 }

-- A read of an empty terminal and the next byte: a store below the buffer.
below_the_buffer : Monitor.console_run (some 65) (Monitor.console_read 0 fresh).1 ≡ none
unfolding Monitor.console_run Monitor.console_read Monitor.predecessor
below_the_buffer = refl

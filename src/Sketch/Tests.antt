-- ===== src/Sketch/Tests.antt =====
-- The main thread ends while the loop thread is in `loop`, with the registers unmapped.
use ras_pi_arduino.Prelude.{refl, true, false}
use ras_pi_arduino.Sketch.{
  Main, in_loop, Program, launched, Reach, launch, step, main_starts, main_creates, main_ends,
  terminates, calls_setup, leaves_setup, calls_loop,
}
use ras_pi_arduino.Sketch.Order.{Ordered, Reach-Ordered}

abbrev abandoned : Program
abandoned = record {
  main = Main.over;
  thread = in_loop;
  keep_sketch_running = false;
  loop_is_running = true;
  mapped = false;
  setups = 1;
  rounds = 1;
}

abandoned-Reach : Reach abandoned
unfolding launched
abandoned-Reach =
    step
      (step
        (step
          (step
            (step (step (step launch (main_starts refl)) (main_creates true refl))
              (calls_setup refl))
            (leaves_setup refl))
          (calls_loop refl refl))
        terminates)
      (main_ends refl refl)

Reach-Ordered_example : Ordered abandoned
Reach-Ordered_example = Reach-Ordered abandoned-Reach

-- ===== src/Sketch.antt =====
-- cores/piduino/wiring_main.cpp: the loop thread that runs the sketch beside the main thread, step
-- by step. A step is what one thread does up to the next point at which the other may go on.
pub mod Order
mod Tests
use ras_pi_arduino.Prelude.{ℕ, ◌+◌, ◌≡◌, Bool, true, false, if◌then◌else◌}

-- Where the main thread is: before `_keep_sketch_running = 1`, before pthread_create, in its loop,
-- or behind `uninit`.
pub data Main : Type 0 where
  starts creates polls over : Main

-- Where the loop thread is: not made, before its first statement, in `setup`, before the test of its
-- loop, in `loop`, or at its end.
pub data Loop : Type 0 where
  absent fresh in_setup tests in_loop over : Loop

pub record Program : Type 0 where
  pub main : Main
  pub thread : Loop
  pub keep_sketch_running : Bool
  pub loop_is_running : Bool
  -- The registers are mapped.
  pub mapped : Bool
  -- How often `setup` and `loop` of the sketch have been called.
  pub setups : ℕ
  pub rounds : ℕ

-- When `init` has succeeded.
unfoldable pub launched : Program
launched = record {
  main = starts;
  thread = absent;
  keep_sketch_running = false;
  loop_is_running = false;
  mapped = true;
  setups = 0;
  rounds = 0;
}

pub data Step : Program → Program → Type 0 where
  main_starts :
      {p : Program}
      → p.main ≡ starts
      → Step p (record p { main = creates; keep_sketch_running = true; loop_is_running = false })
  -- pthread_create, and whether it makes the thread.
  main_creates :
      {p : Program} (created : Bool)
      → p.main ≡ creates
      → Step p (record p { main = polls; thread = if created then fresh else absent })
  -- `while(_keep_sketch_running)` ends, and `uninit` follows.
  main_ends :
      {p : Program}
      → p.main ≡ polls
      → p.keep_sketch_running ≡ false
      → Step p (record p { main = Main.over; mapped = false })
  -- `request_sketch_terminate`, by a signal or by the sketch.
  terminates : {p : Program} → Step p (record p { keep_sketch_running = false })
  calls_setup :
      {p : Program}
      → p.thread ≡ fresh
      → Step p (record p { thread = in_setup; loop_is_running = true; setups = p.setups + 1 })
  leaves_setup : {p : Program} → p.thread ≡ in_setup → Step p (record p { thread = tests })
  calls_loop :
      {p : Program}
      → p.thread ≡ tests
      → p.keep_sketch_running ≡ true
      → Step p (record p { thread = in_loop; rounds = p.rounds + 1 })
  -- The end of `loop`, and usleep.
  leaves_loop : {p : Program} → p.thread ≡ in_loop → Step p (record p { thread = tests })
  thread_ends :
      {p : Program}
      → p.thread ≡ tests
      → p.keep_sketch_running ≡ false
      → Step p (record p { thread = Loop.over; loop_is_running = false })

pub data Reach : Program → Type 0 where
  launch : Reach launched
  step : {p q : Program} → Reach p → Step p q → Reach q

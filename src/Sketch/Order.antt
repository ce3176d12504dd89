-- ===== src/Sketch/Order.antt =====
-- The order of setup, loop and the end of the program.
use ras_pi_arduino.Prelude.{ℕ, ◌≡◌, ◌≢◌, arith, Bool, true, false, not}
use ras_pi_arduino.Sketch.{
  Main, Loop, starts, creates, polls, absent, fresh, in_setup, tests, in_loop, Program, launched,
  Reach, launch, step, Step,
}
use ras_pi_arduino.Sketch.{
  main_starts, main_creates, main_ends, terminates, calls_setup, leaves_setup, calls_loop,
  leaves_loop, thread_ends,
}

-- Whether `setup` has been called.
abbrev pub has_set_up : Loop → ℕ
has_set_up absent = 0
has_set_up fresh = 0
has_set_up in_setup = 1
has_set_up tests = 1
has_set_up in_loop = 1
has_set_up Loop.over = 1

-- Whether the thread is between its first statement and its last.
abbrev pub is_inside : Loop → Bool
is_inside absent = false
is_inside fresh = false
is_inside in_setup = true
is_inside tests = true
is_inside in_loop = true
is_inside Loop.over = false

-- Whether the thread has come behind `setup`.
abbrev pub is_behind : Loop → Bool
is_behind absent = false
is_behind fresh = false
is_behind in_setup = false
is_behind tests = true
is_behind in_loop = true
is_behind Loop.over = true

abbrev pub is_early : Main → Bool
is_early starts = true
is_early creates = true
is_early polls = false
is_early Main.over = false

abbrev pub is_over : Main → Bool
is_over starts = false
is_over creates = false
is_over polls = false
is_over Main.over = true

pub record Ordered (p : Program) : Type 0 where
  -- `setup` is called once, and `loop` only when it has returned.
  pub once : p.setups ≡ has_set_up p.thread
  pub after : p.rounds ≢ 0 → is_behind p.thread ≡ true
  pub told : p.loop_is_running ≡ is_inside p.thread
  pub late : is_early p.main ≡ true → p.thread ≡ absent
  pub unmapped : p.mapped ≡ not (is_over p.main)
  pub ended : is_over p.main ≡ true → p.keep_sketch_running ≡ false

Step-Ordered : {p q : Program} → Ordered p → Step p q → Ordered q
Step-Ordered {p} o (main_starts at) =
    ground (arith, o.once, o.after, o.told, o.late, o.unmapped, o.ended)
Step-Ordered {p} o (main_creates created at) =
    ground (arith, o.once, o.after, o.told, o.late, o.unmapped, o.ended)
Step-Ordered {p} o (main_ends at stop) =
    ground (arith, o.once, o.after, o.told, o.late, o.unmapped, o.ended)
Step-Ordered {p} o terminates = ground (arith, o.once, o.after, o.told, o.late, o.unmapped, o.ended)
Step-Ordered {p} o (calls_setup at) =
    ground (arith, o.once, o.after, o.told, o.late, o.unmapped, o.ended)
Step-Ordered {p} o (leaves_setup at) =
    ground (arith, o.once, o.after, o.told, o.late, o.unmapped, o.ended)
Step-Ordered {p} o (calls_loop at go) =
    ground (arith, o.once, o.after, o.told, o.late, o.unmapped, o.ended)
Step-Ordered {p} o (leaves_loop at) =
    ground (arith, o.once, o.after, o.told, o.late, o.unmapped, o.ended)
Step-Ordered {p} o (thread_ends at stop) =
    ground (arith, o.once, o.after, o.told, o.late, o.unmapped, o.ended)

-- In every interleaving of the two threads setup is called once at most, and loop only after it has
-- returned; _loop_is_running tells whether the loop thread is between its first statement and its
-- last; there is no loop thread before the main thread makes it; and the registers are mapped until
-- the main thread has left its loop, and from then on not, and it is left only when the sketch is
-- to end.
pub Reach-Ordered : {p : Program} → Reach p → Ordered p
unfolding launched
Reach-Ordered launch = ground arith
Reach-Ordered (step r s) = Step-Ordered (Reach-Ordered r) s

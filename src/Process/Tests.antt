-- ===== src/Process/Tests.antt =====
-- A process with no command, a calm run of it, and the descriptors of a child.
use ras_pi_arduino.Prelude.{
  ◌<◌, ◌==◌, if◌then◌else◌, ◌≡◌, refl, arith, true, false, none, some, List, [], ◌∷◌, member, ◌+◌,
  ◌*◌,
}
use ras_pi_arduino.Prelude.Signed.{pos, minus_one}
use ras_pi_arduino.Process.{
  Process, Turn, forks, gives_up, reaps, construct, run, start_thread, poll, take_turn, take_turns,
  running, exit_value, execute_until_wait, copy_arguments, run_asynchronously,
}
use ras_pi_arduino.Items.Refine.{new_heap, Holds}
use ras_pi_arduino.Items
use ras_pi_arduino.Items.Chain.{Chain, link}
use ras_pi_arduino.Process.Run.{Ready}
use ras_pi_arduino.Process.Polls.{exits}
use ras_pi_arduino.Process.Returns.{run-Ready}
use ras_pi_arduino.Process.Threads.{
  Shell, fresh, creates, stores, Reach, new, next, Told, Reach-Told,
}
use ras_pi_arduino.Process.Child.{
  End, in_read, in_write, out_read, out_write, err_read, err_write, Pipes, Table, Redirected,
  redirect-Redirected,
}

-- A process with a command, which is at the address 1.
abbrev with_command : Process
with_command = record (construct new_heap) {
  cmd_array = record {
    first = 1;
    heap = record {
      items = λ a. if a == 1 then some (record { string = 65 ∷ []; next = 0 }) else none;
      unused = 2;
    };
  };
}

with_command-Holds : Holds with_command.cmd_array ((65 ∷ []) ∷ [])
unfolding member
with_command-Holds = record {
  places = 1 ∷ [];
  chain = link (λ e. absurd (omega arith)) refl Chain.end;
  owns = record {
    distinct = (refl, tt);
    below = λ b m. ground (arith, m);
    only = λ b m. ground (arith, m);
    positive = omega arith;
  };
}

-- The child is made during the first delay and returns 3 during the third.
abbrev gaps : List (List Turn)
gaps = (forks (pos 7) ∷ []) ∷ [] ∷ (reaps (0 + 3 * 256) ∷ []) ∷ []

run-Ready_example :
    (p' : Process) × (run 10 true [] gaps with_command ≡ some (3, p')) × Ready p' ((65 ∷ []) ∷ [])
unfolding construct
run-Ready_example =
    run-Ready 10 true gaps 3 with_command ((65 ∷ []) ∷ []) with_command-Holds (omega arith)
      (exits {low = 0} (pos 7) refl (λ e. absurd cc) refl (omega arith) (omega arith) refl)

-- If the poll comes between the two stores of a fork that fails, run returns 0.
fork_fails_silently :
    (p' : Process) × (run 10 true [] ((forks minus_one ∷ []) ∷ (gives_up ∷ []) ∷ []) with_command
      ≡ some (0, p'))
unfolding run start_thread poll take_turns take_turn running exit_value construct run_asynchronously
    Items.length_of Items.count_from Items.get Items.get_from execute_until_wait copy_arguments
fork_fails_silently = (_, refl)

abbrev created : Shell
created = record { process = construct new_heap; threads = fresh ∷ []; storing = true }

abbrev started : Shell
started = record {
  process = record (construct new_heap) { thread_running = true };
  threads = fresh ∷ [];
  storing = false;
}

started-Reach : Reach 10 true started
unfolding construct
started-Reach = next {s = created} (next (new new_heap) (creates refl refl)) (stores refl)

Reach-Told_example : Told started
Reach-Told_example = Reach-Told started-Reach

abbrev pipes : Pipes
pipes in_read = 3
pipes in_write = 4
pipes out_read = 5
pipes out_write = 6
pipes err_read = 7
pipes err_write = 8

abbrev table : Table
table n =
    if n == 3
    then some in_read
    else if n == 4
    then some in_write
    else if n == 5
    then some out_read
    else if n == 6
    then some out_write
    else if n == 7
    then some err_read
    else if n == 8
    then some err_write
    else none

redirect-Redirected_example : Redirected pipes table
redirect-Redirected_example =
    redirect-Redirected pipes table (record { opened = opened; above = above })
  where
    opened : (e : End) → table (pipes e) ≡ some e
    opened in_read = refl
    opened in_write = refl
    opened out_read = refl
    opened out_write = refl
    opened err_read = refl
    opened err_write = refl

    above : (e : End) → 2 < pipes e
    above in_read = omega arith
    above in_write = omega arith
    above out_read = omega arith
    above out_write = omega arith
    above err_read = omega arith
    above err_write = omega arith

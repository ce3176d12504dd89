-- ===== src/Process/Returns.antt =====
-- What `run` returns, by what the thread does while `run` polls.
use ras_pi_arduino.Prelude.{ℕ, suc, ◌+◌, ◌-◌, ◌*◌, ◌<◌, ◌^◌, ◌≡◌, refl, ap, ◌∙◌, sym, arith}
use ras_pi_arduino.Prelude.{Bool, true, false, ◌||◌, none, some, List, [], ◌∷◌, ◌++◌, length}
use ras_pi_arduino.Prelude.{replicate, append-nil, ◌==◌, Bool-cases, inl, inr, ◌>>=◌}
use ras_pi_arduino.Prelude.Signed.{is_minus_one, ℤ, negsuc, minus_one}
use ras_pi_arduino.Items.Refine.{Holds}
use ras_pi_arduino.Process.{
  Process, Str, Turn, forks, gives_up, reaps, take_turn, take_turns, start_thread, poll, run,
  run_asynchronously, execute_until_wait, execute_after_wait, exit_value, running,
}
use ras_pi_arduino.Process.Run.{
  Ready, length_of-Holds, execute_until_wait-Ready, execute_until_wait-failed,
}
use ras_pi_arduino.Process.Polls.{
  all_turns, Runs, exits, joins, no_command, no_child, no_thread, poll-stopped, poll-running,
  take_turns-two, poll-one, poll-two, poll-idle, start_thread-running,
}

module _ (fuel : ℕ) where
  -- The loop from `q` on ends with `value`.
  abbrev Polled : Process → List Str → List (List Turn) → ℕ → Type 0
  Polled q args gaps value =
      (p' : Process) × (poll fuel gaps q ≡ some p') × (exit_value p' ≡ value) × Ready p' args

  reaped_value :
      (low code : ℕ) (q : Process)
      → low < 256
      → code < 256
      → exit_value (execute_after_wait (low + code * 256) q) ≡ code
  unfolding execute_after_wait exit_value
  reaped_value low code q h k = omega arith

  module _ (q : Process) (on : q.thread_running ≡ true) where
    Polled-joins :
        (args : List Str) (gaps : List (List Turn)) (low code : ℕ)
        → Holds q.cmd_array args
        → low < 256
        → code < 256
        → all_turns gaps ≡ reaps (low + code * 256) ∷ []
        → Polled q args gaps code
    unfolding take_turn execute_after_wait
    Polled-joins args gaps low code holds h k e = (
      execute_after_wait (low + code * 256) q,
      poll-one fuel gaps (reaps (low + code * 256)) q _ e on refl refl,
      reaped_value low code q h k,
      record { idle = refl; holds = holds },
    )

    Polled-exits :
        (x : Str) (xs : List Str) (gaps : List (List Turn)) (low code : ℕ) (pid : ℤ)
        → Holds q.cmd_array (x ∷ xs)
        → length (x ∷ xs) < fuel
        → is_minus_one pid ≡ false
        → low < 256
        → code < 256
        → all_turns gaps ≡ forks pid ∷ reaps (low + code * 256) ∷ []
        → Polled q (x ∷ xs) gaps code
    unfolding take_turn execute_after_wait
    Polled-exits x xs gaps low code pid holds enough ok h k e =
        let forked : Process = record q {
          success = false;
          executed = true;
          exec_pid = pid;
          thread_running = true;
        } in
        let some_command : (suc (length xs) == 0) ≡ false = ground arith in
        (
          execute_after_wait (low + code * 256) forked,
          poll-two fuel gaps (forks pid) (reaps (low + code * 256)) q forked _ e on
              (rw
                (
                  take_turn,
                  length_of-Holds fuel holds enough,
                  ◌>>=◌,
                  execute_until_wait-Ready fuel pid q holds enough ok,
                  some_command,
                  ok,
                )
                refl)
              refl refl refl,
          reaped_value low code forked h k,
          record { idle = refl; holds = holds },
        )

    Polled-no_command :
        (gaps : List (List Turn)) (pid : ℤ)
        → Holds q.cmd_array []
        → 0 < fuel
        → all_turns gaps ≡ forks pid ∷ []
        → Polled q [] gaps (2 ^ 32 - 2)
    unfolding take_turn execute_until_wait exit_value
    Polled-no_command gaps pid holds enough e = (
      record q { exec_result = negsuc 1; thread_running = false },
      poll-one fuel gaps (forks pid) q _ e on
          (rw (take_turn, execute_until_wait, length_of-Holds fuel holds enough) refl) refl,
      refl,
      record { idle = refl; holds = holds },
    )

    Polled-no_child :
        (x : Str) (xs : List Str) (rest : List (List Turn)) (polls : ℕ)
        → Holds q.cmd_array (x ∷ xs)
        → length (x ∷ xs) < fuel
        → Polled q
            (x ∷ xs)
            (replicate polls [] ++ ((forks minus_one ∷ gives_up ∷ []) ∷ rest))
            (2 ^ 32 - 3)
    unfolding take_turn exit_value
    Polled-no_child x xs rest polls holds enough =
        let failed : Process = record q {
          success = false;
          executed = true;
          exec_pid = minus_one;
          thread_running = false;
        } in
        let some_command : (suc (length xs) == 0) ≡ false = ground arith in
        (
          record failed { exec_result = negsuc 2 },
          poll-idle fuel polls ((forks minus_one ∷ gives_up ∷ []) ∷ rest) q on
              ∙ poll-running fuel (forks minus_one ∷ gives_up ∷ []) rest q _ on (
                  take_turns-two fuel (forks minus_one) gives_up q failed _
                    (rw
                      (
                        take_turn,
                        length_of-Holds fuel holds enough,
                        ◌>>=◌,
                        execute_until_wait-failed fuel q holds enough,
                        some_command,
                      )
                      refl)
                    refl)
              ∙ poll-stopped fuel rest (record failed { exec_result = negsuc 2 }) refl,
          refl,
          record { idle = refl; holds = holds },
        )

    Polled-Runs :
        (is_running created : Bool) (args : List Str) (gaps : List (List Turn)) (value : ℕ)
        → Holds q.cmd_array args
        → length args < fuel
        → (is_running || created) ≡ true
        → Runs is_running created args gaps value
        → Polled q args gaps value
    Polled-Runs is_running created [] gaps value holds enough t (exits pid t' some_args ok h k e) =
        absurd (some_args refl)
    Polled-Runs is_running created (x ∷ xs) gaps value holds enough t
          (exits {low = low} pid t' some_args ok h k e) =
        Polled-exits x xs gaps low value pid holds enough ok h k e
    Polled-Runs is_running created args gaps value holds enough t (joins {low = low} r h k e) =
        Polled-joins args gaps low value holds h k e
    Polled-Runs is_running created [] gaps value holds enough t (no_command pid t' bare e) =
        Polled-no_command gaps pid holds enough e
    Polled-Runs is_running created (x ∷ xs) gaps value holds enough t (no_command pid t' bare e) =
        absurd cc
    Polled-Runs is_running created [] gaps value holds enough t
          (no_child polls rest t' some_args e) =
        absurd (some_args refl)
    Polled-Runs is_running created (x ∷ xs) gaps value holds enough t
          (no_child polls rest t' some_args e) =
        rw e (Polled-no_child x xs rest polls holds enough)
    Polled-Runs is_running created args gaps value holds enough t (no_thread r c) = absurd cc

-- run returns once the thread has stopped, whichever polls come before: the exit code of the child,
-- or, as a word, -2 if there is no command, -3 if fork fails and -5 if there is no thread. If a
-- thread runs already, run waits for that one and returns the same. In every case the process is
-- not running then, and its command is as before. The new thread does nothing before its start is
-- stored, it stores that fork fails before the next poll, and the fuel is for the strings of the
-- command.
pub run-Ready :
    (fuel : ℕ) (created : Bool) (gaps : List (List Turn)) (value : ℕ) (p : Process)
    (args : List Str)
    → Holds p.cmd_array args
    → length args < fuel
    → Runs p.thread_running created args gaps value
    → (p' : Process) × (run fuel created [] gaps p ≡ some (value, p')) × Ready p' args
unfolding run
run-Ready fuel created gaps value p args holds enough runs =
    elim (Bool-cases (p.thread_running || created)) [
      | inl t ↦
          let (q, started, on, same) = start_thread-running fuel created p t in
          let (p', polled, result, ready) =
            Polled-Runs fuel q on p.thread_running created args gaps value (rw same holds) enough t
              runs in
          (p', rw (run, started, ◌>>=◌, polled, result) refl, ready)
      | inr f ↦ not_started gaps value runs f
    ]
  where
    stopped : Process
    stopped = record p { thread_running = false; exec_result = negsuc 4 }

    not_started :
        (gaps : List (List Turn)) (value : ℕ)
        → Runs p.thread_running created args gaps value
        → (p.thread_running || created) ≡ false
        → (p' : Process) × (run fuel created [] gaps p ≡ some (value, p')) × Ready p' args
    not_started gaps value (exits pid t some_args ok h k e) f = absurd cc
    not_started gaps value (joins r h k e) f = absurd (ground (arith, r, f))
    not_started gaps value (no_command pid t bare e) f = absurd cc
    not_started gaps value (no_child polls rest t some_args e) f = absurd cc
    not_started gaps value (no_thread r c) f = (
      stopped,
      unfold run start_thread run_asynchronously exit_value in
          ground (arith, r, c, poll-stopped fuel gaps stopped refl),
      record { idle = refl; holds = holds },
    )

-- If the thread has done all that it does before its start is stored, run waits for ever.
pub run-early :
    (fuel : ℕ) (pid : ℤ) (status polls : ℕ) (p p' : Process)
    → p.thread_running ≡ false
    → take_turns fuel (forks pid ∷ reaps status ∷ []) p ≡ some p'
    → run fuel true (forks pid ∷ reaps status ∷ []) (replicate polls []) p ≡ none
unfolding run
run-early fuel pid status polls p p' off turns =
    let started : Process = record p' { thread_running = true } in
    let waits = poll-idle fuel polls [] started refl in
    rw
      (
        run,
        (let e : start_thread fuel true (forks pid ∷ reaps status ∷ []) p ≡ some started =
              unfold start_thread in ground (arith, off, turns) in
            e),
        ◌>>=◌,
        (ap (λ g. poll fuel g started) {x = replicate polls []} (sym (append-nil _)) ∙ waits),
      )
      (unfold poll running in refl)

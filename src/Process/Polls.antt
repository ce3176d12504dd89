-- ===== src/Process/Polls.antt =====
-- The loop of `run`, and what the thread does between its polls.
use ras_pi_arduino.Prelude.{ℕ, zero, suc, ◌+◌, ◌-◌, ◌*◌, ◌<◌, ◌^◌, ◌≡◌, ◌≢◌, refl, ◌∙◌, arith}
use ras_pi_arduino.Prelude.{Bool, true, false, ◌||◌, some, List, [], ◌∷◌, ◌++◌}
use ras_pi_arduino.Prelude.{replicate, Bool-cases, inl, inr, ◌>>=◌}
use ras_pi_arduino.Prelude.Signed.{is_minus_one, ℤ, negsuc, minus_one}
use ras_pi_arduino.Process.{
  Process, Str, Turn, forks, gives_up, reaps, take_turn, take_turns, start_thread, poll,
  run_asynchronously, running,
}

abbrev pub all_turns : List (List Turn) → List Turn
all_turns [] = []
all_turns (gap ∷ gaps) = gap ++ all_turns gaps

-- What a run comes to. It needs a thread: one that runs before, or one that pthread_create makes.
-- A status of waitpid is that of a child that returned `code`; `low` is what its low byte tells.
pub data Runs (is_running created : Bool) (args : List Str) : List (List Turn) → ℕ → Type 0 where
  -- The thread makes a child and waits for it, whichever polls come between.
  exits :
      {gaps : List (List Turn)} {low code : ℕ} (pid : ℤ)
      → (is_running || created) ≡ true
      → args ≢ []
      → is_minus_one pid ≡ false
      → low < 256
      → code < 256
      → all_turns gaps ≡ forks pid ∷ reaps (low + code * 256) ∷ []
      → Runs is_running created args gaps code
  -- The thread that runs before already waits for its child.
  joins :
      {gaps : List (List Turn)} {low code : ℕ}
      → is_running ≡ true
      → low < 256
      → code < 256
      → all_turns gaps ≡ reaps (low + code * 256) ∷ []
      → Runs is_running created args gaps code
  no_command :
      {gaps : List (List Turn)} (pid : ℤ)
      → (is_running || created) ≡ true
      → args ≡ []
      → all_turns gaps ≡ forks pid ∷ []
      → Runs is_running created args gaps (2 ^ 32 - 2)
  -- fork fails, and the thread stores that before the next poll.
  no_child :
      {gaps : List (List Turn)} (polls : ℕ) (rest : List (List Turn))
      → (is_running || created) ≡ true
      → args ≢ []
      → gaps ≡ replicate polls [] ++ ((forks minus_one ∷ gives_up ∷ []) ∷ rest)
      → Runs is_running created args gaps (2 ^ 32 - 3)
  no_thread :
      {gaps : List (List Turn)}
      → is_running ≡ false
      → created ≡ false
      → Runs is_running created args gaps (2 ^ 32 - 5)

module _ (fuel : ℕ) where
  pub poll-stopped :
      (gaps : List (List Turn)) (p : Process) → p.thread_running ≡ false → poll fuel gaps p ≡ some p
  unfolding poll running
  poll-stopped [] p h = ground (arith, h)
  poll-stopped (gap ∷ gaps) p h = ground (arith, h)

  -- A poll that finds the thread running.
  pub poll-running :
      (gap : List Turn) (gaps : List (List Turn)) (p q : Process)
      → p.thread_running ≡ true
      → take_turns fuel gap p ≡ some q
      → poll fuel (gap ∷ gaps) p ≡ poll fuel gaps q
  unfolding poll running
  poll-running gap gaps p q h turns = ground (arith, h, turns)

  take_turns-one :
      (t : Turn) (p q : Process) → take_turn fuel t p ≡ some q → take_turns fuel (t ∷ []) p ≡ some q
  unfolding take_turns
  take_turns-one t p q h = rw (take_turns, h) refl

  pub take_turns-two :
      (t u : Turn) (p q r : Process)
      → take_turn fuel t p ≡ some q
      → take_turn fuel u q ≡ some r
      → take_turns fuel (t ∷ u ∷ []) p ≡ some r
  unfolding take_turns
  take_turns-two t u p q r h k = rw (take_turns, h, ◌>>=◌, k) refl

  -- The loop ends at the turn that stops the process, in whichever gap it comes.
  pub poll-one :
      (gaps : List (List Turn)) (t : Turn) (p q : Process)
      → all_turns gaps ≡ t ∷ []
      → p.thread_running ≡ true
      → take_turn fuel t p ≡ some q
      → q.thread_running ≡ false
      → poll fuel gaps p ≡ some q
  poll-one [] t p q e on turn off = cc
  poll-one ([] ∷ gaps) t p q e on turn off =
      poll-running [] gaps p p on (unfold take_turns in refl) ∙ poll-one gaps t p q e on turn off
  poll-one ((s ∷ []) ∷ gaps) t p q e on turn off =
      let same : s ≡ t = cc in
      poll-running (s ∷ []) gaps p q on (take_turns-one s p q (rw same turn))
      ∙ poll-stopped gaps q off
  poll-one ((s ∷ u ∷ us) ∷ gaps) t p q e on turn off =
      let never : u ∷ (us ++ all_turns gaps) ≡ [] = cc in absurd cc

  pub poll-two :
      (gaps : List (List Turn)) (t u : Turn) (p q r : Process)
      → all_turns gaps ≡ t ∷ u ∷ []
      → p.thread_running ≡ true
      → take_turn fuel t p ≡ some q
      → q.thread_running ≡ true
      → take_turn fuel u q ≡ some r
      → r.thread_running ≡ false
      → poll fuel gaps p ≡ some r
  poll-two [] t u p q r e on turn on' turn' off = cc
  poll-two ([] ∷ gaps) t u p q r e on turn on' turn' off =
      poll-running [] gaps p p on (unfold take_turns in refl)
      ∙ poll-two gaps t u p q r e on turn on' turn' off
  poll-two ((s ∷ []) ∷ gaps) t u p q r e on turn on' turn' off =
      let same : s ≡ t = cc in
      let left : all_turns gaps ≡ u ∷ [] = cc in
      poll-running (s ∷ []) gaps p q on (take_turns-one s p q (rw same turn))
      ∙ poll-one gaps u q r left on' turn' off
  poll-two ((s ∷ v ∷ []) ∷ gaps) t u p q r e on turn on' turn' off =
      let same : s ≡ t = cc in
      let same' : v ≡ u = cc in
      poll-running (s ∷ v ∷ []) gaps p r on
        (take_turns-two s v p q r (rw same turn) (rw same' turn'))
      ∙ poll-stopped gaps r off
  poll-two ((s ∷ v ∷ w ∷ ws) ∷ gaps) t u p q r e on turn on' turn' off =
      let fewer : v ∷ w ∷ (ws ++ all_turns gaps) ≡ u ∷ [] = cc in
      let never : w ∷ (ws ++ all_turns gaps) ≡ [] = cc in absurd cc

  -- Polls at which nothing has happened.
  pub poll-idle :
      (polls : ℕ) (gaps : List (List Turn)) (p : Process)
      → p.thread_running ≡ true
      → poll fuel (replicate polls [] ++ gaps) p ≡ poll fuel gaps p
  poll-idle zero gaps p on = refl
  poll-idle (suc n) gaps p on =
      poll-running [] (replicate n [] ++ gaps) p p on (unfold take_turns in refl)
      ∙ poll-idle n gaps p on

  -- A thread runs: the new one, or the one before.
  pub start_thread-running :
      (created : Bool) (p : Process)
      → (p.thread_running || created) ≡ true
      → (q : Process) × (start_thread fuel created [] p ≡ some q)
        × (q.thread_running ≡ true)
        × (q.cmd_array ≡ p.cmd_array)
  unfolding start_thread run_asynchronously take_turns
  start_thread-running created p h = elim (Bool-cases p.thread_running) [
    | inl e ↦ (record p { exec_result = negsuc 3 }, ground (arith, e), e, refl)
    | inr e ↦ (record p { thread_running = true }, ground (arith, e, h), refl, refl)
  ]

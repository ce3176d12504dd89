-- ===== src/Process/Threads.antt =====
-- The thread of a process beside the thread of the sketch, step by step: runAsynchronously makes
-- the thread in one step and stores `thread_running` in another, and execute is one step up to the
-- wait for the child and one behind it.
use ras_pi_arduino.Prelude.{ℕ, ◌≤◌, ◌≡◌, arith, Bool, true, false, none, some}
use ras_pi_arduino.Prelude.{List, [], ◌∷◌, length, ltb, Option}
use ras_pi_arduino.Prelude.Signed.{ℤ}
use ras_pi_arduino.Items
use ras_pi_arduino.Process.{
  Process, Str, begin, add_parameter, execute_until_wait, execute_after_wait, construct, running,
}

pub data Phase : Type 0 where
  fresh waiting : Phase

-- The process, the threads that it has, the newest first, and whether the sketch is between
-- pthread_create and the store of its answer.
pub record Shell : Type 0 where
  pub process : Process
  pub threads : List Phase
  pub storing : Bool

-- A step. In calm steps no `begin` is called while the process runs, and a thread does nothing
-- before the store.
pub data Step (fuel : ℕ) (calm : Bool) : Shell → Shell → Type 0 where
  begins :
      {s : Shell} {p : Process} (cmd : Str) (killed : Option ℤ)
      → s.storing ≡ false
      → (calm ≡ true → s.process.thread_running ≡ false)
      → begin fuel cmd s.process ≡ some (killed, p)
      → Step fuel calm s (record s { process = p })
  adds :
      {s : Shell} {p : Process} (param : Str)
      → s.storing ≡ false
      → add_parameter fuel param s.process ≡ some p
      → Step fuel calm s (record s { process = p })
  creates :
      {s : Shell}
      → s.storing ≡ false
      → s.process.thread_running ≡ false
      → Step fuel calm s (record s { threads = fresh ∷ s.threads; storing = true })
  stores :
      {s : Shell}
      → s.storing ≡ true
      → Step fuel calm s
          (record s { process = record s.process { thread_running = true }; storing = false })
  waits :
      {s : Shell} {p : Process} {ts : List Phase} (pid : ℤ) (args : List Str)
      → (calm ≡ true → s.storing ≡ false)
      → s.threads ≡ fresh ∷ ts
      → execute_until_wait fuel pid s.process ≡ some (some args, p)
      → Step fuel calm s (record s { process = p; threads = waiting ∷ ts })
  fails :
      {s : Shell} {p : Process} {ts : List Phase} (pid : ℤ)
      → (calm ≡ true → s.storing ≡ false)
      → s.threads ≡ fresh ∷ ts
      → execute_until_wait fuel pid s.process ≡ some (none, p)
      → Step fuel calm s (record s { process = p; threads = ts })
  ends :
      {s : Shell} {ts : List Phase} (status : ℕ)
      → (calm ≡ true → s.storing ≡ false)
      → s.threads ≡ waiting ∷ ts
      → Step fuel calm s (record s { process = execute_after_wait status s.process; threads = ts })

pub data Reach (fuel : ℕ) (calm : Bool) : Shell → Type 0 where
  new :
      (heap : Items.Heap Str)
      → Reach fuel calm (record { process = construct heap; threads = []; storing = false })
  next : {s s' : Shell} → Reach fuel calm s → Step fuel calm s s' → Reach fuel calm s'

-- There is one thread at most, and `running` tells whether there is one.
pub record Told (s : Shell) : Type 0 where
  pub single : length s.threads ≤ 1
  pub told : s.storing ≡ false → running s.process ≡ ltb 0 (length s.threads)
  pub fresh_one : s.storing ≡ true → s.threads ≡ fresh ∷ []

idle-begin :
    (fuel : ℕ) (cmd : Str) (p p' : Process) (killed : Option ℤ)
    → begin fuel cmd p ≡ some (killed, p')
    → p'.thread_running ≡ false
unfolding begin
idle-begin fuel cmd p p' killed h = ground arith

running-add_parameter :
    (fuel : ℕ) (param : Str) (p p' : Process)
    → add_parameter fuel param p ≡ some p'
    → p'.thread_running ≡ p.thread_running
unfolding add_parameter
running-add_parameter fuel param p p' h = ground arith

running-waits :
    (fuel : ℕ) (pid : ℤ) (p p' : Process) (args : List Str)
    → execute_until_wait fuel pid p ≡ some (some args, p')
    → p'.thread_running ≡ true
unfolding execute_until_wait
running-waits fuel pid p p' args h = ground arith

running-fails :
    (fuel : ℕ) (pid : ℤ) (p p' : Process)
    → execute_until_wait fuel pid p ≡ some (none, p')
    → p'.thread_running ≡ false
unfolding execute_until_wait
running-fails fuel pid p p' h = ground arith

Step-Told : {fuel : ℕ} {s s' : Shell} → Told s → Step fuel true s s' → Told s'
unfolding running execute_after_wait
Step-Told {fuel} {s} t (begins {p = p} cmd killed here calm h) =
    ground (arith, t.told, calm, idle-begin fuel cmd s.process p killed h)
Step-Told {fuel} {s} t (adds {p = p} param here h) =
    ground (arith, t.told, running-add_parameter fuel param s.process p h)
Step-Told {fuel} {s} t (creates here idle) = ground (arith, t.told)
Step-Told {fuel} {s} t (stores here) = ground (arith, t.told, t.fresh_one)
Step-Told {fuel} {s} t (waits {p = p} pid args calm first h) =
    ground (arith, t.told, calm, running-waits fuel pid s.process p args h)
Step-Told {fuel} {s} t (fails {p = p} pid calm first h) =
    ground (arith, t.told, calm, running-fails fuel pid s.process p h)
Step-Told {fuel} {s} t (ends status calm first) = ground (arith, t.told, calm)

-- Whatever calm steps the sketch and the threads take, there is never more than one thread, and
-- but for the moment before the store running tells whether there is one.
pub Reach-Told : {fuel : ℕ} {s : Shell} → Reach fuel true s → Told s
unfolding construct running
Reach-Told (new heap) = ground arith
Reach-Told (next r step) = Step-Told (Reach-Told r) step

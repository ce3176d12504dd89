-- ===== src/Process.antt =====
-- libraries/Bridge/src/Process.cpp and Process.h: a command with its parameters, in the linked list
-- of Items.antt, which a thread runs in a child of the program. `fuel` is for the loops of the list.
-- What pthread_create, fork and waitpid answer is an argument. The members `thread` and `pipes` are
-- left out, with the calls that only set them; a pipe is the list of the bytes in it.
pub mod Run
pub mod Polls
pub mod Returns
pub mod Threads
pub mod Child
mod Tests
use ras_pi_arduino.Prelude.{
  ℕ, zero, suc, ◌+◌, ◌/◌, ◌%◌, Bool, true, false, not, ◌&&◌, Option, none, some, min,
}
use ras_pi_arduino.Prelude.{List, [], ◌∷◌, length, take, drop, ◌==◌, if◌then◌else◌, ◌>>=◌, ltb}
use ras_pi_arduino.Prelude.Signed.{ℤ, pos, negsuc, minus_one, is_minus_one, to_word}
use ras_pi_arduino.Items.{Items}
use ras_pi_arduino.Items

abbrev pub Str : Type 0
Str = List ℕ

pub record Process : Type 0 where
  pub success : Bool
  pub executed : Bool
  pub cmd_array : Items Str
  pub exec_pid : ℤ
  pub exec_result : ℤ
  pub thread_running : Bool

-- The constructor, with the heap in which the list is to be.
unfoldable pub construct : Items.Heap Str → Process
construct heap = record {
  success = false;
  executed = false;
  cmd_array = record { first = 0; heap = heap };
  exec_pid = minus_one;
  exec_result = pos 0;
  thread_running = false;
}

-- `close`: the process that it kills.
unfoldable pub close : Process → Option ℤ
close p = if p.thread_running then some p.exec_pid else none

-- The destructor: the process that it kills, and the list; that it closes the pipes is left out.
unfoldable pub destroy : ℕ → Process → Option (Option ℤ × Items Str)
destroy fuel p = do array ← Items.free fuel p.cmd_array; some (close p, array)

-- `begin`, with the process that it kills.
unfoldable pub begin : ℕ → Str → Process → Option (Option ℤ × Process)
begin fuel cmd p = do
  emptied ← Items.free fuel p.cmd_array
  array ← Items.add fuel cmd emptied
  some (
    close p,
    record {
      success = false;
      executed = false;
      cmd_array = array;
      exec_pid = minus_one;
      exec_result = pos 0;
      thread_running = false;
    },
  )

unfoldable pub add_parameter : ℕ → Str → Process → Option Process
add_parameter fuel param p = elim p.thread_running [
  | true ↦ some p
  | false ↦ do
    n ← Items.length_of fuel p.cmd_array
    elim (n == 0) [
      | true ↦ some p
      | false ↦ do array ← Items.add fuel param p.cmd_array; some (record p { cmd_array = array })
    ]
]

-- The loop of `execute` that copies the strings from place `i` on; `n` are left.
unfoldable pub copy_arguments : ℕ → ℕ → ℕ → Items Str → Option (List Str)
copy_arguments fuel i zero array = some []
copy_arguments fuel i (suc n) array = do
  arg ← Items.get [] fuel i array
  args ← copy_arguments fuel (i + 1) n array
  some (arg ∷ args)

-- `execute` in the program, up to the wait for the child: the arguments that the child gets, if
-- there is a child. `pid` is what fork answers.
unfoldable pub execute_until_wait : ℕ → ℤ → Process → Option (Option (List Str) × Process)
execute_until_wait fuel pid p = do
  arlen ← Items.length_of fuel p.cmd_array
  elim (arlen == 0) [
    | true ↦ some (none, record p { exec_result = negsuc 1; thread_running = false })
    | false ↦ do
      cmd ← copy_arguments fuel 0 arlen p.cmd_array
      elim (is_minus_one pid) [
        | true ↦ some (
          none,
          record p {
            success = false;
            executed = true;
            exec_pid = pid;
            exec_result = negsuc 2;
            thread_running = false;
          },
        )
        | false ↦ some (
          some cmd,
          record p { success = false; executed = true; exec_pid = pid; thread_running = true },
        )
      ]
  ]

-- `WEXITSTATUS`.
abbrev pub exit_status : ℕ → ℕ
exit_status status = status / 256 % 256

-- `execute` from the answer of waitpid on.
unfoldable pub execute_after_wait : ℕ → Process → Process
execute_after_wait status p = record p {
  exec_result = pos (exit_status status);
  success = exit_status status == 0;
  thread_running = false;
}

-- What a thread of the process does between two moments at which the sketch looks at the process:
-- `execute` up to the wait for the child, or up to `thread_running = false` where there is none, for
-- what fork answers; the store of -3 after it, if fork fails; and the rest, for the answer of
-- waitpid.
pub data Turn : Type 0 where
  forks : ℤ → Turn
  gives_up : Turn
  reaps : ℕ → Turn

unfoldable pub take_turn : ℕ → Turn → Process → Option Process
take_turn fuel (forks pid) p = do
  arlen ← Items.length_of fuel p.cmd_array
  (cmd, p') ← execute_until_wait fuel pid p
  some (
      if not (arlen == 0) && is_minus_one pid
      then record p' { exec_result = p.exec_result }
      else p')
take_turn fuel gives_up p = some (record p { exec_result = negsuc 2 })
take_turn fuel (reaps status) p = some (execute_after_wait status p)

unfoldable pub take_turns : ℕ → List Turn → Process → Option Process
take_turns fuel [] p = some p
take_turns fuel (t ∷ ts) p = do p' ← take_turn fuel t p; take_turns fuel ts p'

-- `runAsynchronously`, and whether there is a new thread. `created` is whether pthread_create
-- makes one.
unfoldable pub run_asynchronously : Bool → Process → Bool × Process
run_asynchronously created p =
    if p.thread_running
    then (false, record p { exec_result = negsuc 3 })
    else if created
    then (true, record p { thread_running = true })
    else (false, record p { thread_running = false; exec_result = negsuc 4 })

unfoldable pub running : Process → Bool
running p = p.thread_running

-- `exitValue`: the int as a word.
unfoldable pub exit_value : Process → ℕ
exit_value p = to_word 32 p.exec_result

-- `runAsynchronously` with what the new thread does `early`: before the answer of pthread_create is
-- stored.
unfoldable pub start_thread : ℕ → Bool → List Turn → Process → Option Process
start_thread fuel created early p = elim (not p.thread_running && created) [
  | false ↦ some (run_asynchronously created p).1
  | true ↦ do p' ← take_turns fuel early p; some (record p' { thread_running = true })
]

-- `while(running()) delay(1)`: `gaps` has, for each delay in turn, what the threads do meanwhile.
-- `none` stands for a loop that still waits after the last.
unfoldable pub poll : ℕ → List (List Turn) → Process → Option Process
poll fuel [] p = if running p then none else some p
poll fuel (gap ∷ gaps) p = elim (running p) [
  | false ↦ some p
  | true ↦ do p' ← take_turns fuel gap p; poll fuel gaps p'
]

unfoldable pub run : ℕ → Bool → List Turn → List (List Turn) → Process → Option (ℕ × Process)
run fuel created early gaps p = do
  started ← start_thread fuel created early p
  p' ← poll fuel gaps started
  some (exit_value p', p')

abbrev pub shell : Str
shell = b'/' ∷ b'b' ∷ b'i' ∷ b'n' ∷ b'/' ∷ b's' ∷ b'h' ∷ []

abbrev pub dash_c : Str
dash_c = b'-' ∷ b'c' ∷ []

-- The command that `runShellCommandAsynchronously` and `runShellCommand` run.
unfoldable pub shell_command : ℕ → Str → Process → Option (Option ℤ × Process)
shell_command fuel command p = do
  (killed, p1) ← begin fuel shell p
  p2 ← add_parameter fuel dash_c p1
  p3 ← add_parameter fuel command p2
  some (killed, p3)

unfoldable pub run_shell_command_asynchronously :
    ℕ → Bool → Str → Process → Option (Option ℤ × Bool × Process)
run_shell_command_asynchronously fuel created command p = do
  (killed, p') ← shell_command fuel command p
  let (new, p'') = run_asynchronously created p'
  some (killed, new, p'')

unfoldable pub run_shell_command :
    ℕ → Bool → List Turn → List (List Turn) → Str → Process → Option (Option ℤ × ℕ × Process)
run_shell_command fuel created early gaps command p = do
  (killed, p') ← shell_command fuel command p
  (value, p'') ← run fuel created early gaps p'
  some (killed, value, p'')

-- `available`, of the pipe `out`, and `errAvailable`, of the pipe `err`.
unfoldable pub available : List ℕ → Process → ℕ
available pipe p = if p.executed then length pipe else 0

-- `read` and `errRead`, and the pipe that they leave.
unfoldable pub read_char : List ℕ → Process → ℤ × List ℕ
read_char pipe p = elim p.executed [
  | false ↦ (minus_one, pipe)
  | true ↦ elim pipe [ [] ↦ (minus_one, []) | c ∷ rest ↦ (pos c, rest) ]
]

-- `read(buf, len)` and `errRead(buf, len)`: the count, what is copied, and the pipe that is left.
unfoldable pub read : List ℕ → ℕ → Process → ℤ × List ℕ × List ℕ
read pipe len p =
    let a = available pipe p in
    let n = if ltb a len then a else len in
    if a == 0 then (minus_one, [], pipe) else (pos n, take n pipe, drop n pipe)

-- ===== src/Process/Run.antt =====
-- The list of a command with its parameters, and the arguments that the child gets.
use ras_pi_arduino.Prelude.{ℕ, zero, suc, ◌+◌, ◌-◌, ◌<◌, ◌≡◌, refl, sym, ap, arith}
use ras_pi_arduino.Prelude.{true, false, none, some, List, [], ◌∷◌, ◌++◌, length}
use ras_pi_arduino.Prelude.{drop, get_or, ◌==◌}
use ras_pi_arduino.Prelude.{◌>>=◌}
use ras_pi_arduino.Prelude.Signed.{is_minus_one, ℤ, pos, negsuc, minus_one}
use ras_pi_arduino.Items.{Items}
use ras_pi_arduino.Items
use ras_pi_arduino.Items.Chain.{count_from-Chain, get_from-Chain}
use ras_pi_arduino.Items.Refine.{new_heap, new_heap-Holds, Holds, add-Chain, free-Chain}
use ras_pi_arduino.Process.{
  Process, Str, construct, begin, add_parameter, copy_arguments, execute_until_wait, close,
}

-- The process is not running, and has the command with its parameters `args`.
pub record Ready (p : Process) (args : List Str) : Type 0 where
  pub idle : p.thread_running ≡ false
  pub holds : Holds p.cmd_array args

pub length_of-Holds :
    (fuel : ℕ) {s : Items Str} {xs : List Str}
    → Holds s xs
    → length xs < fuel
    → Items.length_of fuel s ≡ some (length xs)
unfolding Items.length_of
length_of-Holds fuel h enough = count_from-Chain fuel h.chain enough

pub begin-Ready :
    (fuel : ℕ) (cmd : Str) (p : Process) {xs : List Str}
    → Holds p.cmd_array xs
    → length xs < fuel
    → (p' : Process) × (begin fuel cmd p ≡ some (close p, p')) × Ready p' (cmd ∷ [])
unfolding begin
begin-Ready fuel cmd p h enough =
    let (s, freed, h') = free-Chain fuel h.chain h.owns enough in
    let (s', added, h'') = add-Chain fuel cmd h'.chain h'.owns (omega arith) in
    (
      record {
        success = false;
        executed = false;
        cmd_array = s';
        exec_pid = minus_one;
        exec_result = pos 0;
        thread_running = false;
      },
      rw (begin, freed, added) refl,
      record { idle = refl; holds = h'' },
    )

pub add_parameter-Ready :
    (fuel : ℕ) (param : Str) {p : Process} {x : Str} {xs : List Str}
    → Ready p (x ∷ xs)
    → length (x ∷ xs) < fuel
    → (p' : Process) × (add_parameter fuel param p ≡ some p') × Ready p' (x ∷ (xs ++ (param ∷ [])))
unfolding add_parameter
add_parameter-Ready fuel param {p = p} {x = x} {xs = xs} r enough =
    let (s, added, h) = add-Chain fuel param r.holds.chain r.holds.owns enough in
    (
      record p { cmd_array = s },
      ground (arith, r.idle, length_of-Holds fuel r.holds enough, added),
      record { idle = r.idle; holds = h },
    )

drop_next : (i : ℕ) (xs : List Str) → i < length xs → drop i xs ≡ get_or xs i [] ∷ drop (i + 1) xs
drop_next i [] h = absurd (omega arith)
drop_next zero (x ∷ xs) h = refl
drop_next (suc i) (x ∷ xs) h =
    let e : suc i + 1 ≡ suc (i + 1) = omega arith in rw e (drop_next i xs (omega arith))

drop_none : (i : ℕ) (xs : List Str) → i ≡ length xs → drop i xs ≡ []
drop_none zero [] h = refl
drop_none zero (x ∷ xs) h = absurd (omega arith)
drop_none (suc i) [] h = refl
drop_none (suc i) (x ∷ xs) h = drop_none i xs (omega arith)

copy_arguments-Holds :
    (fuel i n : ℕ) {s : Items Str} {xs : List Str}
    → Holds s xs
    → length xs < fuel
    → i + n ≡ length xs
    → copy_arguments fuel i n s ≡ some (drop i xs)
unfolding copy_arguments Items.get
copy_arguments-Holds fuel i zero {xs = xs} h enough e =
    ap (λ t. some t) (sym (drop_none i xs (omega arith)))
copy_arguments-Holds fuel i (suc n) {xs = xs} h enough e =
    let whole : i - 0 ≡ i = omega arith in
    rw
      (
        copy_arguments,
        get_from-Chain {A = Str} [] fuel i 0 h.chain enough (omega arith),
        copy_arguments-Holds fuel (i + 1) n h enough (omega arith),
        whole,
        drop_next i xs (omega arith),
      )
      refl

-- The child gets the command and the parameters, in order.
pub execute_until_wait-Ready :
    (fuel : ℕ) (pid : ℤ) (p : Process) {x : Str} {xs : List Str}
    → Holds p.cmd_array (x ∷ xs)
    → length (x ∷ xs) < fuel
    → is_minus_one pid ≡ false
    → execute_until_wait fuel pid p
      ≡ some (
        some (x ∷ xs),
        record p { success = false; executed = true; exec_pid = pid; thread_running = true },
      )
unfolding execute_until_wait
execute_until_wait-Ready fuel pid p {x = x} {xs = xs} h enough ok =
    let some_command : (suc (length xs) == 0) ≡ false = ground arith in
    rw
      (
        execute_until_wait,
        length_of-Holds fuel h enough,
        ◌>>=◌,
        some_command,
        copy_arguments-Holds fuel 0 (suc (length xs)) h enough (omega arith),
        ok,
      )
      refl

-- Where fork fails there is no child.
pub execute_until_wait-failed :
    (fuel : ℕ) (p : Process) {x : Str} {xs : List Str}
    → Holds p.cmd_array (x ∷ xs)
    → length (x ∷ xs) < fuel
    → execute_until_wait fuel minus_one p
      ≡ some (
        none,
        record p {
          success = false;
          executed = true;
          exec_pid = minus_one;
          exec_result = negsuc 2;
          thread_running = false;
        },
      )
unfolding execute_until_wait
execute_until_wait-failed fuel p {x = x} {xs = xs} h enough =
    let some_command : (suc (length xs) == 0) ≡ false = ground arith in
    rw
      (
        execute_until_wait,
        length_of-Holds fuel h enough,
        ◌>>=◌,
        some_command,
        copy_arguments-Holds fuel 0 (suc (length xs)) h enough (omega arith),
      )
      refl

pub construct-Holds : Holds (construct new_heap).cmd_array []
unfolding construct
construct-Holds = new_heap-Holds

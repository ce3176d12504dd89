-- ===== src/Process/Child.antt =====
-- Process::execute in the child: the descriptors that the command gets.
use ras_pi_arduino.Prelude.{ℕ, ◌<◌, ◌≡◌, ◌≢◌, arith, Bool, true, false, Option, none, some}
use ras_pi_arduino.Prelude.{◌==◌, if◌then◌else◌}

-- The ends of the pipes that the child uses.
pub data End : Type 0 where
  in_read in_write out_read out_write err_read err_write : End

-- `pipes`: the descriptor of each end.
abbrev pub Pipes : Type 0
Pipes = End → ℕ

-- What each descriptor of the child stands for.
abbrev pub Table : Type 0
Table = ℕ → Option End

unfoldable pub spclose : ℕ → Table → Table
spclose fd t = λ n. if n == fd then none else t n

-- `dup2`, which does nothing if `old` is closed.
unfoldable pub dup2 : ℕ → ℕ → Table → Table
dup2 old new t = elim (t old) [ none ↦ t | some f ↦ λ n. if n == new then some f else t n ]

-- The calls of the child before execvp.
unfoldable pub redirect : Pipes → Table → Table
redirect p t =
    let t1 = spclose 2 (spclose 1 t) in
    let t2 = dup2 (p err_write) 2 (dup2 (p out_write) 1 (dup2 (p in_read) 0 t1)) in
    spclose (p err_write) (spclose (p out_write) t2)

-- Whether the message of a failed execvp, which goes to the descriptor of `pipes.err.write`, can
-- be written.
unfoldable pub can_report : Pipes → Table → Bool
can_report p t = elim (redirect p t (p err_write)) [ none ↦ false | some e ↦ true ]

-- The six ends are open, above the standard descriptors, and differ.
pub record Opened (p : Pipes) (t : Table) : Type 0 where
  pub opened : (e : End) → t (p e) ≡ some e
  pub above : (e : End) → 2 < p e

-- What the calls make of a table.
pub record Redirected (p : Pipes) (t : Table) : Type 0 where
  pub input : redirect p t 0 ≡ some in_read
  pub output : redirect p t 1 ≡ some out_write
  pub errors : redirect p t 2 ≡ some err_write
  pub unreported : can_report p t ≡ false
  pub others : (n : ℕ) → 2 < n → n ≢ p out_write → n ≢ p err_write → redirect p t n ≡ t n

module _ (p : Pipes) (t : Table) (o : Opened p t) where
  abbrev closed : Table
  closed = spclose 2 (spclose 1 t)

  -- The three copies, one at a time.
  copies :
      (n : ℕ)
      → redirect p t n ≡ (
          if n == p err_write
          then none
          else if n == p out_write
          then none
          else if n == 2
          then some err_write
          else if n == 1
          then some out_write
          else if n == 0
          then some in_read
          else closed n)
  unfolding redirect spclose dup2
  copies n = ground (
    arith,
    o.opened in_read,
    o.opened out_write,
    o.opened err_write,
    o.above in_read,
    o.above out_write,
    o.above err_write,
  )

  -- The standard descriptors of the command are its ends of the three pipes, and the other
  -- descriptors stay, but for the two ends that are closed: the message that execvp failed goes to
  -- one of these and is lost. The ends that the child uses are open and above 2 before.
  pub redirect-Redirected : Redirected p t
  unfolding can_report spclose
  redirect-Redirected = record {
    input = ground (arith, copies 0, o.above out_write, o.above err_write);
    output = ground (arith, copies 1, o.above out_write, o.above err_write);
    errors = ground (arith, copies 2, o.above out_write, o.above err_write);
    unreported = ground (arith, copies (p err_write));
    others = λ n above ne ne'. ground (arith, copies n);
  }

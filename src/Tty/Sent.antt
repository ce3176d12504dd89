-- ===== src/Tty/Sent.antt =====
-- What reaches the terminal.
use ras_pi_arduino.Prelude.{ℕ, suc, ◌+◌, ◌≡◌, refl, arith, Bool, true, false}
use ras_pi_arduino.Prelude.{List, [], ◌∷◌, if◌then◌else◌}
use ras_pi_arduino.Prelude.Signed.{ℤ, pos}
use ras_pi_arduino.Tty.{Tty, Call, puts, closes, is_positive, write, write_all, end}

-- The characters before the first that the terminal refuses, and whether there is such a one.
abbrev pub accepted : List (ℕ × Bool) → ℕ
accepted [] = 0
accepted ((c, put) ∷ rest) = if put then suc (accepted rest) else 0

abbrev pub all_accepted : List (ℕ × Bool) → Bool
all_accepted [] = true
all_accepted ((c, put) ∷ rest) = if put then all_accepted rest else false

-- The calls: one for each of these characters, then the one that fails and the close.
abbrev pub calls_for : ℤ → List (ℕ × Bool) → List Call
calls_for fd [] = []
calls_for fd ((c, put) ∷ rest) =
    if put then puts fd c true ∷ calls_for fd rest else puts fd c false ∷ closes fd ∷ []

write_all-closed :
    (cs : List (ℕ × Bool)) → write_all cs (record { fd = pos 0 }) ≡ (0, [], record { fd = pos 0 })
unfolding write_all write
write_all-closed [] = refl
write_all-closed ((c, put) ∷ cs) = rw (write_all, write_all-closed cs) refl

-- write of an array to an open terminal puts its characters in order up to the first that the
-- terminal refuses, and returns how many it has put. Then the terminal is closed and no more is
-- tried; if none is refused, then it stays open.
pub write_all-accepted :
    (cs : List (ℕ × Bool)) (t : Tty)
    → is_positive t.fd ≡ true
    → write_all cs t
      ≡ (accepted cs, calls_for t.fd cs, if all_accepted cs then t else record { fd = pos 0 })
unfolding write_all write end
write_all-accepted [] t h = refl
write_all-accepted ((c, true) ∷ cs) t h =
    let one : write true c t ≡ (1, puts t.fd c true ∷ [], t) = rw (write, h) refl in
    let sum : 1 + accepted cs ≡ suc (accepted cs) = omega arith in
    rw (write_all, one, write_all-accepted cs t h, sum) refl
write_all-accepted ((c, false) ∷ cs) t h =
    let failed : write false c t
        ≡ (0, puts t.fd c false ∷ closes t.fd ∷ [], record { fd = pos 0 }) =
      rw (write, end, h) refl in
    rw (write_all, failed, write_all-closed cs) refl

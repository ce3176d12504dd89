-- ===== src/Tty.antt =====
-- libraries/TTY/TTY.cpp and TTY.h: characters put into the input of a terminal. What open and ioctl
-- answer is an argument; the other calls of the system are listed.
pub mod Sent
use ras_pi_arduino.Prelude.{
  ℕ, zero, suc, ◌+◌, Bool, true, false, List, [], ◌∷◌, ◌++◌, ltb, if◌then◌else◌,
}
use ras_pi_arduino.Prelude.Signed.{ℤ, pos, negsuc}
use ras_pi_arduino.Prelude.Bits.{u8}
use ras_pi_arduino.Print.{print_unsigned}

pub record Tty : Type 0 where
  pub fd : ℤ

pub data Call : Type 0 where
  -- TIOCSTI, and whether it succeeds.
  puts : ℤ → ℕ → Bool → Call
  closes : ℤ → Call

abbrev pub is_positive : ℤ → Bool
is_positive (pos n) = ltb 0 n
is_positive (negsuc n) = false

-- The constructor, for what open answers.
unfoldable pub construct : ℤ → Tty
construct opened = record { fd = opened }

-- `operator bool`.
unfoldable pub is_open : Tty → Bool
is_open t = is_positive t.fd

unfoldable pub end : Tty → List Call × Tty
end t = (if is_positive t.fd then closes t.fd ∷ [] else [], record { fd = pos 0 })

-- `write(c)`, where `put` is whether the ioctl of `_put_c` succeeds.
unfoldable pub write : Bool → ℕ → Tty → ℕ × List Call × Tty
write put c t =
    if is_positive t.fd
    then if put
      then (1, puts t.fd c true ∷ [], t)
      else (let (calls, t') = end t in (0, puts t.fd c false ∷ calls, t'))
    else (0, [], t)

-- `write(buffer, size)` of the class Print, with the answers for the characters.
unfoldable pub write_all : List (ℕ × Bool) → Tty → ℕ × List Call × Tty
write_all [] t = (0, [], t)
write_all ((c, put) ∷ rest) t =
    let (n, calls, t') = write put c t in
    let (m, more, t'') = write_all rest t' in (n + m, calls ++ more, t'')

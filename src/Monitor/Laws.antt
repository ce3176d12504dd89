-- ===== src/Monitor/Laws.antt =====
-- What is left in the buffers after a read.
use ras_pi_arduino.Prelude.{
  ℕ, zero, suc, ◌+◌, ◌-◌, ◌<◌, ◌≤◌, ◌≡◌, ◌≢◌, refl, sym, ap, ◌∙◌, arith, false,
}
use ras_pi_arduino.Prelude.{
  Option, List, length, take, set, get_or, get_or-set_self, get_or-set_ne, length-set, ltb, ◌==◌,
  Bool-cases, inl, inr, ◌⊎◌, ==→eq,
}
use ras_pi_arduino.Monitor

module _ (beyond : ℕ) where
  abbrev at : List ℕ → ℕ → ℕ
  at xs k = get_or xs k beyond

  moved_outside :
      (n i step : ℕ) (xs : List ℕ) (k : ℕ)
      → (k < i) ⊎ (i + n ≤ k)
      → at (Monitor.move_down beyond n i step xs) k ≡ at xs k
  unfolding Monitor.move_down
  moved_outside zero i step xs k o = refl
  moved_outside (suc n) i step xs k o =
      moved_outside n (suc i) step (set xs i (at xs (i + step))) k (ground (arith, o))
      ∙ get_or-set_ne xs i k (at xs (i + step)) beyond λ e. absurd (ground (arith, o, e))

  moved_inside :
      (n i step : ℕ) (xs : List ℕ) (k : ℕ)
      → 0 < step
      → i ≤ k
      → k < i + n
      → i + n ≤ length xs
      → at (Monitor.move_down beyond n i step xs) k ≡ at xs (k + step)
  unfolding Monitor.move_down
  moved_inside zero i step xs k s lo hi room = absurd (omega arith)
  moved_inside (suc n) i step xs k s lo hi room = elim (Bool-cases (k == i)) [
    | inl e ↦
        let q = ==→eq k i e in
        moved_outside n (suc i) step (set xs i (at xs (i + step))) k (inl (omega arith))
        ∙ ap (at (set xs i (at xs (i + step)))) q
        ∙ get_or-set_self xs i (at xs (i + step)) beyond (omega arith)
        ∙ ap (λ j. at xs (j + step)) (sym q)
    | inr e ↦
        let apart : k ≢ i = ground (arith, e) in
        moved_inside n (suc i) step (set xs i (at xs (i + step))) k s (omega arith) (omega arith)
          (omega (arith, length-set xs i (at xs (i + step))))
        ∙ get_or-set_ne xs i (k + step) (at xs (i + step)) beyond (λ q. absurd (omega arith))
  ]

  -- A valid buffer.
  abbrev pub IsValid : Monitor.Monitor → Type 0
  IsValid m = (length m.rx ≡ 1024) × (m.fill ≤ 1024)

  -- What a read of one byte leaves: the bytes behind it, each one place further down.
  pub record Popped (m : Monitor.Monitor) (r : Option ℕ × Monitor.Monitor) : Type 0 where
    pub first : r.0 ≡ Monitor.peek beyond m
    pub count : r.1.fill ≡ m.fill - 1
    pub rest : (k : ℕ) → k < m.fill - 1 → get_or r.1.rx k beyond ≡ get_or m.rx (k + 1) beyond

  -- `idemonitor_read_char` takes the byte that `idemonitor_peek` shows, and leaves the ones behind
  -- it in order.
  pub read_char-Popped : (m : Monitor.Monitor) → IsValid m → Popped m (Monitor.read_char beyond m)
  unfolding Monitor.read_char Monitor.peek
  read_char-Popped m v = elim (Bool-cases (m.fill == 0)) [
    | inl e ↦
        let empty = ==→eq m.fill 0 e in
        record { first = rw e refl; count = rw e (omega arith); rest = λ k h. absurd (omega arith) }
    | inr e ↦ record {
      first = rw e refl;
      count = rw e refl;
      rest = λ k h. rw e (
          moved_inside (m.fill - 1) 0 1 m.rx k (omega arith) (omega arith) (omega arith)
            (omega (arith, v.0, v.1)));
    }
  ]

  -- What a read of `n` of more bytes leaves.
  pub record Moved (n : ℕ) (m : Monitor.Monitor) (r : List ℕ × Monitor.Monitor) : Type 0 where
    pub bytes : r.0 ≡ take n m.rx
    pub count : r.1.fill ≡ m.fill - n
    pub moved : (k : ℕ) → k < n → get_or r.1.rx k beyond ≡ get_or m.rx (k + n) beyond
    pub not_moved : (k : ℕ) → n ≤ k → get_or r.1.rx k beyond ≡ get_or m.rx k beyond

  -- `idemonitor_read` of `n` bytes, where as many are there, returns the first ones, but moves only
  -- the next `n` down: a byte that is further behind stays where it is.
  pub read-Moved :
      (n : ℕ) (m : Monitor.Monitor) → IsValid m → n ≤ m.fill → Moved n m (Monitor.read beyond n m)
  unfolding Monitor.read
  read-Moved n m v h =
      let enough : ltb m.fill n ≡ false = ground arith in
      record {
        bytes = rw enough refl;
        count = rw enough refl;
        moved = λ k lt. rw enough (
            moved_inside n 0 n m.rx k (omega arith) (omega arith) (omega arith)
              (omega (arith, v.0, v.1)));
        not_moved = λ k le. rw enough (moved_outside n 0 n m.rx k (inr (omega arith)));
      }

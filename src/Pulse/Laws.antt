-- ===== src/Pulse/Laws.antt =====
-- What `pulseIn` measures, and how long `_halt` waits.
use ras_pi_arduino.Prelude.{
  ℕ, ◌+◌, ◌-◌, ◌^◌, ◌≤◌, ◌<◌, ◌≡◌, refl, ap, arith, Bool, true, false, not,
}
use ras_pi_arduino.Prelude.{
  some, List, [], ◌∷◌, ◌++◌, All, map, ltb, ◌==◌, if◌then◌else◌, Bool-cases, inl, inr,
}
use ras_pi_arduino.Prelude.Bits.{u32}
use ras_pi_arduino.Pulse.{
  Sample, since, is_at, wait_while, measure, pulse_loops, halt_from, halt, delay_microseconds,
  polled, slept,
}

-- A sample that passes the test, before the timeout.
abbrev pub Passes : (Sample → Bool) → ℕ → ℕ → Sample → Type 0
Passes test timeout start s = (test s ≡ true) × (since start s < timeout)

wait_while-All :
    (test : Sample → Bool) (timeout start : ℕ) (ss : List Sample) (s : Sample) (rest : List Sample)
    → All (Passes test timeout start) ss
    → test s ≡ false
    → wait_while test timeout start (ss ++ (s ∷ rest)) ≡ some rest
unfolding wait_while
wait_while-All test timeout start [] s rest all stops = rw stops refl
wait_while-All test timeout start (t ∷ ss) s rest all stops =
    ground (arith, all.0, wait_while-All test timeout start ss s rest all.1 stops)

-- `pulseIn` measures the pulse: the pin may be at the state at first, leaves it, comes to it again,
-- and leaves it at the end, each before the timeout of its loop; the result is the time from the
-- read behind the one that found the pulse to the read behind the one that found its end.
pub pulse_loops-Pulse :
    (pin state timeout : ℕ) (s : Sample) (before : List Sample) (low : Sample) (lows : List Sample)
    (high start : Sample) (highs : List Sample) (over end : Sample) (rest : List Sample)
    → All (Passes (is_at pin state) timeout s.clock) before
    → is_at pin state low ≡ false
    → All (Passes (λ t. not (is_at pin state t)) timeout s.clock) lows
    → is_at pin state high ≡ true
    → All (Passes (is_at pin state) timeout start.clock) highs
    → is_at pin state over ≡ false
    → pulse_loops pin state timeout
        (s ∷ (before ++ (low ∷ (lows ++ (high ∷ start ∷ (highs ++ (over ∷ end ∷ rest)))))))
      ≡ some (since start.clock end, rest)
unfolding pulse_loops measure
pulse_loops-Pulse pin state timeout s before low lows high start highs over end rest all_before
      is_low all_lows is_high all_highs is_over =
    rw
      (
        pulse_loops,
        wait_while-All (is_at pin state) timeout s.clock before low
            (lows ++ (high ∷ start ∷ (highs ++ (over ∷ end ∷ rest)))) all_before is_low,
        wait_while-All (λ t. not (is_at pin state t)) timeout s.clock lows high
            (start ∷ (highs ++ (over ∷ end ∷ rest))) all_lows (ap not is_high),
        measure,
        wait_while-All (is_at pin state) timeout start.clock highs over (end ∷ rest) all_highs
            is_over,
      )
      refl

halt_from-lem :
    (wraps : Bool) (compare : ℕ) (reads : List ℕ) (c : ℕ) (rest : List ℕ)
    → halt_from wraps compare reads ≡ some (c, rest)
    → (if wraps then u32 (c + 2 ^ 32 - compare) == 0 else not (ltb c compare)) ≡ true
unfolding halt_from
halt_from-lem wraps compare [] c rest done = absurd (ground (arith, done))
halt_from-lem wraps compare (d ∷ reads) c rest done =
    ground (arith, done, halt_from-lem wraps compare reads c rest)

-- `_halt` never returns before its time: if it returns, then the counter has gone on by at least
-- the microseconds that were asked for. The counter has 32 bits.
pub halt-lem :
    (microseconds start : ℕ) (reads : List ℕ) (c : ℕ) (rest : List ℕ)
    → microseconds < 2 ^ 32
    → start < 2 ^ 32
    → c < 2 ^ 32
    → halt microseconds (start ∷ reads) ≡ some (c, rest)
    → microseconds ≤ u32 (c + 2 ^ 32 - start)
unfolding halt
halt-lem microseconds start reads c rest small small_start small_c done = ground (
  arith,
  halt_from-lem (ltb (u32 (start + microseconds)) start) (u32 (start + microseconds)) reads c rest
      done,
)

-- Each read falls in the same microsecond as the one before it or in the next.
abbrev pub Follow : ℕ → List ℕ → Type 0
Follow k [] = Unit
Follow k (t ∷ ts) = (k ≤ t) × (t ≤ k + 1) × Follow t ts

abbrev pub last_of : ℕ → List ℕ → ℕ
last_of k [] = k
last_of k (t ∷ ts) = last_of t ts

-- The counter, `t` microseconds after `start`.
abbrev pub counter : ℕ → ℕ → ℕ
counter start t = u32 (start + t)

halt_from-returns :
    (m start k : ℕ) (ts : List ℕ)
    → start < 2 ^ 32
    → m < 2 ^ 32
    → k < m
    → Follow k ts
    → m ≤ last_of k ts
    → (rest : List ℕ) × (halt_from
          (ltb (counter start m) start)
          (counter start m)
          (map (counter start) ts)
        ≡ some (counter start m, rest))
unfolding halt_from
halt_from-returns m start k [] small_start small before follow reached =
    absurd (omega (arith, before, reached))
halt_from-returns m start k (t ∷ ts) small_start small before follow reached =
    elim (Bool-cases (ltb t m)) [
      | inl early ↦
          let (rest, same) =
            halt_from-returns m start t ts small_start small (ground (arith, early)) follow.2
              reached in
          (rest, ground (arith, same, early, follow.0, follow.1))
      | inr late ↦
          let now : t ≡ m = ground (arith, late, follow.0, follow.1) in
          (map (counter start) ts, ground (arith, now))
    ]

-- delayMicroseconds of 1 to 999 microseconds waits for exactly these, if the counter is read in
-- every microsecond up to then, also where it goes over; a longer wait is left to usleep.
pub delay_microseconds-waits :
    (m start : ℕ) (ts : List ℕ)
    → start < 2 ^ 32
    → 0 < m
    → m < 2 ^ 32
    → Follow 0 ts
    → m ≤ last_of 0 ts
    → (rest : List ℕ) × (delay_microseconds m (start ∷ map (counter start) ts)
        ≡ some (if ltb m 1000 then polled (counter start m) else slept m, rest))
unfolding delay_microseconds halt
delay_microseconds-waits m start ts small_start positive small follow reached =
    elim (Bool-cases (ltb m 1000)) [
      | inl polls ↦
          let (rest, same) =
            halt_from-returns m start 0 ts small_start small positive follow reached in
          (rest, rw (delay_microseconds, polls, halt, same) refl)
      | inr sleeps ↦ (start ∷ map (counter start) ts, rw (delay_microseconds, sleeps) refl)
    ]

-- ===== src/I2c/Receive.antt =====
-- What a read of the serial controllers takes out of the FIFO, and that it ends.
use ras_pi_arduino.Prelude.{ℕ, zero, suc, ◌+◌, ◌^◌, ◌≤◌, ◌<◌, ◌≡◌, ◌≢◌, refl, sym, ap, ◌∙◌, arith}
use ras_pi_arduino.Prelude.{Bool, true, false, not, some, List, [], ◌∷◌, ◌++◌}
use ras_pi_arduino.Prelude.{length, drop, ◌==◌, inl, inr, Option-cases, ◌⊎◌, unless_zero}
use ras_pi_arduino.Machine.{Machine}
use ras_pi_arduino.I2c

-- The bytes that the FIFO gives from read `i` on.
abbrev pub incoming : (ℕ → ℕ) → ℕ → ℕ → List ℕ
incoming fifo i zero = []
incoming fifo i (suc n) = fifo i ∷ incoming fifo (suc i) n

fill_buffer_lem :
    (fifo : ℕ → ℕ) (i n : ℕ) (buf buf' : List ℕ)
    → I2c.fill_buffer fifo i n buf ≡ some buf'
    → (n ≤ length buf) × (buf' ≡ incoming fifo i n ++ drop n buf)
unfolding I2c.fill_buffer
fill_buffer_lem fifo i zero buf buf' e = ground arith
fill_buffer_lem fifo i (suc n) [] buf' e = ground arith
fill_buffer_lem fifo i (suc n) (x ∷ buf) buf' e =
    elim (Option-cases (I2c.fill_buffer fifo (suc i) n buf)) [
      | inl o ↦ absurd (ground (arith, o))
      | inr (r, o) ↦
          let p = fill_buffer_lem fifo (suc i) n buf r o in
          let q : fifo i ∷ r ≡ buf' = ground (arith, o, e) in
          (omega (arith, p.0), sym q ∙ ap (λ t. fifo i ∷ t) p.1)
    ]

reason_zero : (b : Bool) (ss : List ℕ) → I2c.reason b ss ≡ some 0 → b ≡ false
unfolding I2c.reason
reason_zero false ss e = refl
reason_zero true [] e = ground arith
reason_zero true (s ∷ []) e = ground arith
reason_zero true (s ∷ s' ∷ ss) e = ground arith

none_left : (len n : ℕ) → len < 2 ^ 32 → n < 2 ^ 32 → not (I2c.left len n == 0) ≡ false → n ≡ len
none_left len n hl hn e = ground arith

-- The buffer after a read: `count` bytes from the FIFO at its start, and the rest as it was.
pub record Filled (fifo : ℕ → ℕ) (len : ℕ) (buf buf' : List ℕ) (r : ℕ) : Type 0 where
  pub count : ℕ
  pub fits : count ≤ length buf
  pub contents : buf' ≡ incoming fifo 0 count ++ drop count buf
  pub complete : (r ≢ 0) ⊎ (count ≡ len)

-- `twi_readFrom` and `ids_read` leave the bytes that the FIFO gave, in order, at the start of the
-- buffer, and the rest of the buffer as it was. They return 0 only if those are as many as were
-- asked for. The buffer and the length are below 2 ^ 32; a store beyond the buffer is no result.
pub read_from-Filled :
    (c : I2c.Controller) (address : ℕ) (buf : List ℕ) (len : ℕ) (fifo : ℕ → ℕ) (statuses : List ℕ)
    (m : Machine) (r : ℕ) (buf' : List ℕ) (m' : Machine)
    → len < 2 ^ 32
    → length buf < 2 ^ 32
    → I2c.read_from c address buf len fifo statuses m ≡ some (r, buf', m')
    → Filled fifo len buf buf' r
unfolding I2c.read_from
read_from-Filled c address buf len fifo statuses m r buf' m' hl hb e =
    elim (Option-cases (I2c.receive false statuses)) [
      | inl o ↦ absurd (ground (arith, o))
      | inr ((first, ss), o) ↦ elim (Option-cases (I2c.drain (I2c.left len first) ss)) [
        | inl o' ↦ absurd (ground (arith, o, o'))
        | inr ((second, end), o') ↦
            let more = not (I2c.left len (first + second) == 0) in
            elim (Option-cases (I2c.reason more end)) [
              | inl o'' ↦ absurd (ground (arith, o, o', o''))
              | inr (r', o'') ↦ elim (Option-cases (I2c.fill_buffer fifo 0 (first + second) buf)) [
                | inl f ↦ absurd (ground (arith, o, o', o'', f))
                | inr (b, f) ↦
                    let last : (r' ≡ r) × (b ≡ buf') = ground (arith, o, o', o'', f, e) in
                    let p = fill_buffer_lem fifo 0 (first + second) buf b f in
                    record {
                      count = first + second;
                      fits = p.0;
                      contents = sym last.1 ∙ p.1;
                      complete = unless_zero r λ z.
                          none_left len (first + second) hl (omega (arith, p.0))
                            (reason_zero more end (o'' ∙ ap some (last.0 ∙ z)));
                    }
              ]
            ]
      ]
    ]

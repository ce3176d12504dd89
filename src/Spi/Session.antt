-- ===== src/Spi/Session.antt =====
-- What a chip on the bus gets in a transaction.
use ras_pi_arduino.Prelude.{ℕ, ◌+◌, ◌/◌, ◌≡◌, ◌≢◌, refl, sym, ap, ◌∙◌, arith}
use ras_pi_arduino.Prelude.{Bool, true, false, not, ◌||◌, some, Option, List, [], ◌∷◌, ◌++◌}
use ras_pi_arduino.Prelude.{map, All, ◌==◌, ◌>>=◌, Bool-cases, inl, inr, bit_and, bit_or}
use ras_pi_arduino.Prelude.{append_assoc, append-nil}
use ras_pi_arduino.Prelude.Bits.{u8, complement, test_bit}
use ras_pi_arduino.Machine.{Machine, stored, store, mem-store_self, mem-store_ne}
use ras_pi_arduino.Spi.{
  spi0cs, spi0fifo, spi0clk, clock_divider, set_data_mode, set_clock, set_clock_divider, await_byte,
  transfer, begin_transaction,
}
use ras_pi_arduino.Spi.Chip.{
  Chip, hear, heard, heard-store, hear-byte, active_word, idle_word, active_bit, active_phase,
  active_polarity, idle_phase, idle_polarity, Asks, mode_bits, taken-store,
}

-- A call of transfer: what it polls, what comes in, and what it sends.
pub record Exchange : Type 0 where
  pub polls : List ℕ
  pub incoming : ℕ
  pub value : ℕ

-- Whether the FIFO has a byte at one of the polls.
abbrev pub answered : List ℕ → Bool
answered [] = false
answered (s ∷ ss) = not (bit_and s 0x20000 == 0) || answered ss

unfoldable pub exchange_all : List Exchange → Machine → Option (List ℕ × Machine)
exchange_all [] m = some ([], m)
exchange_all (x ∷ xs) m = do
  (b, m') ← transfer x.polls x.incoming x.value m
  (bs, m'') ← exchange_all xs m'
  some (b ∷ bs, m'')

-- beginTransaction, and calls of transfer.
unfoldable pub session : ℕ → ℕ → List Exchange → Machine → Option (List ℕ × Machine)
session freq mode xs m = do m' ← begin_transaction freq mode m; exchange_all xs m'

await_byte-answered :
    (ss : List ℕ) → answered ss ≡ true → (rest : List ℕ) × (await_byte ss ≡ some rest)
unfolding await_byte
await_byte-answered [] h = absurd (ground (arith, h))
await_byte-answered (s ∷ ss) h = elim (Bool-cases (bit_and s 0x20000 == 0)) [
  | inl e ↦
      let (rest, same) = await_byte-answered ss (ground (arith, e, h)) in
      (rest, ground (arith, e, same))
  | inr e ↦ (ss, ground (arith, e))
]

-- One call of transfer: the chip gets the byte.
transfer-Taken :
    (mode : ℕ) (x : Exchange) (m : Machine) (s : Chip)
    → Asks mode m
    → answered x.polls ≡ true
    → (m' : Machine) × (transfer x.polls x.incoming x.value m ≡ some (u8 x.incoming, m'))
      × Asks mode m'
      × ((heard m' s).taken
          ≡ (heard m s).taken ++ ((x.value, test_bit mode 2, test_bit mode 3) ∷ []))
unfolding transfer hear
transfer-Taken mode x m s asks h =
    let w = m.mem spi0cs in
    let active = store spi0cs (active_word w) m in
    let sent = store spi0fifo x.value active in
    let idle = store spi0cs (idle_word (sent.mem spi0cs)) sent in
    let (rest, polled) = await_byte-answered x.polls h in
    let kept : sent.mem spi0cs ≡ active_word w =
      mem-store_ne spi0fifo x.value spi0cs active (omega arith)
      ∙ mem-store_self spi0cs (active_word w) m in
    let final : idle.mem spi0cs ≡ idle_word (active_word w) =
      mem-store_self spi0cs (idle_word (sent.mem spi0cs)) sent ∙ ap idle_word kept in
    let three : heard idle s
        ≡ hear (stored spi0cs (idle_word (sent.mem spi0cs)))
            (hear (stored spi0fifo x.value) (hear (stored spi0cs (active_word w)) (heard m s))) =
      heard-store spi0cs (idle_word (sent.mem spi0cs)) sent s
      ∙ ap (hear (stored spi0cs (idle_word (sent.mem spi0cs)))) (
          heard-store spi0fifo x.value active s
          ∙ ap (hear (stored spi0fifo x.value)) (heard-store spi0cs (active_word w) m s)) in
    let phase : test_bit (active_word w) 2 ≡ test_bit mode 2 = active_phase w ∙ asks.0 in
    let polarity : test_bit (active_word w) 3 ≡ test_bit mode 3 = active_polarity w ∙ asks.1 in
    (
      idle,
      rw (transfer, polled) refl,
      (
        rw final (idle_phase (active_word w) ∙ phase),
        rw final (idle_polarity (active_word w) ∙ polarity),
      ),
      ap (λ c. c.taken) three
          ∙ hear-byte (active_word w) x.value (idle_word (sent.mem spi0cs)) (heard m s)
              (active_bit w)
          ∙ ap (λ p. (heard m s).taken ++ ((x.value, p, test_bit (active_word w) 3) ∷ [])) phase
          ∙ ap (λ p. (heard m s).taken ++ ((x.value, test_bit mode 2, p) ∷ [])) polarity,
    )

-- The bytes of the calls, with the phase and the polarity.
abbrev pub bytes_in_mode : ℕ → List Exchange → List (ℕ × ℕ × ℕ)
bytes_in_mode mode xs = map (λ x. (x.value, test_bit mode 2, test_bit mode 3)) xs

abbrev pub AreAnswered : List Exchange → Type 0
AreAnswered xs = All (λ x. answered x.polls ≡ true) xs

exchange_all-Taken :
    (mode : ℕ) (xs : List Exchange) (m : Machine) (s : Chip)
    → Asks mode m
    → AreAnswered xs
    → (m' : Machine) × (exchange_all xs m ≡ some (map (λ x. u8 x.incoming) xs, m'))
      × ((heard m' s).taken ≡ (heard m s).taken ++ bytes_in_mode mode xs)
unfolding exchange_all
exchange_all-Taken mode [] m s asks all = (m, refl, sym (append-nil _))
exchange_all-Taken mode (x ∷ xs) m s asks all =
    let (m', once, asks', got) = transfer-Taken mode x m s asks all.0 in
    let (m'', more, got_more) = exchange_all-Taken mode xs m' s asks' all.1 in
    (
      m'',
      rw (exchange_all, once, more) refl,
      got_more
          ∙ ap (λ t. t ++ bytes_in_mode mode xs) got
          ∙ append_assoc (heard m s).taken ((x.value, test_bit mode 2, test_bit mode 3) ∷ [])
              (bytes_in_mode mode xs),
    )

begin_transaction-Asks :
    (freq mode : ℕ) (m : Machine) (s : Chip)
    → freq ≢ 0
    → (m' : Machine) × (begin_transaction freq mode m ≡ some m')
      × Asks mode m'
      × ((heard m' s).taken ≡ (heard m s).taken)
unfolding begin_transaction set_clock set_clock_divider set_data_mode clock_divider
begin_transaction-Asks freq mode m s h =
    let rate = store spi0clk (bit_and (250000000 / freq + 1) 0xfffe) m in
    let cleared = store spi0cs (bit_and (rate.mem spi0cs) (complement 0x0c)) rate in
    let tuned = store spi0cs (bit_or (cleared.mem spi0cs) mode) cleared in
    let word : tuned.mem spi0cs ≡ bit_or (bit_and (rate.mem spi0cs) (complement 0x0c)) mode =
      mem-store_self spi0cs (bit_or (cleared.mem spi0cs) mode) cleared
      ∙ ap (λ w. bit_or w mode)
          (mem-store_self spi0cs (bit_and (rate.mem spi0cs) (complement 0x0c)) rate) in
    let bits = mode_bits (rate.mem spi0cs) mode in
    (
      tuned,
      ground (arith, h),
      (rw word bits.0, rw word bits.1),
      taken-store spi0cs (bit_or (cleared.mem spi0cs) mode) cleared s (omega arith)
          ∙ taken-store spi0cs (bit_and (rate.mem spi0cs) (complement 0x0c)) rate s (omega arith)
          ∙ taken-store spi0clk (bit_and (250000000 / freq + 1) 0xfffe) m s (omega arith),
    )

-- In a transaction, of a clock that is not 0, each call of transfer returns the byte that comes in,
-- once the FIFO has it at one of the polls, and the chip gets the bytes of the calls, in order, each
-- once and each under the phase and the polarity of the mode.
pub session-Taken :
    (freq mode : ℕ) (xs : List Exchange) (m : Machine) (s : Chip)
    → freq ≢ 0
    → AreAnswered xs
    → (m' : Machine) × (session freq mode xs m ≡ some (map (λ x. u8 x.incoming) xs, m'))
      × ((heard m' s).taken ≡ (heard m s).taken ++ bytes_in_mode mode xs)
unfolding session
session-Taken freq mode xs m s h all =
    let (m', begun, asks, none_yet) = begin_transaction-Asks freq mode m s h in
    let (m'', answers, got) = exchange_all-Taken mode xs m' s asks all in
    (m'', rw (session, begun, answers) refl, got ∙ ap (λ t. t ++ bytes_in_mode mode xs) none_yet)

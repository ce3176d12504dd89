-- ===== src/Pwm.antt =====
-- Pulse width modulation, cores/piduino/wiring_pwm.c.
pub mod Laws
mod Tests
use ras_pi_arduino.Prelude.{
  ℕ, zero, suc, ◌+◌, ◌*◌, ◌/◌, ◌%◌, ◌^◌, Bool, true, false, ◌||◌, Option, none, some, List, [], ◌∷◌,
}
use ras_pi_arduino.Prelude.{bit_and, bit_or, ◌==◌, if◌then◌else◌}
use ras_pi_arduino.Prelude.Bits.{u16, u32, complement}
use ras_pi_arduino.Machine.{Machine, store}
use ras_pi_arduino.Gpio.{pin_mode}

-- The static variables.
pub record Pwm : Type 0 where
  pub range : ℕ
  pub wanted_freq : ℕ
  pub real_freq : ℕ
  pub has_started : Bool

unfoldable pub initial : Pwm
initial = record { range = 0xff; wanted_freq = 1; real_freq = 1; has_started = false }

-- Addresses of PWMCTL, PWMRNG1, PWMDAT1, PWMRNG2, PWMDAT2, GPPCTL and GPPDIV.
abbrev pub pwmctl : ℕ
pwmctl = 0x20c000

abbrev pwmrng1 : ℕ
pwmrng1 = 0x20c010

abbrev pub pwmdat1 : ℕ
pwmdat1 = 0x20c014

abbrev pwmrng2 : ℕ
pwmrng2 = 0x20c020

abbrev pub pwmdat2 : ℕ
pwmdat2 = 0x20c024

abbrev gppctl : ℕ
gppctl = 0x1010a0

abbrev gppdiv : ℕ
gppdiv = 0x1010a4

-- GPCPASS.
abbrev gpcpass : ℕ
gpcpass = 0x5a000000

unfoldable pub analog_write_range : ℕ → Pwm × Machine → Pwm × Machine
analog_write_range range (p, m) =
    (record p { range = range }, store pwmrng2 range (store pwmrng1 range m))

-- `while(GPPCTL & (1 << GPBUSY));` with what the register reads: has it been idle?
unfoldable pub idles : List ℕ → Bool
idles [] = false
idles (c ∷ cs) = let rest = idles cs in if bit_and c 0x80 == 0 then true else rest

unfoldable pub analog_write_div : List ℕ → ℕ → Machine → Option Machine
analog_write_div reads div m =
    let stopped = store gppctl (0x01 + gpcpass) m in
    let divided = store gppdiv (bit_or (div * 2 ^ 12) gpcpass) stopped in
    if idles reads then some (store gppctl (bit_or (bit_or 0x10 0x01) gpcpass) divided) else none

-- The divider that `analogWriteSetup` computes; a division by zero is a fault.
unfoldable pub setup_div : ℕ → ℕ → Option ℕ
setup_div frequency range =
    let product = u32 (frequency * range) in
    let div = 19200000 / product in
    if product == 0 then none else some (bit_and (div + bit_and div 1) 0xfff)

unfoldable pub analog_write_setup : List ℕ → ℕ → ℕ → Pwm × Machine → Option (ℕ × Pwm × Machine)
analog_write_setup reads frequency range (p, m) = elim (setup_div frequency range) [
  | none ↦ none
  | some div ↦
      let product = u32 (div * range) in
      let real = 19200000 / product in
      let (p', m') =
        analog_write_range range (record p { wanted_freq = frequency; real_freq = real }, m) in
      elim (analog_write_div reads div m') [
        | none ↦ none
        | some m'' ↦ if product == 0 then none else some (real, p', m'')
      ]
]

unfoldable pub analog_write_init : List ℕ → Pwm × Machine → Option (Pwm × Machine)
analog_write_init reads (p, m) =
    if p.has_started
    then some (p, m)
    else elim (analog_write_setup reads 1000 256 (record p { has_started = true }, m)) [
      | none ↦ none
      | some (real, p', m') ↦ some (record p' { wanted_freq = real }, store pwmctl 0 m')
    ]

-- The pins of the two channels, and the function that connects a pin.
unfoldable pub is_channel1 : ℕ → Bool
is_channel1 p = p == 12 || p == 18 || p == 40

unfoldable pub is_channel2 : ℕ → Bool
is_channel2 p = p == 13 || p == 19 || p == 41 || p == 45

-- GPF5 is 2, GPF0 is 4.
unfoldable pub connect : ℕ → Machine → Machine
connect p m =
    if p == 18 || p == 19
    then pin_mode p 2 m
    else if p == 12 || p == 13 || p == 40 || p == 41 || p == 45
    then pin_mode p 4 m
    else m

unfoldable pub disconnect : ℕ → Machine → Machine
disconnect p m =
    if p == 18 || p == 19
    then pin_mode p 0 m
    else if p == 12 || p == 13 || p == 40 || p == 41 || p == 45
    then pin_mode p 0 m
    else m

unfoldable pub start_channel : ℕ → ℕ → Machine → Machine
start_channel p v m =
    if is_channel1 p
    then store pwmdat1 v (store pwmctl (bit_or (m.mem pwmctl) (bit_or 0x01 0x80)) m)
    else if is_channel2 p
    then store pwmdat2 v (store pwmctl (bit_or (m.mem pwmctl) (bit_or 0x100 0x8000)) m)
    else m

unfoldable pub stop_channel : ℕ → ℕ → Machine → Machine
stop_channel p v m =
    if is_channel1 p
    then store pwmdat1 v (store pwmctl (bit_and (m.mem pwmctl) (complement (bit_or 0x01 0x80))) m)
    else if is_channel2 p
    then store pwmdat2 v
        (store pwmctl (bit_and (m.mem pwmctl) (complement (bit_or 0x100 0x8000))) m)
    else m

-- The value that is written: scaled from the wanted frequency to the real one, in 32 bits.
unfoldable pub scaled : Pwm → ℕ → Option ℕ
scaled p v =
    if p.wanted_freq == 0 || p.range == 0
    then none
    else some (u16 (u32 (v * p.real_freq) / p.wanted_freq % p.range))

unfoldable pub analog_write : List ℕ → ℕ → ℕ → Pwm × Machine → Option (Pwm × Machine)
analog_write reads p v (s, m) = elim (scaled s v) [
  | none ↦ none
  | some zero ↦ some (s, disconnect p (stop_channel p 0 m))
  | some (suc w) ↦ elim (analog_write_init reads (s, m)) [
    | none ↦ none
    | some (s', m') ↦ some (s', start_channel p (suc w) (connect p m'))
  ]
]

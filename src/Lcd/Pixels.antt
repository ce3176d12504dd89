-- ===== src/Lcd/Pixels.antt =====
-- The pixels of the display's buffer.
use ras_pi_arduino.Prelude.{ℕ, ◌+◌, ◌-◌, ◌*◌, ◌/◌, ◌%◌, ◌^◌, ◌<◌, ◌≡◌, sym, ap, ◌∙◌, arith}
use ras_pi_arduino.Prelude.{Bool, ◌&&◌, List, length, ◌==◌, if◌then◌else◌}
use ras_pi_arduino.Prelude.{Bool-cases, inl, inr, ==→eq, get_or, get_or-set_self, get_or-set_ne}
use ras_pi_arduino.Prelude.Bits.{
  test_bit, test_bit-lt, test_bit-and, test_bit-or, test_bit-flip, bit_value, bit_value-eq,
}
use ras_pi_arduino.Gpio.Levels.{test_bit-bit_value}
use ras_pi_arduino.Machine.{Machine}
use ras_pi_arduino.Lcd.{Lcd, set_pixel, with_pixel}
use native.Mathlib.Nat.{pow-le-pow_right}

-- The pixel of column `x` and row `y`: eight rows share the byte of a column.
abbrev pub pixel : List ℕ → ℕ → ℕ → Bool
pixel buffer x y = test_bit (get_or buffer (x + y / 8 * 84) 0) (y % 8) == 1

test_bit-with_pixel :
    (y k old : ℕ) (value : Bool)
    → k < 8
    → (test_bit (with_pixel y value old) k == 1)
      ≡ (if k == y % 8 then value else test_bit old k == 1)
unfolding with_pixel
test_bit-with_pixel y k old value h =
    let j = y % 8 in
    let power : 2 ^ j ≡ bit_value j = sym (bit_value-eq j (omega arith)) in
    let one : test_bit (2 ^ j) k ≡ (if k == j then 1 else 0) =
      ap (λ t. test_bit t k) power ∙ test_bit-bit_value j k (omega arith) in
    let small : 2 ^ j < 2 ^ 8 =
      omega (arith, pow-le-pow_right {n = 2} (omega arith) {i = j} {j = 7} (omega arith)) in
    ground (
      arith,
      one,
      test_bit-or old (2 ^ j) k,
      test_bit-and old (2 ^ 8 - 1 - 2 ^ j) k,
      test_bit-flip 8 (2 ^ j) k small h,
      test_bit-lt old k,
    )

-- `setPixel` gives the pixel the value, and no other pixel changes, whether or not it is sent to the
-- display; both pixels are on the display, and the buffer has its 504 bytes.
pub pixel-set_pixel :
    (x y x' y' : ℕ) (value write_it : Bool) (d : Lcd) (m : Machine)
    → x < 84
    → y < 48
    → x' < 84
    → y' < 48
    → length d.buffer ≡ 504
    → pixel (set_pixel x y value write_it (d, m)).0.buffer x' y'
      ≡ (if x' == x && y' == y then value else pixel d.buffer x' y')
unfolding set_pixel
pixel-set_pixel x y x' y' value write_it d m hx hy hx' hy' size =
    let column : x % 84 ≡ x = omega arith in
    let line : y / 8 % 6 ≡ y / 8 = omega arith in
    let i = x + y / 8 * 84 in
    let i' = x' + y' / 8 * 84 in
    let old = get_or d.buffer i 0 in
    let byte = with_pixel y value old in
    rw (column, line)
      (elim (Bool-cases (i' == i)) [
        | inl e ↦
            let same : i' ≡ i = ==→eq i' i e in
            rw (same, get_or-set_self d.buffer i byte 0 (omega arith))
              (test_bit-with_pixel y (y' % 8) old value (omega arith) ∙ ground (arith, same))
        | inr e ↦ rw (get_or-set_ne d.buffer i i' byte 0 (ground (arith, e))) (ground (arith, e))
      ])

-- ===== src/Lcd/Tests.antt =====
-- A display on pins 2 to 6.
use ras_pi_arduino.Prelude.{ℕ, ◌≡◌, refl, arith, true, false, ◌&&◌, none, List, [], ◌∷◌}
use ras_pi_arduino.Prelude.{◌==◌, if◌then◌else◌, length-replicate, replicate}
use ras_pi_arduino.Machine.{Machine}
use ras_pi_arduino.Lcd
use ras_pi_arduino.Lcd.Bytes.{Pins}
use ras_pi_arduino.Lcd.Bus.{Bus, AreApart, observe_all}
use ras_pi_arduino.Lcd.Rounds.{mid}
use ras_pi_arduino.Lcd.Words.{Call, set_cursor, write_char, home, draw, clear_line, call, call_all}
use ras_pi_arduino.Lcd.Transmit.{Received}
use ras_pi_arduino.Lcd.Calls.{words_all, words-call_all}
use ras_pi_arduino.Lcd.Pixels.{pixel, pixel-set_pixel}
use ras_pi_arduino.Lcd.Cursor.{InRange, call-InRange}

abbrev pins : Pins
pins = record { mosi = 2; sck = 3; ss = 4; dc = 5; rst = 6 }

abbrev machine : Machine
machine = record { mem = λ _. 0; trace = [] }

abbrev screen : Lcd.Lcd
screen = record { pins = pins; column = 78; line = 5; custom = λ _. none; buffer = replicate 504 0 }

apart : AreApart pins
apart = record {
  mosi_pin = omega arith;
  sck_pin = omega arith;
  ss_pin = omega arith;
  dc_pin = omega arith;
  rst_pin = omega arith;
  mosi_sck = λ e. omega (arith, e);
  mosi_ss = λ e. omega (arith, e);
  mosi_dc = λ e. omega (arith, e);
  sck_ss = λ e. omega (arith, e);
  sck_dc = λ e. omega (arith, e);
  ss_dc = λ e. omega (arith, e);
  rst_mosi = λ e. omega (arith, e);
  rst_sck = λ e. omega (arith, e);
  rst_ss = λ e. omega (arith, e);
  rst_dc = λ e. omega (arith, e);
}

abbrev listener : Bus
listener = record (mid false false 0 0 []) { ss = true }

nothing_yet : Received pins listener machine []
unfolding observe_all
nothing_yet = record { dc = false; sent = record { mosi = false; seen = refl } }

abbrev calls : List Call
calls = set_cursor 90 3 ∷ write_char b'A' ∷ home ∷ clear_line ∷ draw ∷ []

words-call_all_example :
    Received pins listener (call_all calls (screen, machine)).1 (words_all calls (screen, machine))
words-call_all_example = words-call_all calls screen machine listener [] apart nothing_yet

pixel-set_pixel_example :
    pixel (Lcd.set_pixel 83 47 true true (screen, machine)).0.buffer 83 47
    ≡ (if 83 == 83 && 47 == 47 then true else pixel screen.buffer 83 47)
pixel-set_pixel_example =
    pixel-set_pixel 83 47 83 47 true true screen machine (omega arith) (omega arith) (omega arith)
      (omega arith) (length-replicate {A = ℕ} 504 0)

call-InRange_example : InRange (call (write_char b'A') (screen, machine)).0
call-InRange_example = call-InRange (write_char b'A') screen machine (omega arith, omega arith) tt

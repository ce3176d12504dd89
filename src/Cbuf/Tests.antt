-- ===== src/Cbuf/Tests.antt =====
-- Runs of the circular buffer, and its theorems at concrete buffers.
use ras_pi_arduino.Prelude.{◌≡◌, refl, List, [], ◌∷◌, arith, min}
use ras_pi_arduino.Prelude.Signed.{pos, negsuc}
use ras_pi_arduino.Prelude.Slices.{blit}
use ras_pi_arduino.Fifo
use ras_pi_arduino.Fifo.{
  Op, put, put_all, get, get_all, look, clear, Reply, count, value, bytes, done,
}
use ras_pi_arduino.Cbuf.{
  Cbuf, read, write, copy_out, copy_in, write_char, read_char, peek, flush, room, get_size,
}
use ras_pi_arduino.Cbuf.Ops.{IsValid, contents, Reads, Writes, read_lem, write_lem}
use ras_pi_arduino.Cbuf.Run.{run, run-refines}

-- 8 and 9, round the end of the array.
abbrev wrapped : Cbuf
wrapped = record { size = 4; buf = 9 ∷ 7 ∷ 6 ∷ 8 ∷ []; begin = 3; end = 1 }

wrapped-IsValid : IsValid wrapped
wrapped-IsValid = omega arith

abbrev script : List Op
script =
    put 1
    ∷ put 2
    ∷ look
    ∷ get_all 2
    ∷ put_all (3 ∷ 4 ∷ 5 ∷ 6 ∷ [])
    ∷ get
    ∷ get_all 9
    ∷ get
    ∷ clear
    ∷ []

run-wrapped :
    run wrapped script
    ≡ count 1
      ∷ count 0
      ∷ value (pos 8)
      ∷ bytes 2 (8 ∷ 9 ∷ [])
      ∷ count 2
      ∷ value (pos 1)
      ∷ bytes 2 (3 ∷ 4 ∷ [])
      ∷ value (negsuc 0)
      ∷ done
      ∷ []
unfolding run write_char read_char read write copy_out copy_in peek flush room get_size blit
run-wrapped = refl

run-refines_example : run wrapped script ≡ Fifo.run 3 (contents wrapped) script
run-refines_example = run-refines script wrapped-IsValid

read_lem_example : Reads wrapped (min 5 (get_size wrapped)) (read wrapped 5)
read_lem_example = read_lem 5 wrapped-IsValid

write_lem_example :
    Writes wrapped (1 ∷ 2 ∷ []) (min 2 (room wrapped)) (write wrapped (1 ∷ 2 ∷ []) 2)
write_lem_example = write_lem (1 ∷ 2 ∷ []) 2 wrapped-IsValid (omega arith)

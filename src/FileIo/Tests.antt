-- ===== src/FileIo/Tests.antt =====
-- A directory of four entries, and a file of three bytes.
use ras_pi_arduino.Prelude.{ℕ, ◌+◌, ◌≡◌, refl, arith, none, some, false, List, [], ◌∷◌, map}
use ras_pi_arduino.Prelude.Signed.{pos}
use ras_pi_arduino.FileIo.{
  File, CFile, Kind, regular, directory, other, Entry, System, construct, fwrite,
}
use ras_pi_arduino.FileIo.Bytes.{write_then_read, write_then_read-written}
use ras_pi_arduino.FileIo.Listing.{open_next_files, proper, pad, opens, open_next_files-Opens}

abbrev entry : Kind → ℕ → Entry
entry kind c = record { kind = kind; name = c ∷ [] }

abbrev entries : List Entry
entries = entry directory b'.' ∷ entry regular b'a' ∷ entry other b'b' ∷ entry directory b'c' ∷ []

abbrev three : CFile
three = record { content = 7 ∷ 8 ∷ 9 ∷ []; at = 0; append = false }

abbrev system : System
system = record { stat = λ n. some regular; fopen = λ n. some three; opendir = λ n. none }

entries_left : proper entries ≡ entry regular b'a' ∷ entry directory b'c' ∷ []
entries_left = refl

open_next_files-Opens_example :
    (f' : File) × (open_next_files 3 system
        (record construct { dir = some entries; name = some (b'd' ∷ []) })
      ≡ some (pad 3 construct (map (opens system (b'd' ∷ [])) (proper entries)), f'))
open_next_files-Opens_example = open_next_files-Opens system (b'd' ∷ []) 3 construct entries

abbrev opened : File
opened = record { file = some three; dir = none; name = some (b'd' ∷ []) }

write_then_read-written_example : write_then_read (1 ∷ 2 ∷ []) opened ≡ (
  pos 1,
  1 ∷ 2 ∷ [],
  record opened { file = some (record (fwrite (1 ∷ 2 ∷ []) three) { at = 0 + 2 }) },
)
write_then_read-written_example =
    write_then_read-written (1 ∷ 2 ∷ []) opened three refl refl (omega arith) (omega arith)
      (omega arith) (omega arith)

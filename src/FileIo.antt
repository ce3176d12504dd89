-- ===== src/FileIo.antt =====
-- libraries/Bridge/src/FileIO.cpp and FileIO.h: files and directories. A FILE of the C library is
-- its bytes with a position, and a DIR the entries that readdir has still to give. What the system
-- answers is an argument: stat, fopen, opendir and the calls that change the file system.
pub mod Bytes
pub mod Listing
mod Tests
use ras_pi_arduino.Prelude.{
  ℕ, zero, suc, ◌+◌, ◌-◌, ◌^◌, Bool, true, false, ◌&&◌, ◌||◌, not, Option, none, some,
}
use ras_pi_arduino.Prelude.{
  List, [], ◌∷◌, ◌++◌, length, take, drop, replicate, ltb, leb, ◌==◌, if◌then◌else◌, ◌>>=◌,
}
use ras_pi_arduino.Prelude.Bits.{u32}
use ras_pi_arduino.Prelude.Signed.{ℤ, pos, negsuc, minus_one}

abbrev pub FileName : Type 0
FileName = List ℕ

pub record CFile : Type 0 where
  pub content : List ℕ
  pub at : ℕ
  -- Opened with FILE_APPEND.
  pub append : Bool

-- `getc`, with -1 for EOF.
unfoldable pub getc : CFile → ℤ × CFile
getc f = elim (drop f.at f.content) [
  | [] ↦ (minus_one, f)
  | c ∷ rest ↦ (pos c, record f { at = f.at + 1 })
]

-- The place that `fseek` counts from, with 0, 1 and 2 for SEEK_SET, SEEK_CUR and SEEK_END.
abbrev pub origin : ℕ → CFile → Option ℕ
origin whence f =
    if whence == 0
    then some 0
    else if whence == 1
    then some f.at
    else if whence == 2
    then some (length f.content)
    else none

-- `fseek` with a word that becomes a long, and whether it succeeds: no position is negative.
unfoldable pub fseek : ℕ → ℕ → CFile → Bool × CFile
fseek offset whence f = elim (origin whence f) [
  | none ↦ (false, f)
  | some base ↦
      if ltb offset (2 ^ 31)
      then (true, record f { at = base + offset })
      else if ltb (base + offset) (2 ^ 32)
      then (false, f)
      else (true, record f { at = base + offset - 2 ^ 32 })
]

-- `fread(buff, nbyte, 1, f)`: the items that it counts, what it stores, and the file.
unfoldable pub fread : ℕ → CFile → ℕ × List ℕ × CFile
fread nbyte f =
    let bytes = take nbyte (drop f.at f.content) in
    (
      if nbyte == 0 then 0 else if length bytes == nbyte then 1 else 0,
      bytes,
      record f { at = f.at + length bytes },
    )

-- `fwrite(buf, size, 1, f)` of a whole item: over the bytes at the position, with zeros up to there
-- if it is beyond the end, or at the end of a file that is appended to.
unfoldable pub fwrite : List ℕ → CFile → CFile
fwrite buf f =
    let place = if f.append then length f.content else f.at in
    record f {
      content =
          take place f.content
          ++ (replicate (place - length f.content) 0
              ++ (buf ++ drop (place + length buf) f.content));
      at = place + length buf;
    }

pub data Kind : Type 0 where
  regular directory other : Kind

pub record Entry : Type 0 where
  pub kind : Kind
  pub name : FileName

pub record File : Type 0 where
  pub file : Option CFile
  pub dir : Option (List Entry)
  pub name : Option FileName

-- `File()`.
unfoldable pub construct : File
construct = record { file = none; dir = none; name = none }

-- What the system answers for a name.
pub record System : Type 0 where
  pub stat : FileName → Option Kind
  pub fopen : FileName → Option CFile
  pub opendir : FileName → Option (List Entry)

-- `File(filename, mode)`; `fopen` is for the mode.
unfoldable pub open_file : System → FileName → File
open_file sys filename = elim (sys.stat filename) [
  | none ↦ construct
  | some kind ↦ elim kind [
    | regular ↦ record { file = sys.fopen filename; dir = none; name = some filename }
    | directory ↦ record { file = none; dir = sys.opendir filename; name = some filename }
    | other ↦ construct
  ]
]

abbrev pub is_some {ℓ} : {A : Type ℓ} → Option A → Bool
is_some none = false
is_some (some a) = true

-- `operator bool`.
unfoldable pub is_open : File → Bool
is_open f = is_some f.file || is_some f.dir

unfoldable pub name_of : File → Option FileName
name_of f = if is_open f then f.name else none

unfoldable pub is_directory : File → Bool
is_directory f = is_some f.dir

-- `write(buf, size)`, where `stored` is whether fwrite stores the item; else the file is taken to
-- stay as it is.
unfoldable pub write : Bool → List ℕ → File → ℕ × File
write stored buf f = elim f.file [
  | none ↦ (0, f)
  | some c ↦
      if length buf == 0
      then (0, f)
      else if stored
      then (1, record f { file = some (fwrite buf c) })
      else (0, f)
]

-- `read()`.
unfoldable pub read_char : File → ℤ × File
read_char f = elim f.file [
  | none ↦ (minus_one, f)
  | some c ↦ let (out, c') = getc c in (out, record f { file = some c' })
]

-- `read(buff, nbyte)`.
unfoldable pub read : ℕ → File → ℤ × List ℕ × File
read nbyte f = elim f.file [
  | none ↦ (minus_one, [], f)
  | some c ↦ let (n, xs, c') = fread nbyte c in (pos n, xs, record f { file = some c' })
]

unfoldable pub position : File → ℕ
position f = elim f.file [ none ↦ 0 | some c ↦ u32 c.at ]

-- `peek`, with the third argument of fseek as the code gives it.
unfoldable pub peek : File → ℤ × File
peek f = elim f.file [
  | none ↦ (minus_one, f)
  | some c ↦
      let (out, c') = getc c in
      elim out [
        | pos n ↦ (pos n, record f { file = some (fseek (position f) c'.at c').1 })
        | negsuc n ↦ (negsuc n, record f { file = some c' })
      ]
]

-- `size`, for the size that stat gives, if it does.
unfoldable pub size : Option ℕ → File → ℕ
size answer f = elim f.file [ none ↦ 0 | some c ↦ elim answer [ none ↦ 0 | some n ↦ u32 n ] ]

-- `available`: the difference as a word.
unfoldable pub available : Option ℕ → File → ℕ
available answer f = elim f.file [ none ↦ 0 | some c ↦ u32 (size answer f + 2 ^ 32 - position f) ]

unfoldable pub seek : ℕ → File → Bool × File
seek place f = elim f.file [
  | none ↦ (false, f)
  | some c ↦ let (ok, c') = fseek place 0 c in (ok, record f { file = some c' })
]

unfoldable pub close : File → File
close f = construct

abbrev pub dot : FileName
dot = b'.' ∷ []

abbrev pub dot_dot : FileName
dot_dot = b'.' ∷ b'.' ∷ []

abbrev pub equals : FileName → FileName → Bool
equals [] [] = true
equals [] (y ∷ ys) = false
equals (x ∷ xs) [] = false
equals (x ∷ xs) (y ∷ ys) = x == y && equals xs ys

abbrev pub ends_with_slash : FileName → Bool
ends_with_slash [] = false
ends_with_slash (c ∷ []) = c == b'/'
ends_with_slash (c ∷ d ∷ cs) = ends_with_slash (d ∷ cs)

-- The name of an entry in the directory.
unfoldable pub join : FileName → FileName → FileName
join name fname = if ends_with_slash name then name ++ fname else name ++ (b'/' ∷ fname)

abbrev pub is_other : Kind → Bool
is_other regular = false
is_other directory = false
is_other other = true

-- The entries that `openNextFile` passes over.
unfoldable pub is_skipped : Entry → Bool
is_skipped e = is_other e.kind || equals e.name dot || equals e.name dot_dot

-- The calls of readdir in `openNextFile`: the entry that it stops at, and those that are left.
unfoldable pub next_entry : List Entry → Option Entry × List Entry
next_entry [] = (none, [])
next_entry (e ∷ es) = if is_skipped e then next_entry es else (some e, es)

-- `openNextFile` from that entry on: what it opens, and the directory.
unfoldable pub open_entry : System → File → Option Entry × List Entry → Option (File × File)
open_entry sys f (found, left) = elim found [
  | none ↦ some (construct, record f { dir = some left })
  | some e ↦ do name ← f.name; some (open_file sys (join name e.name), record f { dir = some left })
]

-- `openNextFile`, which reads a directory that is not open without a test.
unfoldable pub open_next_file : System → File → Option (File × File)
open_next_file sys f = do entries ← f.dir; open_entry sys f (next_entry entries)

-- `rewindDirectory`; a directory that is open has a name.
unfoldable pub rewind_directory : System → File → Option File
rewind_directory sys f = elim f.dir [
  | none ↦ some f
  | some d ↦ do name ← f.name; some (record f { dir = sys.opendir name })
]

-- `FileSystem.exists`.
unfoldable pub exists : System → FileName → Bool
exists sys path = elim (sys.stat path) [ none ↦ false | some kind ↦ not (is_other kind) ]

-- `FileSystem.mkdir`, where `made` is whether mkdir succeeds.
unfoldable pub make_directory : System → Bool → FileName → Bool
make_directory sys made path = elim (sys.stat path) [ none ↦ made | some kind ↦ false ]

-- `FileSystem.remove` and `FileSystem.rmdir`, where `gone` is whether the call of the system
-- succeeds.
unfoldable pub remove : System → Bool → FileName → Bool
remove sys gone path = elim (sys.stat path) [ none ↦ false | some kind ↦ gone ]

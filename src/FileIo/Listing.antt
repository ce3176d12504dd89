-- ===== src/FileIo/Listing.antt =====
-- The entries of a directory, one call of openNextFile after the other.
use ras_pi_arduino.Prelude.{
  ℕ, zero, suc, ◌≡◌, refl, ap, ◌∙◌, arith, Bool, true, false, not, ◌&&◌, ◌||◌, Option, none, some,
}
use ras_pi_arduino.Prelude.{
  List, [], ◌∷◌, ◌++◌, ◌==◌, map, if◌then◌else◌, ◌>>=◌, Bool-cases, inl, inr,
}
use ras_pi_arduino.FileIo.{
  File, FileName, CFile, Entry, System, regular, directory, other, equals, dot, dot_dot,
  ends_with_slash, construct, open_file, join, is_skipped, next_entry, open_entry, open_next_file,
}

-- What `n` calls open, and the directory that they leave.
unfoldable pub open_next_files : ℕ → System → File → Option (List File × File)
open_next_files zero sys f = some ([], f)
open_next_files (suc n) sys f = do
  (opened, f') ← open_next_file sys f
  (more, f'') ← open_next_files n sys f'
  some (opened ∷ more, f'')

-- The names "." and "..".
abbrev pub is_dots : FileName → Bool
is_dots [] = false
is_dots (c ∷ []) = c == b'.'
is_dots (c ∷ d ∷ []) = c == b'.' && d == b'.'
is_dots (c ∷ d ∷ e ∷ more) = false

abbrev pub is_listed : Entry → Bool
is_listed e = elim e.kind [
  | regular ↦ not (is_dots e.name)
  | directory ↦ not (is_dots e.name)
  | other ↦ false
]

is_listed-is_skipped : (e : Entry) → is_skipped e ≡ not (is_listed e)
unfolding is_skipped
is_listed-is_skipped e =
    elim e.kind as (λ kind. e.kind ≡ kind → is_skipped e ≡ not (is_listed e)) [
      | regular ↦ λ k. rw (k, dots e.name) refl
      | directory ↦ λ k. rw (k, dots e.name) refl
      | other ↦ λ k. rw k refl
    ]
      refl
  where
    dots : (n : FileName) → (equals n dot || equals n dot_dot) ≡ not (not (is_dots n))
    dots [] = refl
    dots (c ∷ []) = ground arith
    dots (c ∷ d ∷ []) = ground arith
    dots (c ∷ d ∷ e ∷ more) = ground arith

-- The files and directories in it, but for "." and "..".
abbrev pub proper : List Entry → List Entry
proper [] = []
proper (e ∷ es) = if is_listed e then e ∷ proper es else proper es

-- A name without the slash at its end, if it has one.
abbrev pub without_slash : FileName → FileName
without_slash [] = []
without_slash (c ∷ []) = if c == b'/' then [] else c ∷ []
without_slash (c ∷ d ∷ cs) = c ∷ without_slash (d ∷ cs)

-- The name of an entry of a directory: one slash stands between the two.
abbrev pub path : FileName → FileName → FileName
path name entry = without_slash name ++ (b'/' ∷ entry)

join-path : (name entry : FileName) → join name entry ≡ path name entry
unfolding join
join-path [] entry = refl
join-path (c ∷ []) entry = ground arith
join-path (c ∷ d ∷ cs) entry = elim (Bool-cases (ends_with_slash (d ∷ cs))) [
  | inl h ↦ rw h (ap (λ p. c ∷ p) (let same = join-path (d ∷ cs) entry in rw h at same))
  | inr h ↦ rw h (ap (λ p. c ∷ p) (let same = join-path (d ∷ cs) entry in rw h at same))
]

-- What is opened under a name: the bytes of a file, the entries of a directory, and nothing under
-- a name that stat does not know or that is of another kind.
abbrev pub content_of : System → FileName → Option CFile
content_of sys n = elim (sys.stat n) [
  | none ↦ none
  | some kind ↦ elim kind [ regular ↦ sys.fopen n | directory ↦ none | other ↦ none ]
]

abbrev pub entries_of : System → FileName → Option (List Entry)
entries_of sys n = elim (sys.stat n) [
  | none ↦ none
  | some kind ↦ elim kind [ regular ↦ none | directory ↦ sys.opendir n | other ↦ none ]
]

abbrev pub known_name : System → FileName → Option FileName
known_name sys n = elim (sys.stat n) [
  | none ↦ none
  | some kind ↦ elim kind [ regular ↦ some n | directory ↦ some n | other ↦ none ]
]

open_file-fields :
    (sys : System) (n : FileName)
    → open_file sys n
      ≡ record { file = content_of sys n; dir = entries_of sys n; name = known_name sys n }
unfolding open_file construct
open_file-fields sys n =
    elim (sys.stat n)
        as (λ answer.
          sys.stat n ≡ answer
          → open_file sys n
            ≡ record { file = content_of sys n; dir = entries_of sys n; name = known_name sys n }) [
              | none ↦ λ h. rw (open_file, content_of, entries_of, known_name, h) refl
              | some kind ↦
                  elim kind
                    as (λ kind.
                      sys.stat n ≡ some kind
                      → open_file sys n ≡ record {
                        file = content_of sys n;
                        dir = entries_of sys n;
                        name = known_name sys n;
                      }) [
                        | regular ↦ λ h. rw (open_file, content_of, entries_of, known_name, h) refl
                        | directory ↦
                            λ h. rw (open_file, content_of, entries_of, known_name, h) refl
                        | other ↦ λ h. rw (open_file, content_of, entries_of, known_name, h) refl
                      ]
            ]
      refl

-- The first `n` of a list, and then as many of `blank` as it lacks.
abbrev pub pad {ℓ} : {A : Type ℓ} → ℕ → A → List A → List A
pad zero blank xs = []
pad (suc n) blank [] = blank ∷ pad n blank []
pad (suc n) blank (x ∷ xs) = x ∷ pad n blank xs

module _ (sys : System) (name : FileName) where
  -- The directory `f`, with the entries that are left.
  abbrev listing : File → List Entry → File
  listing f left = record f { dir = some left; name = some name }

  abbrev pub opens : Entry → File
  opens e = record {
    file = content_of sys (path name e.name);
    dir = entries_of sys (path name e.name);
    name = known_name sys (path name e.name);
  }

  -- The same by the functions of the code.
  opened : Entry → File
  opened e = open_file sys (join name e.name)

  opened-opens : (e : Entry) → opened e ≡ opens e
  unfolding opened
  opened-opens e =
      ap (open_file sys) (join-path name e.name) ∙ open_file-fields sys (path name e.name)

  -- The call passes over entries until one is proper.
  open_next_file-skip :
      (f : File) (e : Entry) (es : List Entry)
      → is_skipped e ≡ true
      → open_next_file sys (listing f (e ∷ es)) ≡ open_next_file sys (listing f es)
  unfolding open_next_file open_entry next_entry
  open_next_file-skip f e es h =
      ap (λ r. open_entry sys (listing f es) r)
        (let same : next_entry (e ∷ es) ≡ next_entry es = rw (next_entry, h) refl in same)

  open_next_file-proper :
      (f : File) (e : Entry) (es : List Entry)
      → is_skipped e ≡ false
      → open_next_file sys (listing f (e ∷ es)) ≡ some (opens e, listing f es)
  unfolding open_next_file open_entry next_entry opened
  open_next_file-proper f e es h =
      ap (λ r. open_entry sys (listing f es) r)
        (let here : next_entry (e ∷ es) ≡ (some e, es) = rw (next_entry, h) refl in here)
      ∙ ap (λ o. some (o, listing f es)) (opened-opens e)

  open_next_file-nil :
      (f : File) → open_next_file sys (listing f []) ≡ some (construct, listing f [])
  unfolding open_next_file open_entry next_entry
  open_next_file-nil f = refl

  abbrev Opens : ℕ → File → List Entry → Type 0
  Opens n f es =
      (f' : File) × (open_next_files n sys (listing f es)
        ≡ some (pad n construct (map opens (proper es)), f'))

  -- openNextFile, called n times, opens the files and directories in the directory that are left,
  -- but for "." and "..", in order and each once, by the name of the directory, one slash and their
  -- own, and then gives a File that is not open.
  pub open_next_files-Opens : (n : ℕ) (f : File) (es : List Entry) → Opens n f es
  unfolding open_next_files
  open_next_files-Opens zero f es = (listing f es, refl)
  open_next_files-Opens (suc n) f [] =
      let (f', done) = open_next_files-Opens n f [] in
      (f', rw (open_next_files, open_next_file-nil f, ◌>>=◌, done) refl)
  open_next_files-Opens (suc n) f (e ∷ es) = elim (Bool-cases (is_listed e)) [
    | inr h ↦
        let (f', done) = open_next_files-Opens (suc n) f es in
        let skipped = is_listed-is_skipped e ∙ ap not h in
        (f', rw (open_next_files, open_next_file-skip f e es skipped, h) done)
    | inl h ↦
        let (f', done) = open_next_files-Opens n f es in
        let found = is_listed-is_skipped e ∙ ap not h in
        (f', rw (open_next_files, open_next_file-proper f e es found, ◌>>=◌, done, h) refl)
  ]

-- ===== src/Registers/Pages.antt =====
-- Either every page is mapped, or none stays mapped.
use ras_pi_arduino.Prelude.{ℕ, zero, suc, ◌+◌, ◌≡◌, refl, arith, Bool, true, false, ◌&&◌}
use ras_pi_arduino.Prelude.{
  List, [], ◌∷◌, map, length, replicate, if◌then◌else◌, Bool-cases, inl, inr,
}
use ras_pi_arduino.Registers.{
  Pointer, null, map_failed, page, bases, map_pages, unmapreg, unmap_registers, map_registers,
}

-- Whether mmap succeeds each time.
abbrev pub all_true : List Bool → Bool
all_true [] = true
all_true (b ∷ bs) = b && all_true bs

-- The pages, for each base.
abbrev pub pages : ℕ → List ℕ → List Pointer
pages offset bs = map (λ b. page (b + offset)) bs

-- What is unmapped: the pages up to the first failure, and for each pointer behind it NULL.
abbrev pub undone : ℕ → List ℕ → List Bool → List Pointer
undone offset [] answers = []
undone offset (b ∷ bs) [] = []
undone offset (b ∷ bs) (ok ∷ answers) =
    if ok then page (b + offset) ∷ undone offset bs answers else replicate (length bs) null

-- What map_registers leaves.
unfoldable pub mapped_or_undone : ℕ → List ℕ → Bool → List Bool → ℕ × List Pointer × List Pointer
mapped_or_undone offset bs opened answers =
    if opened
    then if all_true answers
      then (0, [], pages offset bs)
      else (1, undone offset bs answers, replicate (length bs) map_failed)
    else (1, [], replicate (length bs) null)

-- The pages of the bases, when nothing was mapped before.
map_pages-all_true :
    (offset : ℕ) (bs : List ℕ) (answers : List Bool)
    → length answers ≡ length bs
    → all_true answers ≡ true
    → map_pages offset bs answers (replicate (length bs) null) ≡ (true, pages offset bs)
unfolding map_pages
map_pages-all_true offset [] answers h t = refl
map_pages-all_true offset (b ∷ bs) [] h t = absurd (omega arith)
map_pages-all_true offset (b ∷ bs) (true ∷ answers) h t =
    rw (map_pages, map_pages-all_true offset bs answers (omega arith) t) refl
map_pages-all_true offset (b ∷ bs) (false ∷ answers) h t = cc

unmap_nulls :
    (n : ℕ) → unmap_registers (replicate n null) ≡ (replicate n null, replicate n map_failed)
unfolding unmap_registers unmapreg
unmap_nulls zero = refl
unmap_nulls (suc n) = rw (unmap_registers, unmap_nulls n) refl

-- A failure, and what unmap_registers then does.
unmap_registers-map_pages :
    (offset : ℕ) (bs : List ℕ) (answers : List Bool)
    → length answers ≡ length bs
    → all_true answers ≡ false
    → let (mapped, ps) = map_pages offset bs answers (replicate (length bs) null) in
      (mapped ≡ false)
      × (unmap_registers ps ≡ (undone offset bs answers, replicate (length bs) map_failed))
unfolding map_pages unmap_registers unmapreg
unmap_registers-map_pages offset [] [] h t = cc
unmap_registers-map_pages offset [] (ok ∷ answers) h t = absurd (omega arith)
unmap_registers-map_pages offset (b ∷ bs) [] h t = absurd (omega arith)
unmap_registers-map_pages offset (b ∷ bs) (true ∷ answers) h t =
    let (failed, undo) = unmap_registers-map_pages offset bs answers (omega arith) t in
    (failed, rw (unmap_registers, undo) refl)
unmap_registers-map_pages offset (b ∷ bs) (false ∷ answers) h t =
    (refl, rw (unmap_registers, unmap_nulls (length bs)) refl)

-- Called with nothing mapped, map_registers maps the page of each peripheral at its base and the
-- offset and returns 0, if /dev/mem opens and mmap succeeds each time. Else it returns 1, and no
-- page stays mapped: each page that it mapped is unmapped, once, and munmap gets NULL for each
-- register behind the one that failed.
pub map_registers_lem :
    (offset : ℕ) (opened : Bool) (answers : List Bool)
    → length answers ≡ length bases
    → map_registers offset opened answers (replicate (length bases) null)
      ≡ mapped_or_undone offset bases opened answers
unfolding map_registers mapped_or_undone
map_registers_lem offset false answers h = refl
map_registers_lem offset true answers h = elim (Bool-cases (all_true answers)) [
  | inl t ↦ rw (map_registers, map_pages-all_true offset bases answers h t, t) refl
  | inr t ↦
      let (failed, undo) = unmap_registers-map_pages offset bases answers h t in
      rw (map_registers, failed, undo, t) refl
]

-- ===== src/Registers.antt =====
-- cores/piduino/wiring.c: the pages of the peripheral registers, mapped by `init` and unmapped by
-- `uninit`. What open and mmap answer is an argument.
pub mod Pages
mod Tests
use ras_pi_arduino.Prelude.{
  ℕ, ◌+◌, Bool, true, false, List, [], ◌∷◌, ◌++◌, replicate, if◌then◌else◌,
}

-- A pointer bcmreg_*: not assigned yet, MAP_FAILED, or the page at a physical address.
pub data Pointer : Type 0 where
  null map_failed : Pointer
  page : ℕ → Pointer

-- The bases from BCM2835_ST_BASE to BCM2835_BSC1_BASE, in the order in which they are mapped.
unfoldable pub bases : List ℕ
bases =
    0x20003000 ∷ 0x2000B000 ∷ 0x20100000 ∷ 0x20101000 ∷ 0x20200000 ∷ 0x20201000 ∷ 0x20203000
    ∷ 0x20204000 ∷ 0x20205000 ∷ 0x2020C000 ∷ 0x20214000 ∷ 0x20215000 ∷ 0x20804000 ∷ []

-- The assignments of `map_registers`, each for the next base, with the answer of mmap; they end at
-- the first failure, and leave the other pointers as they are.
unfoldable pub map_pages : ℕ → List ℕ → List Bool → List Pointer → Bool × List Pointer
map_pages offset [] answers pointers = (true, pointers)
map_pages offset (b ∷ bs) [] pointers = (true, pointers)
map_pages offset (b ∷ bs) (ok ∷ answers) [] = (true, [])
map_pages offset (b ∷ bs) (ok ∷ answers) (p ∷ pointers) = elim ok [
  | true ↦
      let (mapped, more) = map_pages offset bs answers pointers in
      (mapped, page (b + offset) ∷ more)
  | false ↦ (false, map_failed ∷ pointers)
]

-- `unmapreg`: the pointer that it hands to munmap, if it does.
unfoldable pub unmapreg : Pointer → List Pointer
unmapreg null = null ∷ []
unmapreg map_failed = []
unmapreg (page a) = page a ∷ []

-- `unmap_registers`: the calls of munmap, and the pointers.
unfoldable pub unmap_registers : List Pointer → List Pointer × List Pointer
unmap_registers [] = ([], [])
unmap_registers (p ∷ ps) =
    let (calls, more) = unmap_registers ps in (unmapreg p ++ calls, map_failed ∷ more)

-- `map_registers`: what it returns, its calls of munmap, and the pointers.
unfoldable pub map_registers : ℕ → Bool → List Bool → List Pointer → ℕ × List Pointer × List Pointer
map_registers offset opened answers pointers =
    if opened
    then (let (mapped, ps) = map_pages offset bases answers pointers in
        let (calls, ps') = unmap_registers ps in if mapped then (0, [], ps) else (1, calls, ps'))
    else (1, [], pointers)

-- `init`, where `known` is whether the revision of the board has a mask of pins.
unfoldable pub init : Bool → ℕ → Bool → List Bool → List Pointer → ℕ × List Pointer × List Pointer
init known offset opened answers pointers =
    if known then map_registers offset opened answers pointers else (1, [], pointers)

unfoldable pub uninit : List Pointer → List Pointer × List Pointer
uninit pointers = unmap_registers pointers

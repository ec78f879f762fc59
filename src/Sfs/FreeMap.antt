-- ===== src/Sfs/FreeMap.antt =====
-- The allocation of blocks in rcore-fs-sfs/src/lib.rs: `BitsetAlloc`, `alloc_block`, `free_block`.
-- In the free map `true` marks a free block.
pub mod Bits
pub mod Invariant
pub mod History
mod Tests
use rcore_fs.Base.{
  ℕ, zero, suc, ◌+◌, ◌-◌, ◌%◌, ◌^◌, Bool, true, false, Option, none, some, List, [], ◌∷◌, ◌==◌,
  if◌then◌else◌, get_elem?, set,
}
use rcore_fs.Base.Outcome.{Outcome, ok, panic}
use rcore_fs.Util.Dirty.{Dirty, assign, turn_dirty}
use rcore_fs.Sfs.Layout.{SuperBlock}
use rcore_fs.Sfs.State.{Sfs, SfsAction}

-- `(0..self.len()).find(|&i| self[i])`, from `i` on.
pub find_free : List Bool → ℕ → Option ℕ
find_free [] i = none
find_free (true ∷ bits) i = some i
find_free (false ∷ bits) i = find_free bits (i + 1)

-- `BitsetAlloc::alloc`.
pub alloc : List Bool → Option ℕ × List Bool
unfolding find_free
alloc bits = elim (find_free bits 0) [
  | none ↦ (none, bits)
  | some id ↦ (some id, set bits id false)
]

abbrev pub unused : Sfs → ℕ
unused s = s.super_block.value.unused_blocks

abbrev pub with_unused : Sfs → ℕ → Sfs
with_unused s n = record s {
  super_block = assign s.super_block (record (s.super_block.value) { unused_blocks = n });
}

abbrev pub with_free_map : Sfs → List Bool → Sfs
with_free_map s bits = record s { free_map = assign s.free_map bits }

-- `alloc_block`. Taking `&mut` of the map marks it dirty also where no block is free; the
-- subtraction of the `u32` runs only at a number above 0.
unfoldable pub alloc_block : SfsAction (Option ℕ)
unfolding alloc
alloc_block s =
    let (id, bits) = alloc s.free_map.value in
    elim id [
      | none ↦ (with_free_map s bits, panic)
      | some block_id ↦
          if unused s == 0
          then (with_free_map s (set bits block_id true), ok none)
          else (with_unused (with_free_map s bits) (unused s - 1), ok (some block_id))
    ]

-- `free_block`. The index and the `assert!` panic; the sum is that of a `u32`.
unfoldable pub free_block : ℕ → SfsAction (Unit {0})
free_block block_id s = elim (get_elem? s.free_map.value block_id) [
  | none ↦ (s, panic)
  | some true ↦ (s, panic)
  | some false ↦ (
    with_unused (with_free_map s (set s.free_map.value block_id true)) ((unused s + 1) % 2 ^ 32),
    ok tt,
  )
]

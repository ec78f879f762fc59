-- ===== src/Sfs/FreeMap/Tests.antt =====
-- A free map of four blocks, and the theorems on `alloc_block` and `free_block` at it.
use rcore_fs.Base.{
  ℕ, ◌≡◌, ◌≢◌, refl, ◌⊎◌, Bool, true, false, none, some, List, [], ◌∷◌, arith, get_elem?,
}
use rcore_fs.Base.Outcome.{ok, panic}
use rcore_fs.Util.Dirty.{new}
use rcore_fs.Sfs.State.{Sfs}
use rcore_fs.Sfs.FreeMap.{unused, with_free_map, alloc_block, free_block}
use rcore_fs.Sfs.FreeMap.Bits.{count_true, IsFirstFree}
use rcore_fs.Sfs.FreeMap.Invariant.{
  bits, IsConsistent, taken, released, alloc_block_lem, free_block_lem, free_block-alloc_block,
}
use rcore_fs.Sfs.FreeMap.History.{Reach, here, next, allocate, Exclusive, Reach-Exclusive}

abbrev disk : List Bool → ℕ → Sfs
disk map n = record {
  super_block =
      new (record { magic = 0; blocks = 4; unused_blocks = n; info = []; freemap_blocks = 1 });
  free_map = new map;
  inodes = λ _. none;
  device = record { size = 0; byte = λ _. 0 };
}

abbrev start : Sfs
start = disk (false ∷ false ∷ true ∷ true ∷ []) 2

start-IsConsistent : IsConsistent start
start-IsConsistent = omega arith

first_is_two : (alloc_block start).1 ≡ ok (some 2)
unfolding alloc_block
first_is_two = refl

full_panics : (alloc_block (disk (false ∷ false ∷ []) 0)).1 ≡ panic
unfolding alloc_block
full_panics = refl

double_free_panics : (free_block 3 start).1 ≡ panic
unfolding free_block
double_free_panics = refl

alloc_block_lem_example :
    ((count_true (bits start) ≡ 0)
      × (alloc_block start ≡ (with_free_map start (bits start), panic)))
    ⊎ ((k : ℕ) × IsFirstFree (bits start) k × (alloc_block start ≡ (taken start k, ok (some k))))
alloc_block_lem_example = alloc_block_lem start start-IsConsistent

free_block_lem_example :
    ((get_elem? (bits start) 1 ≡ some false) × (free_block 1 start ≡ (released start 1, ok tt)))
    ⊎ ((get_elem? (bits start) 1 ≢ some false) × (free_block 1 start ≡ (start, panic)))
free_block_lem_example = free_block_lem start 1 start-IsConsistent

allocated : alloc_block start ≡ (taken start 2, ok (some 2))
unfolding alloc_block
allocated = refl

free_block-alloc_block_example :
    ((free_block 2 (taken start 2)).1 ≡ ok tt)
    × (bits (free_block 2 (taken start 2)).0 ≡ bits start)
    × (unused (free_block 2 (taken start 2)).0 ≡ unused start)
free_block-alloc_block_example =
    free_block-alloc_block start (taken start 2) 2 start-IsConsistent allocated

reached : Reach start (taken (taken start 2) 3) (3 ∷ 2 ∷ [])
unfolding alloc_block
reached = next (next here (allocate 2 refl)) (allocate 3 refl)

Reach-Exclusive_example :
    IsConsistent (taken (taken start 2) 3) × Exclusive (bits (taken (taken start 2) 3)) (3 ∷ 2 ∷ [])
Reach-Exclusive_example = Reach-Exclusive start-IsConsistent reached

-- ===== src/Sfs/BlockMap/Pointers.antt =====
-- How the block map of rcore-fs-sfs/src/lib.rs depends on what its index blocks hold.
use rcore_fs.Base.{ℕ, ◌+◌, ◌-◌, ◌*◌, ◌/◌, ◌%◌, ◌≤◌, ◌<◌, ◌≡◌, ◌≢◌, refl, false, arith, ◌==◌, length}
use rcore_fs.Base.Outcome.{ok, err, panic, hang}
use rcore_fs.Vfs.{Result}
use rcore_fs.Sfs.Layout.{
  DiskINode, ndirect, entry_size, blk_nentry, max_nblock_direct, max_nblock_indirect,
  max_nblock_double_indirect,
}
use rcore_fs.Sfs.Device.{Device, read_u32}
use rcore_fs.Sfs.BlockMap.{get_double, get_disk_block_id}

-- The entry of the double indirect block for the entry `i` behind the indirect ones.
abbrev pub pointer : DiskINode → Device → ℕ → Result ℕ
pointer inode device i = read_u32 device inode.db_indirect (entry_size * (i / blk_nentry))

-- The index blocks of a file are different blocks, as far as the file reaches.
pub record IsApart (inode : DiskINode) (device : Device) : Type 0 where
  pub direct_len : length inode.direct ≡ ndirect
  pub levels : max_nblock_indirect < inode.blocks → inode.indirect ≢ inode.db_indirect
  pub second :
      (i p : ℕ)
      → max_nblock_indirect + i < inode.blocks
      → pointer inode device i ≡ ok p
      → (p ≢ inode.db_indirect) × (p ≢ inode.indirect)
  pub distinct :
      (i j p q : ℕ)
      → max_nblock_indirect + i < inode.blocks
      → max_nblock_indirect + j < inode.blocks
      → i / blk_nentry ≢ j / blk_nentry
      → pointer inode device i ≡ ok p
      → pointer inode device j ≡ ok q
      → p ≢ q

module _ (inode : DiskINode) (device device' : Device) (i : ℕ)
    (same : pointer inode device' i ≡ pointer inode device i) where
  -- An entry behind the double indirect block is seen through two reads only.
  pub get_double_frame :
      ((p : ℕ)
        → pointer inode device i ≡ ok p
        → read_u32 device' p (entry_size * (i % blk_nentry))
          ≡ read_u32 device p (entry_size * (i % blk_nentry)))
      → get_double inode device' i ≡ get_double inode device i
  unfolding get_double
  get_double_frame h = go (pointer inode device i) refl
    where
      go :
          (r : Result ℕ)
          → pointer inode device i ≡ r
          → get_double inode device' i ≡ get_double inode device i
      go (ok p) e = ground (arith, same, e, h p e)
      go (err x) e = ground (arith, same, e)
      go panic e = ground (arith, same, e)
      go hang e = ground (arith, same, e)

  pub get_double_hit :
      (p v : ℕ)
      → pointer inode device i ≡ ok p
      → (p == 0) ≡ false
      → (v == 0) ≡ false
      → read_u32 device' p (entry_size * (i % blk_nentry)) ≡ ok v
      → get_double inode device' i ≡ ok v
  unfolding get_double
  get_double_hit p v e pos pos' h = rw (get_double, same, e, pos, h, pos')

-- `get_disk_block_id` by the level of the block.
module _ (inode : DiskINode) (device : Device) (id : ℕ) (in_file : id < inode.blocks) where
  pub get_indirect :
      max_nblock_direct ≤ id
      → id < max_nblock_indirect
      → get_disk_block_id inode device id
        ≡ read_u32 device inode.indirect (entry_size * (id - ndirect))
  unfolding get_disk_block_id
  get_indirect low high = ground arith

  pub get_behind :
      max_nblock_indirect ≤ id
      → id < max_nblock_double_indirect
      → get_disk_block_id inode device id ≡ get_double inode device (id - max_nblock_indirect)
  unfolding get_disk_block_id
  get_behind low high = ground arith

-- The block map at `j` depends on the index blocks only.
pub get_cong :
    (inode : DiskINode) (device device' : Device) (j : ℕ)
    → (max_nblock_direct ≤ j
        → j < max_nblock_indirect
        → read_u32 device' inode.indirect (entry_size * (j - ndirect))
          ≡ read_u32 device inode.indirect (entry_size * (j - ndirect)))
    → (max_nblock_indirect ≤ j
        → j < inode.blocks
        → get_double inode device' (j - max_nblock_indirect)
          ≡ get_double inode device (j - max_nblock_indirect))
    → get_disk_block_id inode device' j ≡ get_disk_block_id inode device j
unfolding get_disk_block_id
get_cong inode device device' j h k = ground arith

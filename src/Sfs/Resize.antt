-- ===== src/Sfs/Resize.antt =====
-- `_resize` of `INodeImpl` in rcore-fs-sfs/src/lib.rs: the blocks of a file and its index blocks are
-- allocated and given back. A loop over `i..j` runs `j - i` rounds from `i` on.
pub mod Small
pub mod Grow
pub mod Zeroed
pub mod Release
pub mod Freed
mod Tests
use rcore_fs.Base.{
  ℕ, zero, suc, ◌+◌, ◌-◌, ◌*◌, ◌/◌, ◌%◌, ◌^◌, Bool, ◌&&◌, Option, none, some, ltb, leb, ◌==◌, not,
  if◌then◌else◌,
}
use rcore_fs.Base.Outcome.{
  Outcome, ok, err, panic, hang, pure, fail, crash, lift, and_then, ◌>>=◌, ◌>>◌,
}
use rcore_fs.Util.Dirty.{Dirty}
use rcore_fs.Vfs.{FsError}
use rcore_fs.Sfs.Layout.{
  DiskINode, blksize, entry_size, blk_nentry, max_file_size, max_nblock_direct, max_nblock_indirect,
  max_nblock_double_indirect,
}
use rcore_fs.Sfs.Device.{Device, read_u32, write_u32}
use rcore_fs.Sfs.State.{Sfs, SfsAction, on_inode, put_inode, change_inode, on_device}
use rcore_fs.Sfs.FreeMap.{alloc_block, free_block}
use rcore_fs.Sfs.BlockMap.{set_disk_block_id}
use rcore_fs.Sfs.Content.{block_of_file, clean_content}

-- `alloc_block().expect("no space")`.
abbrev pub expect_block : SfsAction ℕ
expect_block s = and_then (alloc_block s) (λ b. elim b [ none ↦ crash | some k ↦ pure k ])

-- `set_disk_block_id` of the inode.
pub set_block_of_file : (id file_block_id disk_block_id : ℕ) → SfsAction (Unit {0})
set_block_of_file id i v s = elim (s.inodes id) [
  | none ↦ (s, panic)
  | some n ↦ elim (set_disk_block_id n s.device i v) [
    | ok (n', d) ↦ (record (put_inode s id (some n')) { device = d }, ok tt)
    | err e ↦ (s, err e)
    | panic ↦ (s, panic)
    | hang ↦ (s, hang)
  ]
]

-- The first second-level index block behind the ones that a file of `blocks` blocks has.
abbrev pub indirect_begin : ℕ → ℕ
indirect_begin blocks =
    if ltb blocks max_nblock_indirect then 0 else (blocks - max_nblock_indirect) / blk_nentry + 1

abbrev pub indirect_end : ℕ → ℕ
indirect_end blocks = (blocks - max_nblock_indirect) / blk_nentry + 1

-- The loop that allocates second-level index blocks.
pub add_pointers : (id i n : ℕ) → SfsAction (Unit {0})
add_pointers id i zero = pure tt
add_pointers id i (suc n) = do
  indirect ← expect_block
  on_inode id (λ m. on_device (λ d. write_u32 d m.db_indirect (entry_size * i) (indirect % 2 ^ 32)))
  add_pointers id (i + 1) n

-- The index blocks of a file that grows from `old_blocks` to `blocks`.
pub add_indirect : (id old_blocks blocks : ℕ) → SfsAction (Unit {0})
add_indirect id old_blocks blocks =
    if ltb old_blocks max_nblock_direct && leb max_nblock_direct blocks
    then (do b ← expect_block; change_inode id (λ n. record n { indirect = b % 2 ^ 32 }))
    else pure tt

pub add_db_indirect : (id : ℕ) → SfsAction (Unit {0})
add_db_indirect id = on_inode id λ n.
    if n.db_indirect == 0
    then (do b ← expect_block; change_inode id (λ n. record n { db_indirect = b % 2 ^ 32 }))
    else pure tt

pub add_second_level : (id old_blocks blocks : ℕ) → SfsAction (Unit {0})
unfolding add_pointers add_db_indirect
add_second_level id old_blocks blocks =
    if leb max_nblock_indirect blocks
    then (do
      add_db_indirect id
      add_pointers id (indirect_begin old_blocks) (indirect_end blocks - indirect_begin old_blocks))
    else pure tt

-- The loop that allocates the blocks of the content.
pub add_blocks : (id i n : ℕ) → SfsAction (Unit {0})
unfolding set_block_of_file
add_blocks id i zero = pure tt
add_blocks id i (suc n) = do
  disk_block_id ← expect_block
  set_block_of_file id i disk_block_id
  add_blocks id (i + 1) n

-- The branch `Ordering::Greater`.
unfoldable pub grow : (id old_blocks blocks len : ℕ) → SfsAction (Unit {0})
unfolding add_indirect add_second_level add_blocks
grow id old_blocks blocks len = do
  change_inode id (λ n. record n { blocks = blocks })
  add_indirect id old_blocks blocks
  add_second_level id old_blocks blocks
  add_blocks id old_blocks (blocks - old_blocks)
  on_inode id (λ n. do
    change_inode id (λ n. record n { size = len % 2 ^ 32 })
    cleaned ← clean_content id n.size len
    pure tt)

-- The loop that frees the blocks of the content.
pub free_blocks : (id i n : ℕ) → SfsAction (Unit {0})
free_blocks id i zero = pure tt
free_blocks id i (suc n) = do
  disk_block_id ← block_of_file id i
  free_block disk_block_id
  free_blocks id (i + 1) n

pub free_indirect : (id blocks : ℕ) → SfsAction (Unit {0})
free_indirect id blocks = on_inode id λ n.
    if ltb blocks max_nblock_direct && leb max_nblock_direct n.blocks
    then (do free_block n.indirect; change_inode id (λ n. record n { indirect = 0 }))
    else pure tt

pub free_pointers : (id i n : ℕ) → SfsAction (Unit {0})
free_pointers id i zero = pure tt
free_pointers id i (suc n) = do
  indirect ← on_inode id (λ m s. (s, read_u32 s.device m.db_indirect (entry_size * i)))
  if indirect == 0 then crash else free_block indirect
  free_pointers id (i + 1) n

pub free_second_level : (id blocks : ℕ) → SfsAction (Unit {0})
unfolding free_pointers
free_second_level id blocks = on_inode id λ n.
    if leb max_nblock_indirect n.blocks
    then (do
      free_pointers id (indirect_begin blocks) (indirect_end n.blocks - indirect_begin blocks)
      if ltb blocks max_nblock_indirect
          then (if n.db_indirect == 0 then crash else (do
            free_block n.db_indirect
            change_inode id (λ n. record n { db_indirect = 0 })))
          else pure tt)
    else pure tt

-- The branch `Ordering::Less`.
unfoldable pub shrink : (id old_blocks blocks len : ℕ) → SfsAction (Unit {0})
unfolding free_blocks free_indirect free_second_level
shrink id old_blocks blocks len = do
  free_blocks id blocks (old_blocks - blocks)
  free_indirect id blocks
  free_second_level id blocks
  change_inode id (λ n. record n { blocks = blocks; size = len % 2 ^ 32 })

abbrev pub blocks_for : ℕ → ℕ
blocks_for len = (len + blksize - 1) / blksize % 2 ^ 32

unfoldable pub resize : (id len : ℕ) → SfsAction (Unit {0})
unfolding grow shrink
resize id len =
    let blocks = blocks_for len in
    if ltb max_file_size len
    then fail FsError.invalid_param
    else if ltb max_nblock_double_indirect blocks
    then fail FsError.invalid_param
    else on_inode id (λ n.
      if n.blocks == blocks
      then change_inode id (λ n. record n { size = len % 2 ^ 32 })
      else if ltb n.blocks blocks
      then grow id n.blocks blocks len
      else shrink id n.blocks blocks len)

-- ===== src/Sfs/BlockMap.antt =====
-- The map from the blocks of a file to the blocks of the disk in rcore-fs-sfs/src/lib.rs:
-- `get_disk_block_id` and `set_disk_block_id` of `INodeImpl`, through the direct blocks, the
-- indirect block and the double indirect block.
pub mod Pointers
pub mod Update
pub mod Total
mod Tests
use rcore_fs.Base.{
  ℕ, ◌+◌, ◌-◌, ◌*◌, ◌/◌, ◌%◌, ◌^◌, Bool, not, Option, none, some, List, ltb, leb, ◌==◌,
  if◌then◌else◌, get_elem?, set, length,
}
use rcore_fs.Base.Outcome.{Outcome, ok, err, panic}
use rcore_fs.Base.Fallible.{◌>>=◌, ◌>>◌, assert, unwrap}
use rcore_fs.Util.Dirty.{Dirty, assign}
use rcore_fs.Vfs.{FsError, Result}
use rcore_fs.Sfs.Layout.{
  DiskINode, ndirect, entry_size, blk_nentry, max_nblock_direct, max_nblock_indirect,
  max_nblock_double_indirect,
}
use rcore_fs.Sfs.Device.{Device, read_u32, write_u32}

-- The number of the second-level block with the entry `i` behind the indirect ones.
pub read_pointer : DiskINode → Device → ℕ → Result ℕ
read_pointer inode device i = do
  indirect_block_id ← read_u32 device inode.db_indirect (entry_size * (i / blk_nentry))
  assert (not (indirect_block_id == 0))
  ok indirect_block_id

unfoldable pub get_double : DiskINode → Device → ℕ → Result ℕ
unfolding read_pointer
get_double inode device i = do
  indirect_block_id ← read_pointer inode device i
  disk_block_id ← read_u32 device indirect_block_id (entry_size * (i % blk_nentry))
  assert (not (disk_block_id == 0))
  ok disk_block_id

unfoldable pub get_disk_block_id : DiskINode → Device → ℕ → Result ℕ
unfolding get_double
get_disk_block_id inode device id =
    if leb inode.blocks id
    then err FsError.invalid_param
    else if ltb id max_nblock_direct
    then unwrap (get_elem? inode.direct id)
    else if ltb id max_nblock_indirect
    then read_u32 device inode.indirect (entry_size * (id - ndirect))
    else if ltb id max_nblock_double_indirect
    then get_double inode device (id - max_nblock_indirect)
    else panic

-- `direct[id] = …` through `&mut`.
unfoldable pub set_direct : Dirty DiskINode → ℕ → ℕ → Dirty DiskINode
set_direct inode id v = assign inode (record (inode.value) { direct = set inode.value.direct id v })

pub set_double : DiskINode → Device → (i v : ℕ) → Result Device
unfolding read_pointer
set_double inode device i v = do
  indirect_block_id ← read_pointer inode device i
  write_u32 device indirect_block_id (entry_size * (i % blk_nentry)) v

-- The inode and the device behind the call. `as u32` keeps the low 32 bits.
unfoldable pub set_disk_block_id :
    Dirty DiskINode → Device → (id v : ℕ) → Result (Dirty DiskINode × Device)
unfolding set_direct set_double
set_disk_block_id inode device id disk_block_id =
    let v = disk_block_id % 2 ^ 32 in
    if leb inode.value.blocks id
    then err FsError.invalid_param
    else if ltb id max_nblock_direct
    then (do assert (ltb id (length inode.value.direct)); ok (set_direct inode id v, device))
    else if ltb id max_nblock_indirect
    then (do
      device' ← write_u32 device inode.value.indirect (entry_size * (id - ndirect)) v
      ok (inode, device'))
    else if ltb id max_nblock_double_indirect
    then (do
      device' ← set_double inode.value device (id - max_nblock_indirect) v
      ok (inode, device'))
    else panic

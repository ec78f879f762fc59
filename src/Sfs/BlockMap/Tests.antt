-- ===== src/Sfs/BlockMap/Tests.antt =====
-- A file that reaches behind the double indirect block, and the theorem on its block map.
use rcore_fs.Base.{ℕ, ◌+◌, ◌*◌, ◌/◌, ◌<◌, ◌≡◌, refl, arith, ◌==◌, if◌then◌else◌}
use rcore_fs.Base.Outcome.{ok}
use rcore_fs.Util.Dirty.{Dirty, new}
use rcore_fs.Sfs.Layout.{DiskINode, new_file, blksize}
use rcore_fs.Sfs.Device.{Device, read_u32}
use rcore_fs.Sfs.BlockMap.{get_disk_block_id, set_disk_block_id}
use rcore_fs.Sfs.BlockMap.Pointers.{pointer, IsApart}
use rcore_fs.Sfs.BlockMap.Total.{IsMapped, set_disk_block_id_lem}

-- The indirect block is 5, the double indirect one 6, and the first second-level one 7.
abbrev inode : DiskINode
inode = record new_file { size = 1040 * blksize; blocks = 1040; indirect = 5; db_indirect = 6 }

abbrev device : Device
device = record { size = 16 * blksize; byte = λ x. if x == 6 * blksize then 7 else 0 }

first_pointer : read_u32 device 6 0 ≡ ok 7
unfolding read_u32
first_pointer = refl

pointer_lem : (i : ℕ) → 1036 + i < 1040 → pointer inode device i ≡ ok 7
pointer_lem i h = let e : 4 * (i / 1024) ≡ 0 = omega arith in rw e first_pointer

inode-IsMapped : IsMapped inode device
inode-IsMapped = record {
  blocks_le = omega arith;
  indirect_in = λ _. omega arith;
  pointer_in = λ i h. (7, pointer_lem i h, omega arith, omega arith);
}

inode-IsApart : IsApart inode device
inode-IsApart = record {
  direct_len = refl;
  levels = λ _. omega arith;
  second = λ i p h at. ground (arith, pointer_lem i h);
  distinct = λ i j p q hi hj ne. absurd (ne (omega arith));
}

set_disk_block_id_lem_example :
    (inode' : Dirty DiskINode) × (device' : Device) × (set_disk_block_id (new inode) device 1038 9
      ≡ ok (inode', device'))
    × ((j : ℕ)
        → get_disk_block_id inode'.value device' j
          ≡ (if 1038 == j then ok 9 else get_disk_block_id inode device j))
    × IsMapped inode'.value device'
    × IsApart inode'.value device'
set_disk_block_id_lem_example =
    set_disk_block_id_lem (new inode) device 1038 9 inode-IsMapped inode-IsApart (omega arith)
      (omega arith) (omega arith)

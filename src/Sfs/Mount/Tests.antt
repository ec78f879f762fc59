-- ===== src/Sfs/Mount/Tests.antt =====
-- Tests of `sync` and `open` of rcore-fs-sfs/src/lib.rs.
use rcore_fs.Base.{◌≡◌, refl, true, none, [], arith, replicate, length-replicate}
use rcore_fs.Base.Outcome.{ok}
use rcore_fs.Util.Dirty.{new, new_dirty}
use rcore_fs.Sfs.Layout.{new_file, check}
use rcore_fs.Sfs.State.{Sfs}
use rcore_fs.Sfs.Inode.{DiskImage}
use rcore_fs.Sfs.Image.Lsb0.{lsb0, lsb0-IsBitImage}
use rcore_fs.Sfs.Mount.{sync_fs, open_fs}
use rcore_fs.Sfs.Mount.Reopen.{IsSyncable, open_fs-sync_fs}
use rcore_fs.Sfs.Sample.{sample, sample_super}

abbrev changed : Sfs
changed = record sample {
  super_block = new_dirty sample_super;
  free_map = new_dirty (replicate 32768 true);
  inodes = λ _. none;
}

abbrev image : DiskImage
image = record { size_of = 0; encode = λ n. []; decode = λ xs. new_file }

changed-IsSyncable : IsSyncable lsb0 changed
unfolding check
changed-IsSyncable = record {
  super_fields = record {
    magic = omega arith;
    blocks = omega arith;
    unused_blocks = omega arith;
    info = refl;
    freemap_blocks = omega arith;
  };
  checked = refl;
  map_len = length-replicate 32768 true;
  room = omega arith;
  no_inodes = λ j. refl;
  old_super = λ e. absurd cc;
  old_map = λ e. absurd cc;
}

open_fs-sync_fs_example :
    (s : Sfs) × (sync_fs image lsb0 changed ≡ (s, ok tt))
    × (open_fs lsb0 s.device
        ≡ ok (record {
          super_block = new changed.super_block.value;
          free_map = new changed.free_map.value;
          inodes = λ _. none;
          device = s.device;
        }))
open_fs-sync_fs_example = open_fs-sync_fs image lsb0 changed lsb0-IsBitImage changed-IsSyncable

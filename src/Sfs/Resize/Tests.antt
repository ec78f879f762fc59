-- ===== src/Sfs/Resize/Tests.antt =====
-- Tests of `_resize` of rcore-fs-sfs/src/lib.rs.
use rcore_fs.Base.{◌≡◌, arith}
use rcore_fs.Base.Outcome.{ok}
use rcore_fs.Util.Dirty.{Dirty, assign}
use rcore_fs.Sfs.Layout.{DiskINode}
use rcore_fs.Sfs.State.{Sfs}
use rcore_fs.Sfs.Resize.{resize}
use rcore_fs.Sfs.Resize.Small.{Holds}
use rcore_fs.Sfs.Resize.Zeroed.{HasGrown, resize_grow_lem}
use rcore_fs.Sfs.Resize.Freed.{HasShrunk, resize_shrink_lem}
use rcore_fs.Sfs.Sample.{sample, sample_inode, sample-Holds}

resize_grow_lem_example :
    (s : Sfs) × (n : Dirty DiskINode) × (resize 3 5000 sample ≡ (s, ok tt))
    × Holds s 3 n 2
    × HasGrown sample s 3 sample_inode n 5000
resize_grow_lem_example =
    resize_grow_lem sample 3 sample_inode sample-Holds (omega arith) 5000 (omega arith)
      (omega arith) (omega arith)

abbrev emptied : Dirty DiskINode
emptied = assign sample_inode (record (sample_inode.value) { blocks = 0; size = 0 })

resize_shrink_lem_example :
    (s : Sfs) × (resize 3 0 sample ≡ (s, ok tt))
    × Holds s 3 emptied 0
    × HasShrunk sample s 3 sample_inode emptied 0
resize_shrink_lem_example =
    resize_shrink_lem sample 3 sample_inode sample-Holds 0 (omega arith) (omega arith)

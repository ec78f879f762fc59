-- ===== src/Sfs/Format/Tests.antt =====
-- The layout of a disk of 16 blocks, the smallest that is accepted.
use rcore_fs.Base.{◌*◌, ◌≡◌, refl, Bool, List, arith}
use rcore_fs.Base.Outcome.{ok, panic}
use rcore_fs.Sfs.Layout.{SuperBlock, blksize}
use rcore_fs.Sfs.Format.{lay_out}
use rcore_fs.Sfs.Format.Books.{IsLaidOut, lay_out-IsLaidOut}

too_small : lay_out (15 * blksize) ≡ panic
unfolding lay_out
too_small = refl

lay_out-IsLaidOut_example :
    (sb : SuperBlock) × (map : List Bool) × (lay_out (16 * blksize) ≡ ok (sb, map))
    × IsLaidOut (16 * blksize) sb map
lay_out-IsLaidOut_example = lay_out-IsLaidOut (16 * blksize) (omega arith) (omega arith)

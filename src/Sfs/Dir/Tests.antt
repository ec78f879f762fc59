-- ===== src/Sfs/Dir/Tests.antt =====
-- Tests of the directory operations of rcore-fs-sfs/src/lib.rs.
use rcore_fs.Base.{◌≡◌, refl, arith, some, none, [], ◌∷◌, ◌==◌, if◌then◌else◌}
use rcore_fs.Base.Outcome.{ok, hang}
use rcore_fs.Util.Dirty.{Dirty, new}
use rcore_fs.Sfs.Layout.{DiskINode, new_dir, new_file}
use rcore_fs.Sfs.State.{Sfs}
use rcore_fs.Sfs.Dirent.{DiskEntry, new_entry, get_file_inode_id}
use rcore_fs.Sfs.Inode.{metadata}
use rcore_fs.Sfs.Str.{from_str}
use rcore_fs.Sfs.Dir.{linkable, link_inodeimpl}
use rcore_fs.Sfs.Dir.Locked.{link_inodeimpl_lem}
use rcore_fs.Sfs.Sample.{sample}

-- A directory without entries, and a file.
abbrev empty_dir : Dirty DiskINode
empty_dir = new (record new_dir { nlinks = 2 })

abbrev one_file : Dirty DiskINode
one_file = new (record new_file { nlinks = 1 })

abbrev both : Sfs
both = record sample {
  inodes = λ j. if 3 == j then some empty_dir else if 5 == j then some one_file else none;
}

both-linkable : linkable 3 (98 ∷ []) (some 5) both ≡ (both, ok 5)
unfolding linkable get_file_inode_id metadata
both-linkable = refl

b_entry : (entry : DiskEntry) × (new_entry 5 (98 ∷ []) ≡ ok entry)
unfolding new_entry from_str
b_entry = (_, refl)

link_inodeimpl_lem_example : link_inodeimpl 3 (98 ∷ []) (some 5) both ≡ (both, hang)
link_inodeimpl_lem_example =
    link_inodeimpl_lem 3 5 (98 ∷ []) (some 5) both both b_entry.0 empty_dir both-linkable b_entry.1
      refl (omega arith) (omega arith)

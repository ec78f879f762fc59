-- ===== src/Mountfs/Tests.antt =====
-- Tests of rcore-fs-mountfs/src/lib.rs: file systems of a single directory each, with the inode 0.
use mathlib.Core.Path.{subst}
use rcore_fs.Base.{
  ℕ, zero, suc, ◌<◌, ◌≡◌, refl, ap, ◌∙◌, false, none, some, List, [], ◌∷◌, arith, get_elem?, map,
}
use rcore_fs.Base.Outcome.{Outcome, ok, err, pure, ◌>>=◌}
use rcore_fs.Vfs.{FileType, FsError, Metadata, FsInfo, epoch}
use rcore_fs.Mountfs.{
  InnerCalls, MNode, MountFs, new_mountfs, mount, overlaid_inode, find_node, sync_mountfs,
}
use rcore_fs.Mountfs.Tree.{IsTree, find_node_lem}
use rcore_fs.Mountfs.Synced.{Between, IsOrdered, Order, sync_each, sync_mountfs_lem}
use rcore_fs.Mountfs.Ordered.{first-IsOrdered, mount-IsOrdered}
use rcore_fs.Mountfs.Overlay.{mount_lem}

abbrev root_info : Metadata
root_info = record {
  dev = 0;
  inode = 0;
  size = 0;
  blk_size = 0;
  blocks = 0;
  atime = epoch;
  mtime = epoch;
  ctime = epoch;
  type_ = FileType.dir;
  mode = 0;
  nlinks = 2;
  uid = 0;
  gid = 0;
  rdev = 0;
}

abbrev no_info : FsInfo
no_info = record {
  bsize = 0;
  frsize = 0;
  blocks = 0;
  bfree = 0;
  bavail = 0;
  files = 0;
  ffree = 0;
  namemax = 0;
}

abbrev inner : InnerCalls (Unit {0}) ℕ ℕ
inner = record {
  root_inode = λ f s. (s, ok 0);
  sync = λ f s. (s, ok tt);
  info = λ f. no_info;
  fs = λ i. 0;
  metadata = λ i s. (s, ok root_info);
  find = λ i name s. (s, ok 0);
  get_entry = λ i k s. (s, err FsError.entry_not_found);
  create = λ i name type_ mode s. (s, err FsError.not_supported);
  link = λ i name j s. (s, err FsError.not_supported);
  unlink = λ i name s. (s, err FsError.not_supported);
  move_ = λ i name j new_name s. (s, err FsError.not_supported);
}

abbrev root_of : MNode ℕ
root_of = record { inode = 0; vfs = 0 }

-- The file system 1 on the root of the file system 0.
abbrev two : List (MountFs ℕ ℕ)
two =
    record { inner = 0; mountpoints = (0, 1) ∷ []; self_mountpoint = none }
    ∷ new_mountfs 0 (some root_of)
    ∷ []

two-IsTree : IsTree two
two-IsTree = record { older = older }
  where
    older :
        (k : ℕ) (m : MountFs ℕ ℕ) (up : MNode ℕ)
        → get_elem? two k ≡ some m
        → m.self_mountpoint ≡ some up
        → up.vfs < k
    older zero m up at under = absurd (cc (at, under))
    older (suc zero) m up at under =
        let same : new_mountfs 0 (some root_of) ≡ m = cc at in
        let here : some root_of ≡ some up = ap MountFs.self_mountpoint same ∙ under in
        let e : root_of ≡ up = cc here in
        let vfs : 0 ≡ up.vfs = ap MNode.vfs e in omega (arith, vfs)
    older (suc (suc k)) m up at under = absurd cc

find_node_lem_example :
    (r : Unit {0} × Outcome FsError (MNode ℕ)) × (find_node inner 2 two
        (record { inode = 0; vfs = 1 })
        false
        (46 ∷ 46 ∷ [])
        tt
      ≡ some r)
find_node_lem_example =
    find_node_lem inner two two-IsTree 2 (record { inode = 0; vfs = 1 }) false (46 ∷ 46 ∷ []) tt
      (omega arith)

mount_lem_example :
    (ms : List (MountFs ℕ ℕ)) × (mount inner root_of 5 (tt, two) ≡ ((tt, ms), ok 2))
    × IsTree ms
    × (overlaid_inode inner ms root_of tt
        ≡ (inner.root_inode 5 >>= λ root. pure (record { inode = root; vfs = 2 })) tt)
mount_lem_example = mount_lem inner two two-IsTree root_of 5 tt root_info (omega arith) refl

two-IsOrdered : IsOrdered two
two-IsOrdered = record { newer = newer }
  where
    newer :
        (k : ℕ) (m : MountFs ℕ ℕ)
        → get_elem? two k ≡ some m
        → Between k 2 (map (λ entry. entry.1) m.mountpoints)
    newer zero m at =
        let same : record { inner = 0; mountpoints = (0, 1) ∷ []; self_mountpoint = none } ≡ m =
          cc at in
        subst (λ (m : MountFs ℕ ℕ). Between 0 2 (map (λ entry. entry.1) m.mountpoints)) same
          (omega arith, omega arith, tt)
    newer (suc zero) m at =
        let same : new_mountfs 0 (some root_of) ≡ m = cc at in
        subst (λ (m : MountFs ℕ ℕ). Between 1 2 (map (λ entry. entry.1) m.mountpoints)) same tt
    newer (suc (suc k)) m at = absurd cc

sync_mountfs_lem_example :
    (fs : List ℕ) × Order two (0 ∷ []) fs
    × ((s : Unit {0}) → sync_mountfs inner 2 two 0 s ≡ some (sync_each inner fs s))
sync_mountfs_lem_example = sync_mountfs_lem inner two two-IsOrdered 2 0 (omega arith) (omega arith)

-- From the first file system on.
mount-IsOrdered_example : IsOrdered (mount inner root_of 5 (tt, new_mountfs 0 none ∷ [])).0.1
mount-IsOrdered_example =
    mount-IsOrdered inner (new_mountfs 0 none ∷ []) (first-IsOrdered 0) root_of 5 tt (omega arith)

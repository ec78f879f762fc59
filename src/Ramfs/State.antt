-- ===== src/Ramfs/State.antt =====
-- The shared inodes of rcore-fs-ramfs/src/lib.rs. An `Arc<LockedINode>` or a `Weak` to one is an
-- address, the place of the inode in `nodes`. `dropped` names the inodes that nothing holds any
-- more, to which a `Weak` cannot be upgraded; which those are is left open.
use rcore_fs.Base.{
  ℕ, ◌+◌, ◌==◌, Bool, true, false, ◌||◌, Option, none, some, List, [], ◌∷◌, if◌then◌else◌,
  get_elem?, set,
}
use rcore_fs.Base.Names.{Name}
use rcore_fs.Base.Outcome.{Action, panic}
use rcore_fs.Vfs.{FsError, Metadata, FileType, epoch}

-- `fs` says whether the `Weak<RamFS>` has been set.
pub record RamFsInode : Type 0 where
  pub parent : Option ℕ
  pub this : Option ℕ
  pub children : List (Name × ℕ)
  pub content : List ℕ
  pub extra : Metadata
  pub fs : Bool

-- `next_id` is the counter of `new_inode_id`.
pub record Ram : Type 0 where
  pub nodes : List RamFsInode
  pub next_id : ℕ
  pub dropped : List ℕ

abbrev pub RamAction : Type 0 → Type 0
RamAction A = Action Ram FsError A

abbrev pub contains : List ℕ → ℕ → Bool
contains [] a = false
contains (b ∷ bs) a = (b == a) || contains bs a

-- `Weak::upgrade`.
abbrev pub upgrade : Ram → Option ℕ → Option ℕ
upgrade s none = none
upgrade s (some a) = if contains s.dropped a then none else some a

-- Dereferences an `Arc`; its inode is there.
abbrev pub with_node : {A : Type 0} → ℕ → (RamFsInode → RamAction A) → RamAction A
with_node a k s = elim (get_elem? s.nodes a) [ none ↦ (s, panic) | some n ↦ k n s ]

abbrev pub put_node : Ram → ℕ → RamFsInode → Ram
put_node s a n = record s { nodes = set s.nodes a n }

abbrev pub new_metadata : (inode : ℕ) (type_ : FileType) (mode rdev : ℕ) → Metadata
new_metadata inode type_ mode rdev = record {
  dev = 0;
  inode = inode;
  size = 0;
  blk_size = 0;
  blocks = 0;
  atime = epoch;
  mtime = epoch;
  ctime = epoch;
  type_ = type_;
  mode = mode;
  nlinks = 1;
  uid = 0;
  gid = 0;
  rdev = rdev;
}

-- `RamFS::new`: the root is the inode 0. Its number is its own address in memory, `root_ptr`, and
-- one number of the counter is spent.
unfoldable pub new : (next_id root_ptr : ℕ) → Ram
new next_id root_ptr =
    let extra : Metadata = new_metadata root_ptr FileType.dir 0o777 0 in
    let root : RamFsInode = record {
      parent = some 0;
      this = some 0;
      children = [];
      content = [];
      extra = extra;
      fs = true;
    } in
    record { nodes = root ∷ []; next_id = next_id + 1; dropped = [] }

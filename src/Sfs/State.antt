-- ===== src/Sfs/State.antt =====
-- The state of a mounted SFS, `SimpleFileSystem` of rcore-fs-sfs/src/lib.rs. `inodes` holds the
-- on-disk inode of each `INodeImpl` that is in memory and still referred to, by its number.
use rcore_fs.Base.{ℕ, Bool, Option, some, none, List, ◌==◌, if◌then◌else◌}
use rcore_fs.Base.Outcome.{Action, ok, err, panic, hang}
use rcore_fs.Util.Dirty.{Dirty, assign}
use rcore_fs.Vfs.{FsError, Result}
use rcore_fs.Sfs.Layout.{SuperBlock, DiskINode}
use rcore_fs.Sfs.Device.{Device}

pub record Sfs : Type 0 where
  pub super_block : Dirty SuperBlock
  pub free_map : Dirty (List Bool)
  pub inodes : ℕ → Option (Dirty DiskINode)
  pub device : Device

abbrev pub SfsAction : Type 0 → Type 0
SfsAction A = Action Sfs FsError A

-- `disk_inode` of the `INodeImpl` with the number `id`. Whoever calls a method of it refers to it, so
-- it is in memory.
abbrev pub on_inode : {A : Type 0} → ℕ → (DiskINode → SfsAction A) → SfsAction A
on_inode id k s = elim (s.inodes id) [ none ↦ (s, panic) | some n ↦ k n.value s ]

abbrev pub put_inode : Sfs → ℕ → Option (Dirty DiskINode) → Sfs
put_inode s id n = record s { inodes = λ j. if id == j then n else s.inodes j }

-- A change through `disk_inode.write()`.
abbrev pub change_inode : ℕ → (DiskINode → DiskINode) → SfsAction (Unit {0})
change_inode id f s = elim (s.inodes id) [
  | none ↦ (s, panic)
  | some n ↦ (put_inode s id (some (assign n (f n.value))), ok tt)
]

-- A call that changes the device only.
abbrev pub on_device : (Device → Result Device) → SfsAction (Unit {0})
on_device f s = elim (f s.device) [
  | ok d ↦ (record s { device = d }, ok tt)
  | err e ↦ (s, err e)
  | panic ↦ (s, panic)
  | hang ↦ (s, hang)
]

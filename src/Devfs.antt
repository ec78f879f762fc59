-- ===== src/Devfs.antt =====
-- rcore-fs-devfs/src/lib.rs: a directory of devices. A `DevFS` is its map `devs`, and the devices are
-- inodes `D` of other file systems.
pub mod Devices
mod Tests
use rcore_fs.Base.{
  ℕ, zero, suc, ◌-◌, ◌||◌, Bool, Option, none, some, List, [], ◌∷◌, length, if◌then◌else◌,
}
use rcore_fs.Base.Names.{Name, name_eq, lookup, insert, remove, key_at}
use rcore_fs.Base.Outcome.{Outcome, Action, ok, err, panic, hang}
use rcore_fs.Vfs.{FileType, FsError, FsInfo, Metadata, Result, epoch}

abbrev pub devfs_info : FsInfo
devfs_info = record {
  bsize = 0;
  frsize = 0;
  blocks = 0;
  bfree = 0;
  bavail = 0;
  files = 0;
  ffree = 0;
  namemax = 0;
}

abbrev pub Devs : Type 0 → Type 0
Devs D = List (Name × D)

-- What `find` of the root gives: the root itself, or a device.
pub data DevNode (D : Type 0) : Type 0 where
  root : DevNode D
  device : D → DevNode D

module _ {D : Type 0} where
  abbrev pub new_devfs : Devs D
  new_devfs = []

  unfoldable pub add_dev : Name → D → Action (Devs D) FsError (Unit {0})
  add_dev name dev devs = elim (lookup name devs) [
    | some d ↦ (devs, err FsError.entry_exist)
    | none ↦ (insert name dev devs, ok tt)
  ]

  unfoldable pub remove_dev : Name → Action (Devs D) FsError (Unit {0})
  remove_dev name devs = elim (lookup name devs) [
    | none ↦ (devs, err FsError.entry_not_found)
    | some d ↦ (remove name devs, ok tt)
  ]

  unfoldable pub find_dev : Devs D → Name → Result (DevNode D)
  find_dev devs name =
      if name_eq name (b'.' ∷ []) || name_eq name (b'.' ∷ b'.' ∷ [])
      then ok DevNode.root
      else elim (lookup name devs) [
        | some d ↦ ok (DevNode.device d)
        | none ↦ err FsError.entry_not_found
      ]

  unfoldable pub dev_entry : Devs D → ℕ → Result Name
  dev_entry devs zero = ok (b'.' ∷ [])
  dev_entry devs (suc zero) = ok (b'.' ∷ b'.' ∷ [])
  dev_entry devs (suc (suc i)) = elim (key_at i devs) [
    | some name ↦ ok name
    | none ↦ err FsError.entry_not_found
  ]

  unfoldable pub dev_metadata : Devs D → Metadata
  dev_metadata devs = record {
    dev = 0;
    inode = 1;
    size = length devs;
    blk_size = 0;
    blocks = 0;
    atime = epoch;
    mtime = epoch;
    ctime = epoch;
    type_ = FileType.dir;
    mode = 0x1B6;
    nlinks = 2;
    uid = 0;
    gid = 0;
    rdev = 0;
  }

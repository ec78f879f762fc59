-- ===== src/Sfs/Dir.antt =====
-- The methods of `INodeImpl` in rcore-fs-sfs/src/lib.rs that work on directories. Every inode is one
-- of this file system: `none` stands for one of another, to which the downcast fails.
pub mod Locked
mod Tests
use rcore_fs.Base.{
  ℕ, zero, suc, ◌+◌, ◌-◌, ◌/◌, ◌==◌, Bool, true, false, not, ◌&&◌, Option, none, some, List, ltb,
  leb, if◌then◌else◌,
}
use rcore_fs.Base.Names.{Name, name_eq}
use rcore_fs.Base.Outcome.{
  Outcome, Action, ok, err, panic, hang, pure, fail, crash, lift, must, and_then, on_first, ◌>>=◌,
  ◌>>◌,
}
use rcore_fs.Vfs
use rcore_fs.Vfs.{FsError, Metadata, is_dir_type}
use rcore_fs.Sfs.Layout.{DiskINode, blksize, dirent_size, max_file_size, max_nblock_double_indirect}
use rcore_fs.Sfs.State.{Sfs, SfsAction, on_inode}
use rcore_fs.Sfs.Str.{as_str}
use rcore_fs.Sfs.Content.{write_content}
use rcore_fs.Sfs.Resize.{resize, blocks_for}
use rcore_fs.Sfs.Dirent.{
  DiskEntry, entry_bytes, new_entry, read_direntry, write_direntry, append_direntry,
  remove_direntry, get_file_inode_and_entry_id, get_file_inode_id, dot, dot_dot,
}
use rcore_fs.Sfs.Inode.{
  DiskImage, DeviceINode, DeviceINodes, is_dir, metadata, nlinks_inc, nlinks_dec,
}
use rcore_fs.Sfs.Memory.{
  get_inode, borrow, or_drop, new_inode_file, new_inode_symlink, new_inode_dir,
  new_inode_chardevice,
}

abbrev pub require : Bool → FsError → SfsAction (Unit {0})
require true e = pure tt
require false e = fail e

-- The tests that most methods start with.
unfoldable pub live_dir : ℕ → SfsAction Metadata
live_dir dir = do
  info ← metadata dir
  require (is_dir_type info.type_) FsError.not_dir
  require (not (info.nlinks == 0)) FsError.dir_removed
  pure info

abbrev pub is_none : {A : Type 0} → Option A → Bool
is_none none = true
is_none (some a) = false

unfoldable pub free_name : ℕ → Name → SfsAction (Unit {0})
free_name dir name = do
  inode_id ← get_file_inode_id dir name
  require (is_none inode_id) FsError.entry_exist

module _ (image : DiskImage) where
  -- The new inode of `create2`, by the type.
  pub new_inode_of : (dir : ℕ) → Vfs.FileType → (data_ : ℕ) → SfsAction ℕ
  new_inode_of dir Vfs.FileType.file data_ = new_inode_file image
  new_inode_of dir Vfs.FileType.sym_link data_ = new_inode_symlink image
  new_inode_of dir Vfs.FileType.dir data_ = new_inode_dir image dir
  new_inode_of dir Vfs.FileType.char_device data_ = new_inode_chardevice image data_
  new_inode_of dir Vfs.FileType.block_device data_ = fail FsError.invalid_param
  new_inode_of dir Vfs.FileType.named_pipe data_ = fail FsError.invalid_param
  new_inode_of dir Vfs.FileType.socket data_ = fail FsError.invalid_param

  -- What `create2` does with the new inode: the entry and the link counts.
  pub enter : (dir id : ℕ) → Name → Vfs.FileType → SfsAction (Unit {0})
  enter dir id name type_ = do
    entry ← lift (new_entry id name)
    append_direntry dir entry
    nlinks_inc id
    if is_dir_type type_ then (do nlinks_inc id; nlinks_inc dir) else pure tt

  unfoldable pub create2 : ℕ → Name → Vfs.FileType → (mode data_ : ℕ) → SfsAction ℕ
  unfolding live_dir free_name new_inode_of enter
  create2 dir name type_ mode data_ = do
    info ← live_dir dir
    free_name dir name
    id ← new_inode_of dir type_ data_
    or_drop image id (enter dir id name type_)
    pure id

-- The tests of `link` and `link_inodeimpl`.
unfoldable pub linkable : ℕ → Name → Option ℕ → SfsAction ℕ
unfolding live_dir free_name
linkable dir name other = do
  info ← live_dir dir
  free_name dir name
  child ← (elim other [ none ↦ fail FsError.not_same_fs | some b ↦ pure b ])
  child_info ← metadata child
  require (not (is_dir_type child_info.type_)) FsError.is_dir
  pure child

unfoldable pub link : ℕ → Name → Option ℕ → SfsAction (Unit {0})
unfolding linkable
link dir name other = do
  child ← linkable dir name other
  entry ← lift (new_entry child name)
  append_direntry dir entry
  nlinks_inc child

-- Steps with the inode, if any, whose `disk_inode` the caller has locked for writing.
abbrev pub LockedAction : Type 0 → Type 0
LockedAction A = Action (Sfs × Option ℕ) FsError A

abbrev pub is_held : Option ℕ → ℕ → Bool
is_held none id = false
is_held (some k) id = k == id

-- `disk_inode.write()` of a guard that is kept. The spin lock is not reentrant.
abbrev pub lock_inode : ℕ → LockedAction (Unit {0})
lock_inode id (s, held) = if is_held held id then ((s, held), hang) else ((s, some id), ok tt)

-- A call that locks `disk_inode` of the inode, for reading or for writing, and unlocks it.
abbrev pub locking : {A : Type 0} → ℕ → SfsAction A → LockedAction A
locking id m (s, held) = if is_held held id then ((s, held), hang) else on_first m (s, held)

-- `_resize`, which first locks `disk_inode` behind its two tests of the length.
unfoldable pub resize_locking : (id len : ℕ) → LockedAction (Unit {0})
resize_locking id len =
    if ltb max_file_size len
    then fail FsError.invalid_param
    else if ltb max_nblock_double_indirect (blocks_for len)
    then fail FsError.invalid_param
    else locking id (resize id len)

-- The part of `link_inodeimpl` that locks the directory.
unfoldable pub link_locking : (dir child : ℕ) → DiskEntry → LockedAction (Unit {0})
unfolding resize_locking
link_locking dir child entry = do
  lock_inode dir
  old_size ← on_first (on_inode dir (λ n. pure n.size))
  resize_locking dir (old_size + blksize)
  written ← must (locking dir (write_content dir old_size (entry_bytes entry)))
  locking child (nlinks_inc child)

-- The guard is dropped at the end.
unfoldable pub link_inodeimpl : ℕ → Name → Option ℕ → SfsAction (Unit {0})
unfolding linkable link_locking
link_inodeimpl dir name other = do
  child ← linkable dir name other
  entry ← lift (new_entry child name)
  (λ s. let ((s', held), o) = link_locking dir child entry (s, none) in (s', o))

module _ (image : DiskImage) where
  -- What `unlink` does to the inode that the entry leads to, while it refers to it.
  pub release_entry : (dir inode_id entry_id : ℕ) → SfsAction (Unit {0})
  release_entry dir inode_id entry_id = on_inode inode_id λ n. do
    require (not (is_dir n.type_ && ltb 2 (n.size / dirent_size))) FsError.dir_not_empty
    nlinks_dec inode_id
    if is_dir n.type_ then (do nlinks_dec inode_id; nlinks_dec dir) else pure tt
    remove_direntry dir entry_id

  abbrev pub found_entry : Option (ℕ × ℕ) → SfsAction (ℕ × ℕ)
  found_entry none = fail FsError.entry_not_found
  found_entry (some e) = pure e

  -- "." and ".." cannot be removed or moved.
  pub no_dots : Name → SfsAction (Unit {0})
  no_dots name = do
    require (not (name_eq name dot)) FsError.is_dir
    require (not (name_eq name dot_dot)) FsError.is_dir

  unfoldable pub unlink : ℕ → Name → SfsAction (Unit {0})
  unfolding live_dir no_dots release_entry
  unlink dir name = do
    info ← live_dir dir
    no_dots name
    found ← get_file_inode_and_entry_id dir name
    (inode_id, entry_id) ← found_entry found
    borrow image inode_id (release_entry dir inode_id entry_id)

  -- The end of a `move_` to another directory.
  pub relink_parent : (dir dest inode_id : ℕ) → SfsAction (Unit {0})
  relink_parent dir dest inode_id = do
    info ← metadata inode_id
    if is_dir_type info.type_ then (do nlinks_dec dir; nlinks_inc dest) else pure tt

  unfoldable pub move_ : ℕ → Name → Option ℕ → Name → SfsAction (Unit {0})
  unfolding live_dir no_dots relink_parent
  move_ dir old_name target new_name = do
    info ← live_dir dir
    no_dots old_name
    dest ← (elim target [ none ↦ fail FsError.not_same_fs | some b ↦ pure b ])
    dest_info ← live_dir dest
    replaced ← get_file_inode_and_entry_id dest new_name
    elim replaced [ none ↦ pure tt | some (other, id) ↦ remove_direntry dest id ]
    found ← get_file_inode_and_entry_id dir old_name
    (inode_id, entry_id) ← found_entry found
    entry ← lift (new_entry inode_id new_name)
    if info.inode == dest_info.inode then write_direntry dir entry_id entry else (do
      append_direntry dest entry
      remove_direntry dir entry_id
      borrow image inode_id (relink_parent dir dest inode_id))

  unfoldable pub find : ℕ → Name → SfsAction ℕ
  find dir name = do
    info ← metadata dir
    require (is_dir_type info.type_) FsError.not_dir
    found ← get_file_inode_id dir name
    inode_id ← (elim found [ none ↦ fail FsError.entry_not_found | some i ↦ pure i ])
    get_inode image inode_id

unfoldable pub get_entry : (dir id : ℕ) → SfsAction Name
get_entry dir id = on_inode dir λ n.
    if not (is_dir n.type_)
    then fail FsError.not_dir
    else if leb (n.size / dirent_size) id
    then fail FsError.entry_not_found
    else (do entry ← read_direntry dir id; lift (as_str entry.name))

-- `metadata().unwrap()`.
pub io_control : DeviceINodes → ℕ → (cmd data_ : ℕ) → SfsAction (Unit {0})
io_control devices id cmd data_ = do
  info ← must (metadata id)
  elim info.type_ [
    | Vfs.FileType.char_device ↦ elim (devices info.rdev) [
      | some d ↦ lift (d.io_control cmd data_)
      | none ↦ fail FsError.ioctl_error
    ]
    | _ ↦ fail FsError.ioctl_error
  ]

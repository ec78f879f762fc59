-- ===== src/Sfs/Memory.antt =====
-- The inodes in memory in rcore-fs-sfs/src/lib.rs: `get_inode`, the `new_inode` functions, and what
-- dropping the last `Arc` of an inode does.
use rcore_fs.Base.{ℕ, ◌==◌, true, false, none, some, if◌then◌else◌, get_elem?}
use rcore_fs.Base.Outcome.{ok, err, panic, hang, pure, fail, must, and_then, ◌>>=◌, ◌>>◌}
use rcore_fs.Util.Dirty.{Dirty, new, new_dirty, sync}
use rcore_fs.Vfs.{FsError}
use rcore_fs.Sfs.Layout.{DiskINode, new_file, new_symlink, new_dir, new_chardevice}
use rcore_fs.Sfs.Device.{read_block}
use rcore_fs.Sfs.State.{SfsAction, on_inode, put_inode}
use rcore_fs.Sfs.FreeMap.{alloc_block, free_block}
use rcore_fs.Sfs.Resize.{resize}
use rcore_fs.Sfs.Dirent.{init_direntry}
use rcore_fs.Sfs.Inode.{DiskImage, sync_all}

-- `_new_inode`.
abbrev pub insert_inode : ℕ → Dirty DiskINode → SfsAction ℕ
insert_inode id n s = (put_inode s id (some n), ok id)

module _ (image : DiskImage) where
  -- `load_struct::<DiskINode>(id)`.
  pub load_inode : ℕ → SfsAction DiskINode
  load_inode id s = elim (read_block s.device id 0 image.size_of) [
    | ok xs ↦ (s, ok (image.decode xs))
    | err e ↦ (s, err e)
    | panic ↦ (s, panic)
    | hang ↦ (s, hang)
  ]

  -- `get_inode`: an index behind the map panics as well.
  unfoldable pub get_inode : ℕ → SfsAction ℕ
  unfolding load_inode
  get_inode id s = elim (get_elem? s.free_map.value id) [
    | none ↦ (s, panic)
    | some true ↦ (s, panic)
    | some false ↦ elim (s.inodes id) [
      | some n ↦ (s, ok id)
      | none ↦ (do n ← must (load_inode id); insert_inode id (new n)) s
    ]
  ]

  -- `Drop for INodeImpl`.
  unfoldable pub drop_inode : ℕ → SfsAction (Unit {0})
  drop_inode id = do
    must (sync_all image id)
    on_inode id (λ n.
        if n.nlinks == 0
        then (do
          must (resize id 0)
          (λ s. elim (s.inodes id) [
            | none ↦ (s, panic)
            | some n ↦ (put_inode s id (some (sync n)), ok tt)
          ])
          free_block id)
        else pure tt)
    λ s. (put_inode s id none, ok tt)

  -- The inode is dropped when the call has returned.
  pub then_drop : {A : Type 0} → ℕ → SfsAction A → SfsAction A
  unfolding drop_inode
  then_drop id call s =
      let (s', o) = call s in
      elim o [
        | ok a ↦ (do drop_inode id; pure a) s'
        | err e ↦ (do drop_inode id; fail e) s'
        | panic ↦ (s', panic)
        | hang ↦ (s', hang)
      ]

  -- A call with the `Arc` of an inode, which it does not keep: where nobody else has one, the inode is
  -- loaded before and dropped behind the call.
  unfoldable pub borrow : {A : Type 0} → ℕ → SfsAction A → SfsAction A
  unfolding then_drop
  borrow id call s = elim (s.inodes id) [
    | some n ↦ (do held ← get_inode id; call) s
    | none ↦ (do held ← get_inode id; then_drop id call) s
  ]

  -- A new inode that is dropped again where the call fails.
  pub or_drop : {A : Type 0} → ℕ → SfsAction A → SfsAction A
  unfolding drop_inode
  or_drop id call s =
      let (s', o) = call s in
      elim o [
        | ok a ↦ (s', ok a)
        | err e ↦ (do drop_inode id; fail e) s'
        | panic ↦ (s', panic)
        | hang ↦ (s', hang)
      ]

  -- `alloc_block().ok_or(FsError::NoDeviceSpace)?`.
  abbrev pub alloc_or_fail : SfsAction ℕ
  alloc_or_fail s =
      and_then (alloc_block s)
        (λ b. elim b [ none ↦ fail FsError.no_device_space | some k ↦ pure k ])

  pub new_inode_file : SfsAction ℕ
  new_inode_file = do id ← alloc_or_fail; insert_inode id (new_dirty new_file)

  pub new_inode_symlink : SfsAction ℕ
  new_inode_symlink = do id ← alloc_or_fail; insert_inode id (new_dirty new_symlink)

  pub new_inode_dir : (parent : ℕ) → SfsAction ℕ
  unfolding or_drop
  new_inode_dir parent = do
    id ← alloc_or_fail
    inode ← insert_inode id (new_dirty new_dir)
    or_drop id (do init_direntry id parent; pure id)

  pub new_inode_chardevice : (device_inode_id : ℕ) → SfsAction ℕ
  new_inode_chardevice device_inode_id = do
    id ← alloc_or_fail
    insert_inode id (new_dirty (new_chardevice device_inode_id))

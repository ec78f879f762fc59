-- ===== src/Sfs/Inode.antt =====
-- The methods of `INodeImpl` in rcore-fs-sfs/src/lib.rs that stay on one inode.
use rcore_fs.Base.{
  ℕ, ◌+◌, ◌-◌, ◌%◌, ◌^◌, Bool, true, false, Option, none, some, List, ltb, ◌==◌, if◌then◌else◌,
  length,
}
use rcore_fs.Base.Outcome.{ok, err, panic, pure, fail, crash, lift, and_then, ◌>>=◌, ◌>>◌}
use rcore_fs.Util.Dirty.{sync}
use rcore_fs.Vfs.{FsError, Result, Metadata, PollStatus}
use rcore_fs.Sfs.Layout.{DiskINode, FileType, blksize, to_vfs}
use rcore_fs.Sfs.Device.{write_block}
use rcore_fs.Sfs.State.{SfsAction, on_inode, put_inode, change_inode, on_device}
use rcore_fs.Sfs.Content.{IoAction, read_content, write_content}
use rcore_fs.Sfs.Resize.{resize}

-- The bytes of a `DiskINode` in memory, which the compiler lays out: as many for each.
pub record DiskImage : Type 0 where
  pub size_of : ℕ
  pub encode : DiskINode → List ℕ
  pub decode : List ℕ → DiskINode

-- A device file's own inode, `dyn vfs::INode`, which is not of this crate. A read takes the buffer and
-- gives it back.
pub record DeviceINode : Type 0 where
  pub read_at : (offset : ℕ) → List ℕ → List ℕ × Result ℕ
  pub write_at : (offset : ℕ) → List ℕ → Result ℕ
  pub io_control : (cmd data_ : ℕ) → Result (Unit {0})

-- `device_inodes`, which the mounted file system keeps beside its other state.
abbrev pub DeviceINodes : Type 0
DeviceINodes = ℕ → Option DeviceINode

abbrev pub new_device_inode : DeviceINodes → ℕ → DeviceINode → DeviceINodes
new_device_inode devices id d j = if id == j then some d else devices j

abbrev pub is_dir : FileType → Bool
is_dir FileType.dir = true
is_dir _ = false

-- A `u16`, which wraps.
pub nlinks_inc : ℕ → SfsAction (Unit {0})
nlinks_inc id = change_inode id (λ n. record n { nlinks = (n.nlinks + 1) % 2 ^ 16 })

pub nlinks_dec : ℕ → SfsAction (Unit {0})
nlinks_dec id =
    on_inode id λ n.
      if n.nlinks == 0 then crash else change_inode id (λ n. record n { nlinks = n.nlinks - 1 })

module _ (devices : DeviceINodes) where
  unfoldable pub read_at : (id offset : ℕ) → IoAction (List ℕ) ℕ
  read_at id offset (s, buf) = elim (s.inodes id) [
    | none ↦ ((s, buf), panic)
    | some n ↦ elim n.value.type_ [
      | FileType.file ↦ read_content id offset (s, buf)
      | FileType.sym_link ↦ read_content id offset (s, buf)
      | FileType.char_device ↦ elim (devices n.value.device_inode_id) [
        | some d ↦ (let (buf', o) = d.read_at offset buf in ((s, buf'), o))
        | none ↦ ((s, buf), err FsError.device_error)
      ]
      | FileType.invalid ↦ ((s, buf), err FsError.not_file)
      | FileType.dir ↦ ((s, buf), err FsError.not_file)
      | FileType.block_device ↦ ((s, buf), err FsError.not_file)
    ]
  ]

  -- A write to a file or a symbolic link.
  pub write_file : (id offset : ℕ) → List ℕ → SfsAction ℕ
  write_file id offset buf = on_inode id λ n. do
    if ltb n.size (offset + length buf) then resize id (offset + length buf) else pure tt
    write_content id offset buf

  unfoldable pub write_at : (id offset : ℕ) → List ℕ → SfsAction ℕ
  unfolding write_file
  write_at id offset buf = on_inode id λ n. elim n.type_ [
    | FileType.file ↦ write_file id offset buf
    | FileType.sym_link ↦ write_file id offset buf
    | FileType.char_device ↦ elim (devices n.device_inode_id) [
      | some d ↦ lift (d.write_at offset buf)
      | none ↦ fail FsError.device_error
    ]
    | FileType.invalid ↦ fail FsError.not_file
    | FileType.dir ↦ fail FsError.not_file
    | FileType.block_device ↦ fail FsError.not_file
  ]

pub poll : ℕ → SfsAction PollStatus
poll id = pure (record { read = true; write = true; error = false })

-- The `size` of the metadata; `Invalid` panics.
abbrev pub size_of_type : FileType → ℕ → Result ℕ
size_of_type FileType.file size = ok size
size_of_type FileType.sym_link size = ok size
size_of_type FileType.dir size = ok size
size_of_type FileType.char_device size = ok 0
size_of_type FileType.block_device size = ok 0
size_of_type FileType.invalid size = panic

unfoldable pub metadata : ℕ → SfsAction Metadata
unfolding to_vfs
metadata id = on_inode id λ n. do
  size ← lift (size_of_type n.type_ n.size)
  type_ ← lift (to_vfs n.type_)
  pure (record {
    dev = 0;
    inode = id;
    size = size;
    blk_size = blksize;
    blocks = n.blocks;
    atime = n.atime;
    mtime = n.mtime;
    ctime = n.ctime;
    type_ = type_;
    mode = 0x1ff;
    nlinks = n.nlinks;
    uid = 0;
    gid = 0;
    rdev = n.device_inode_id;
  })

pub set_metadata : ℕ → Metadata → SfsAction (Unit {0})
set_metadata id m =
    change_inode id (λ n. record n { atime = m.atime; mtime = m.mtime; ctime = m.ctime })

-- `sync_data` is the same.
unfoldable pub sync_all : DiskImage → ℕ → SfsAction (Unit {0})
sync_all image id s = elim (s.inodes id) [
  | none ↦ (s, panic)
  | some n ↦
      if n.dirty
      then and_then (on_device (λ d. write_block d id 0 (image.encode n.value)) s)
          (λ x s. (put_inode s id (some (sync n)), ok tt))
      else (s, ok tt)
]

-- `INode::resize`, which looks at the type first.
pub resize_file : (id len : ℕ) → SfsAction (Unit {0})
resize_file id len = on_inode id λ n. elim n.type_ [
  | FileType.file ↦ resize id len
  | FileType.sym_link ↦ resize id len
  | FileType.char_device ↦ fail FsError.not_file
  | FileType.invalid ↦ fail FsError.not_file
  | FileType.dir ↦ fail FsError.not_file
  | FileType.block_device ↦ fail FsError.not_file
]

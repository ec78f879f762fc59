-- ===== src/Sfs/Layout.antt =====
-- The constants and on-disk structures of rcore-fs-sfs/src/structs.rs. A `u16`, `u32` or `usize`
-- field is a number, and what computes with one wraps at its width.
use rcore_fs.Base.{ℕ, ◌+◌, ◌*◌, ◌/◌, ◌^◌, Bool, List, ◌==◌, replicate}
use rcore_fs.Base.Outcome.{ok, panic}
use rcore_fs.Vfs
use rcore_fs.Vfs.{Timespec, epoch}

abbrev pub nodevice : ℕ
nodevice = 100

abbrev pub magic : ℕ
magic = 0x2f8dbe2b

abbrev pub blksize_log2 : ℕ
blksize_log2 = 12

abbrev pub blksize : ℕ
blksize = 2 ^ 12

abbrev pub ndirect : ℕ
ndirect = 12

abbrev pub max_fname_len : ℕ
max_fname_len = 255

abbrev pub max_file_size : ℕ
max_file_size = 0xffff_ffff

abbrev pub blkn_super : ℕ
blkn_super = 0

abbrev pub blkn_root : ℕ
blkn_root = 1

abbrev pub blkn_freemap : ℕ
blkn_freemap = 2

abbrev pub blkbits : ℕ
blkbits = blksize * 8

abbrev pub entry_size : ℕ
entry_size = 4

abbrev pub blk_nentry : ℕ
blk_nentry = blksize / entry_size

abbrev pub dirent_size : ℕ
dirent_size = max_fname_len + 1 + entry_size

abbrev pub max_nblock_direct : ℕ
max_nblock_direct = ndirect

abbrev pub max_nblock_indirect : ℕ
max_nblock_indirect = ndirect + blk_nentry

abbrev pub max_nblock_double_indirect : ℕ
max_nblock_double_indirect = ndirect + blk_nentry + blk_nentry * blk_nentry

pub data FileType : Type 0 where
  invalid file dir sym_link char_device block_device : FileType

-- `From<FileType> for vfs::FileType`, which panics on `Invalid`.
unfoldable pub to_vfs : FileType → Vfs.Result Vfs.FileType
to_vfs FileType.file = ok Vfs.FileType.file
to_vfs FileType.sym_link = ok Vfs.FileType.sym_link
to_vfs FileType.dir = ok Vfs.FileType.dir
to_vfs FileType.char_device = ok Vfs.FileType.char_device
to_vfs FileType.block_device = ok Vfs.FileType.block_device
to_vfs FileType.invalid = panic

-- `info` holds the bytes of a `Str32`.
pub record SuperBlock : Type 0 where
  pub magic : ℕ
  pub blocks : ℕ
  pub unused_blocks : ℕ
  pub info : List ℕ
  pub freemap_blocks : ℕ

unfoldable pub check : SuperBlock → Bool
check sb = sb.magic == magic

pub record DiskINode : Type 0 where
  pub size : ℕ
  pub type_ : FileType
  pub nlinks : ℕ
  pub blocks : ℕ
  pub direct : List ℕ
  pub indirect : ℕ
  pub db_indirect : ℕ
  pub device_inode_id : ℕ
  pub atime : Timespec
  pub mtime : Timespec
  pub ctime : Timespec

-- What the four constructors share.
abbrev new_inode : FileType → ℕ → DiskINode
new_inode t device_inode_id = record {
  size = 0;
  type_ = t;
  nlinks = 0;
  blocks = 0;
  direct = replicate ndirect 0;
  indirect = 0;
  db_indirect = 0;
  device_inode_id = device_inode_id;
  atime = epoch;
  mtime = epoch;
  ctime = epoch;
}

abbrev pub new_file : DiskINode
new_file = new_inode FileType.file nodevice

abbrev pub new_symlink : DiskINode
new_symlink = new_inode FileType.sym_link nodevice

abbrev pub new_dir : DiskINode
new_dir = new_inode FileType.dir nodevice

abbrev pub new_chardevice : ℕ → DiskINode
new_chardevice device_inode_id = new_inode FileType.char_device device_inode_id

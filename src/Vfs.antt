-- ===== src/Vfs.antt =====
-- The data of rcore-fs/src/vfs.rs that the file systems share.
pub mod Path
pub mod Walk
pub mod Ends
pub mod Descend
pub mod Listing
mod Tests
use rcore_fs.Base.{ℕ, Bool, true, false}
use rcore_fs.Base.Outcome.{Outcome}

pub data FileType : Type 0 where
  file dir sym_link char_device block_device named_pipe socket : FileType

pub data FsError : Type 0 where
  not_supported not_file is_dir not_dir entry_not_found entry_exist not_same_fs : FsError
  invalid_param no_device_space dir_removed dir_not_empty wrong_fs device_error : FsError
  ioctl_error no_device again sym_loop busy : FsError

-- The seconds and nanoseconds are only moved, never computed with, so each is any number.
pub record Timespec : Type 0 where
  pub sec : ℕ
  pub nsec : ℕ

pub record Metadata : Type 0 where
  pub dev : ℕ
  pub inode : ℕ
  pub size : ℕ
  pub blk_size : ℕ
  pub blocks : ℕ
  pub atime : Timespec
  pub mtime : Timespec
  pub ctime : Timespec
  pub type_ : FileType
  pub mode : ℕ
  pub nlinks : ℕ
  pub uid : ℕ
  pub gid : ℕ
  pub rdev : ℕ

pub record PollStatus : Type 0 where
  pub read : Bool
  pub write : Bool
  pub error : Bool

pub record FsInfo : Type 0 where
  pub bsize : ℕ
  pub frsize : ℕ
  pub blocks : ℕ
  pub bfree : ℕ
  pub bavail : ℕ
  pub files : ℕ
  pub ffree : ℕ
  pub namemax : ℕ

-- `Result<T>`, and how a call may end besides.
abbrev pub Result : Type 0 → Type 0
Result A = Outcome FsError A

abbrev pub is_dir_type : FileType → Bool
is_dir_type FileType.dir = true
is_dir_type _ = false

abbrev pub is_file_type : FileType → Bool
is_file_type FileType.file = true
is_file_type _ = false

abbrev pub is_sym_link_type : FileType → Bool
is_sym_link_type FileType.sym_link = true
is_sym_link_type _ = false

abbrev pub epoch : Timespec
epoch = record { sec = 0; nsec = 0 }

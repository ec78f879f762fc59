-- ===== src/Sfs.antt =====
-- rcore-fs-sfs: the simple file system.
mod Sample
pub mod Layout
pub mod Device
pub mod Str
pub mod State
pub mod FreeMap
pub mod Format
pub mod BlockMap
pub mod Content
pub mod Resize
pub mod Dirent
pub mod Inode
pub mod Memory
pub mod Dir
pub mod Image
pub mod Mount

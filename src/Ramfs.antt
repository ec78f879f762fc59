-- ===== src/Ramfs.antt =====
-- rcore-fs-ramfs/src/lib.rs: the file system in memory.
pub mod State
pub mod File
pub mod Dir
pub mod Content
pub mod Link
pub mod Create
pub mod Links
mod Tests

-- ===== src/Dev.antt =====
-- Block devices and their byte access: rcore-fs/src/dev/mod.rs.
pub mod Interface
pub mod Bytes
pub mod Lru
pub mod Cache

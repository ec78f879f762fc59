-- ===== src/Util.antt =====
-- rcore-fs/src/util.rs (the iterator over the blocks of a byte range) and rcore-fs/src/dirty.rs.
pub mod BlockIter
pub mod Dirty

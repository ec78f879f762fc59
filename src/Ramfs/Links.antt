-- ===== src/Ramfs/Links.antt =====
-- The link counts of rcore-fs-ramfs/src/lib.rs.
pub mod Count
pub mod Invariant
pub mod Steps
pub mod Moves
pub mod Fresh
pub mod Run

-- ===== src/Lib.antt =====
-- The file systems of rcore-fs: models of the crates and theorems about them.
--
-- Parts of the program and how they meet. rcore-fs (rcore-fs/src) defines the interface of inodes and
-- file systems and the tools that the file systems share: the walk of a path, the iterator over the
-- blocks of a byte range, the byte access to a device of blocks, and the flag of values that must be
-- written back. The crates beside it implement the interface: the simple file system SFS
-- (rcore-fs-sfs/src) on a block device, RamFS (rcore-fs-ramfs/src) in memory, MountFS
-- (rcore-fs-mountfs/src), which puts file systems on the inodes of others, and DevFS
-- (rcore-fs-devfs/src), a directory of devices.
--
-- Files:
--   Base         names of the library, lists, Boolean tests; Base/Outcome and Base/Fallible are the
--                results of a call: a value, an error, a panic, or a hang where the code takes a lock
--                that it already holds; Base/Names is the map from names, a `BTreeMap`;
--   Vfs          rcore-fs/src/vfs.rs: the data types; Vfs/Path and Vfs/Walk are `list`, `lookup` and
--                `lookup_follow` over the calls of any file system;
--   Util         Util/BlockIter is rcore-fs/src/util.rs; Util/Dirty is rcore-fs/src/dirty.rs;
--   Dev          rcore-fs/src/dev/mod.rs: Dev/Interface is the trait `BlockDevice` and its contract,
--                Dev/Bytes the byte access of `Device` to every such device; Dev/Lru and Dev/Cache are
--                rcore-fs/src/dev/block_cache.rs, a block device over another one;
--   Sfs          Sfs/Layout and Sfs/Str are rcore-fs-sfs/src/structs.rs; the rest is
--                rcore-fs-sfs/src/lib.rs: Sfs/Device the access to the device, Sfs/State the state
--                `SimpleFileSystem`, Sfs/FreeMap `alloc_block`, `free_block` and `BitsetAlloc`,
--                Sfs/BlockMap `get_disk_block_id` and `set_disk_block_id`, Sfs/Content `_io_at`,
--                `_read_at`, `_write_at` and `_clean_at`, Sfs/Resize `_resize`, Sfs/Dirent the
--                entries of a directory, Sfs/Inode the methods on one inode, Sfs/Dir those on
--                directories, Sfs/Memory the inodes in memory, Sfs/Format the layout of `create`,
--                Sfs/Image the bytes on the disk, and Sfs/Mount `open`, `create` and `sync`;
--   Ramfs        rcore-fs-ramfs/src/lib.rs: Ramfs/State is the store, Ramfs/File the operations on
--                one inode, Ramfs/Dir those on directories; Ramfs/Links is about their link counts;
--   Mountfs      rcore-fs-mountfs/src/lib.rs over the calls of any file systems; Mountfs/Tree and
--                Mountfs/Overlay are about `find` and `mount`, Mountfs/Synced and Mountfs/Ordered about
--                `sync`;
--   Devfs        rcore-fs-devfs/src/lib.rs, and Devfs/Devices is about the devices that are found.
--
-- State. A call that changes state takes it and returns it beside its outcome, also where it fails or
-- panics. The inodes of RamFS are shared behind `Arc` and changed by several calls, so the model has
-- a store: an inode is a number, and a directory maps names to numbers. Inodes stay in the store when
-- their last `Arc` is dropped; the list `dropped` says which `Weak` pointers cannot be upgraded any
-- more, and is left open. Calls do not overlap: a call runs under the locks it takes. The block
-- device of SFS is a store of bytes of a fixed size, and `Dirty` values stand for themselves. An
-- inode of SFS is in memory as long as something refers to it: `borrow` is a call that gets one and
-- drops it at the end. A lock that the code keeps over a call is part of the state there
-- (`LockedAction` of Sfs/Dir), and a call that waits for a lock its caller holds hangs. A buffer
-- that the code leaves uninitialised counts as zeros. The bytes of a `DiskINode`, which the
-- compiler lays out, those of a bit vector, and the inodes of character devices are parameters.
--
-- Bounds. Numbers of `usize` are natural numbers: the sums are offsets in memory or on a disk and
-- stay below 2 ^ 64. The `u32` words of SFS wrap or are cut off where the code does so. Words on
-- the disk are little-endian. The loop over a `BlockIter` runs on fuel; more fuel than bytes in the
-- range is enough, since each range takes a byte at least. The walk of a path runs on fuel; one
-- round for every byte and 258 for every symbolic link that may be followed are enough. `list`
-- needs one round more than there are entries, and `find` of MountFS one more than the number of
-- file systems that were made before the node's; its `sync` needs as many as were made from the
-- first one that it writes on. Every other loop is a recursion on a list or on the number of its
-- rounds.
--
-- Not modelled: SEFS and LFS; the special devices of DevFS; `find_name_by_child` of MountFS and its
-- methods that only pass a call on; calls of several threads that overlap; input and output on the
-- host (HostFS, FUSE, the adapters of std), the bindings to uCore and SGX, and the wrapper of the ext2
-- crate, which have no logic of their own.
pub mod Base
pub mod Util
pub mod Dev
pub mod Vfs
pub mod Mountfs
pub mod Devfs
pub mod Sfs
pub mod Ramfs

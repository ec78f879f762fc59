-- ===== src/Sfs/Mount.antt =====
-- `SimpleFileSystem` as a whole in rcore-fs-sfs/src/lib.rs: `open`, `create`, `sync`, `root_inode`,
-- `info`.
pub mod Blocks
pub mod Reopen
mod Tests
use rcore_fs.Base.{
  ℕ, zero, suc, ◌+◌, ◌-◌, ◌*◌, ◌≤◌, Bool, true, false, Option, none, some, List, [], ◌∷◌, ◌++◌, leb,
  if◌then◌else◌, length, take, drop,
}
use rcore_fs.Base.Outcome.{
  Outcome, Action, ok, err, panic, hang, pure, fail, crash, lift, must, and_then, ◌>>=◌, ◌>>◌,
}
use rcore_fs.Util.Dirty.{Dirty, new, new_dirty, sync}
use rcore_fs.Vfs.{FsError, Result, FsInfo}
use rcore_fs.Sfs.Layout.{
  SuperBlock, DiskINode, check, new_dir, blksize, blkn_super, blkn_root, blkn_freemap,
  max_fname_len,
}
use rcore_fs.Sfs.Device.{Device, read_block, store}
use rcore_fs.Sfs.State.{Sfs, SfsAction, on_inode, put_inode}
use rcore_fs.Sfs.Format.{lay_out}
use rcore_fs.Sfs.Dirent.{init_direntry}
use rcore_fs.Sfs.Inode.{DiskImage, sync_all, nlinks_inc}
use rcore_fs.Sfs.Memory.{insert_inode, get_inode, drop_inode}
use rcore_fs.Sfs.Image.{super_size, super_bytes, super_of, BitImage}

-- The blocks of the free map, `n` of them from the number `i` on.
pub read_freemap : Device → (i n : ℕ) → Result (List ℕ)
read_freemap d i zero = ok []
read_freemap d i (suc n) = elim (read_block d (blkn_freemap + i) 0 blksize) [
  | ok xs ↦ elim (read_freemap d (i + 1) n) [
    | ok ys ↦ ok (xs ++ ys)
    | err e ↦ err e
    | panic ↦ panic
    | hang ↦ hang
  ]
  | err e ↦ err e
  | panic ↦ panic
  | hang ↦ hang
]

unfoldable pub open_fs : BitImage → Device → Result Sfs
unfolding read_freemap check
open_fs bit_image d = elim (read_block d blkn_super 0 super_size) [
  | ok xs ↦
      let sb = super_of xs in
      if check sb
      then (elim (read_freemap d 0 sb.freemap_blocks) [
        | ok map ↦ ok (record {
          super_block = new sb;
          free_map = new (bit_image.of_bytes map);
          inodes = λ _. none;
          device = d;
        })
        | err e ↦ err e
        | panic ↦ panic
        | hang ↦ hang
      ])
      else err FsError.wrong_fs
  | err e ↦ err e
  | panic ↦ panic
  | hang ↦ hang
]

-- `device.write_at(...)?` of `sync`: fewer bytes are written where the device ends, and the number is
-- not looked at.
abbrev pub write_part : Device → (offset : ℕ) → List ℕ → Device
write_part d offset xs = record d { byte = store d.byte offset (take (d.size - offset) xs) }

-- The loop over the blocks of the free map; the slice of `data` panics out of range.
pub write_freemap : List ℕ → (i n : ℕ) → SfsAction (Unit {0})
write_freemap data_ i zero = pure tt
write_freemap data_ i (suc n) = do
  λ s.
      if leb ((i + 1) * blksize) (length data_)
      then (
        record s {
          device =
              write_part s.device (blksize * (blkn_freemap + i))
                (take blksize (drop (i * blksize) data_));
        },
        ok tt,
      )
      else (s, panic)
  write_freemap data_ (i + 1) n

pub sync_super : SfsAction (Unit {0})
sync_super s =
    if s.super_block.dirty
    then (
      record s {
        device = write_part s.device (blksize * blkn_super) (super_bytes s.super_block.value);
        super_block = sync s.super_block;
      },
      ok tt,
    )
    else (s, ok tt)

pub sync_freemap : BitImage → SfsAction (Unit {0})
unfolding write_freemap
sync_freemap bit_image s =
    if s.free_map.dirty
    then and_then
        (write_freemap (bit_image.as_bytes s.free_map.value) 0 s.super_block.value.freemap_blocks s)
        (λ x s. (record s { free_map = sync s.free_map }, ok tt))
    else (s, ok tt)

module _ (image : DiskImage) where
  -- The inodes in memory, in the order of their numbers, which are numbers of blocks.
  pub sync_inodes : (id n : ℕ) → SfsAction (Unit {0})
  sync_inodes id zero = pure tt
  sync_inodes id (suc n) = do
    λ s. elim (s.inodes id) [ none ↦ (s, ok tt) | some inode ↦ sync_all image id s ]
    sync_inodes (id + 1) n

  -- `flush_weak_inodes` forgets what is not in memory any more. Syncing the device changes no byte.
  unfoldable pub sync_fs : BitImage → SfsAction (Unit {0})
  unfolding sync_super sync_freemap sync_inodes
  sync_fs bit_image = do
    sync_super
    sync_freemap bit_image
    λ s. sync_inodes 0 (length s.free_map.value) s

  -- The root of a new file system; its `Arc` is dropped at the end.
  pub init_root : SfsAction (Unit {0})
  init_root = do
    root ← insert_inode blkn_root (new_dirty new_dir)
    init_direntry blkn_root blkn_root
    nlinks_inc blkn_root
    nlinks_inc blkn_root
    sync_all image blkn_root
    drop_inode image blkn_root

  unfoldable pub create : Device → (space : ℕ) → Result Sfs
  unfolding init_root
  create d space = elim (lay_out space) [
    | ok (sb, map) ↦
        let (s, o) = init_root (record {
          super_block = new_dirty sb;
          free_map = new_dirty map;
          inodes = λ _. none;
          device = d;
        }) in
        elim o [ ok x ↦ ok s | err e ↦ err e | panic ↦ panic | hang ↦ hang ]
    | err e ↦ err e
    | panic ↦ panic
    | hang ↦ hang
  ]

  pub root_inode : SfsAction ℕ
  root_inode = get_inode image blkn_root

  -- `Drop for SimpleFileSystem`.
  pub drop_fs : BitImage → SfsAction (Unit {0})
  drop_fs bit_image = must (sync_fs bit_image)

pub fs_info : Sfs → FsInfo
fs_info s = record {
  bsize = blksize;
  frsize = blksize;
  blocks = s.super_block.value.blocks;
  bfree = s.super_block.value.unused_blocks;
  bavail = s.super_block.value.unused_blocks;
  files = s.super_block.value.blocks;
  ffree = s.super_block.value.unused_blocks;
  namemax = max_fname_len;
}

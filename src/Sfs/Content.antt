-- ===== src/Sfs/Content.antt =====
-- The content of a file in rcore-fs-sfs/src/lib.rs: `_io_at`, `_read_at`, `_write_at`, `_clean_at` of
-- `INodeImpl`.
pub mod File
pub mod Loop
pub mod Read
pub mod Stored
pub mod Write
mod Tests
use rcore_fs.Base.{
  ℕ, zero, suc, ◌+◌, ◌-◌, ◌*◌, ◌≤◌, min, Bool, Option, none, some, List, [], ◌∷◌, leb,
  if◌then◌else◌, length, take, drop, replicate,
}
use rcore_fs.Base.Slices.{copy_into}
use rcore_fs.Base.Outcome.{
  Outcome, Action, ok, err, panic, hang, pure, lift, on_first, and_then, ◌>>=◌, ◌>>◌,
}
use rcore_fs.Util.BlockIter.{BlockIter, BlockRange, ranges, len}
use rcore_fs.Vfs.{FsError}
use rcore_fs.Sfs.Layout.{DiskINode, blksize, blksize_log2}
use rcore_fs.Sfs.Device.{Device, read_block, write_block}
use rcore_fs.Sfs.State.{Sfs, SfsAction, on_inode, on_device}
use rcore_fs.Sfs.BlockMap.{get_disk_block_id}

-- The calls of `_io_at` run on the file system and on what the closure `f` changes besides.
abbrev pub IoAction : Type 0 → Type 0 → Type 0
IoAction X A = Action (Sfs × X) FsError A

unfoldable pub block_of_file : (id file_block_id : ℕ) → SfsAction ℕ
block_of_file id i = on_inode id λ n s. (s, get_disk_block_id n s.device i)

module _ {X : Type 0} (id : ℕ) (f : BlockRange → ℕ → IoAction X (Unit {0})) where
  -- The loop of `_io_at`, from the buffer offset `offset` on.
  pub io_ranges : List BlockRange → (offset : ℕ) → IoAction X ℕ
  unfolding block_of_file
  io_ranges [] offset = pure offset
  io_ranges (r ∷ rs) offset = do
    block ← on_first (block_of_file id r.block)
    f (record r { block = block }) offset
    io_ranges rs (offset + len r)

  pub io_at : (begin end : ℕ) → IoAction X ℕ
  unfolding io_ranges
  io_at begin end (s, x) = elim (s.inodes id) [
    | none ↦ ((s, x), panic)
    | some n ↦
        let size = n.value.size in
        elim (ranges (suc (min size end))
          (record { begin = min size begin; end = min size end; block_size_log2 = blksize_log2 })) [
            | none ↦ ((s, x), hang)
            | some rs ↦ io_ranges rs 0 (s, x)
          ]
  ]

-- The closures.
pub read_piece : BlockRange → ℕ → IoAction (List ℕ) (Unit {0})
read_piece r offset (s, buf) = elim (read_block s.device r.block r.begin (len r)) [
  | ok xs ↦ ((s, copy_into buf offset xs), ok tt)
  | err e ↦ ((s, buf), err e)
  | panic ↦ ((s, buf), panic)
  | hang ↦ ((s, buf), hang)
]

pub write_piece : List ℕ → BlockRange → ℕ → IoAction (Unit {0}) (Unit {0})
write_piece buf r offset =
    on_first (on_device (λ d. write_block d r.block r.begin (take (len r) (drop offset buf))))

-- `&ZEROS[..range.len()]` panics where the range is longer than a block.
pub clean_piece : BlockRange → ℕ → IoAction (Unit {0}) (Unit {0})
clean_piece r offset =
    if leb (len r) blksize
    then on_first (on_device (λ d. write_block d r.block r.begin (replicate (len r) 0)))
    else lift panic

-- `_read_at`: the buffer is a part of the state.
unfoldable pub read_content : (id offset : ℕ) → IoAction (List ℕ) ℕ
unfolding io_at read_piece
read_content id offset (s, buf) = io_at id read_piece offset (offset + length buf) (s, buf)

abbrev forget : {A : Type 0} → IoAction (Unit {0}) A → SfsAction A
forget m s = let ((s', x), o) = m (s, tt) in (s', o)

-- `_write_at`.
unfoldable pub write_content : (id offset : ℕ) → List ℕ → SfsAction ℕ
unfolding io_at write_piece
write_content id offset buf = forget (io_at id (write_piece buf) offset (offset + length buf))

-- `_clean_at`.
unfoldable pub clean_content : (id begin end : ℕ) → SfsAction ℕ
unfolding io_at clean_piece
clean_content id begin end = forget (io_at id clean_piece begin end)

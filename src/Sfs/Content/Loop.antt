-- ===== src/Sfs/Content/Loop.antt =====
-- The loop of `_io_at` (rcore-fs-sfs/src/lib.rs), for any closure that keeps an invariant.
use mathlib.Core.Path.{subst}
use rcore_fs.Base.{ℕ, suc, ◌+◌, ◌-◌, ◌≤◌, ◌<◌, ◌≡◌, ap, ◌∙◌, min, some, List, [], ◌∷◌, arith}
use rcore_fs.Base.Outcome.{ok}
use rcore_fs.Util.BlockIter.{BlockIter, BlockRange, len, origin_begin, origin_end}
use rcore_fs.Util.BlockIter.Cover.{Tiles, ranges-Tiles}
use rcore_fs.Util.Dirty.{Dirty}
use rcore_fs.Sfs.Layout.{DiskINode, blksize, blksize_log2}
use rcore_fs.Sfs.State.{Sfs}
use rcore_fs.Sfs.Content.{IoAction, block_of_file, io_ranges, io_at}

-- Where the calls for a range start at the byte `c` of the file: the block is found, the closure
-- succeeds, and the invariant holds at the end of the range.
abbrev pub Keeps :
    {X : Type 0} (id : ℕ) (f : BlockRange → ℕ → IoAction X (Unit {0})) (begin stop : ℕ)
    → (ℕ → Sfs × X → Type 0)
    → Type 0
Keeps {X} id f begin stop I =
    (r : BlockRange) (c : ℕ) (st : Sfs × X)
    → r.block_size_log2 ≡ blksize_log2
    → origin_begin r ≡ c
    → r.begin < r.end
    → r.end ≤ blksize
    → origin_end r ≤ stop
    → begin ≤ c
    → I c st
    → (block : ℕ) × (st' : Sfs × X) × (block_of_file id r.block st.0 ≡ (st.0, ok block))
      × (f (record r { block = block }) (c - begin) st ≡ (st', ok tt))
      × I (origin_end r) st'

module _ {X : Type 0} (id : ℕ) (f : BlockRange → ℕ → IoAction X (Unit {0})) where
  io_ranges-step :
      (r : BlockRange) (rs : List BlockRange) (block offset : ℕ) (st st' : Sfs × X)
      → block_of_file id r.block st.0 ≡ (st.0, ok block)
      → f (record r { block = block }) offset st ≡ (st', ok tt)
      → io_ranges id f (r ∷ rs) offset st ≡ io_ranges id f rs (offset + len r) st'
  unfolding io_ranges
  io_ranges-step r rs block offset st st' e e' = ground (arith, e, e')

  module _ (begin stop : ℕ) (I : ℕ → Sfs × X → Type 0) (keeps : Keeps id f begin stop I) where
    io_ranges_lem :
        (c offset : ℕ) (rs : List BlockRange) (st : Sfs × X)
        → Tiles blksize_log2 c stop rs
        → begin ≤ c
        → offset ≡ c - begin
        → I c st
        → (st' : Sfs × X) × (io_ranges id f rs offset st ≡ (st', ok (stop - begin))) × I stop st'
    unfolding io_ranges
    io_ranges_lem c offset [] st tiles low e i =
        (st, ap (λ k. (st, ok k)) (omega arith), subst (λ k. I k st) tiles i)
    io_ranges_lem c offset (r ∷ rs) st tiles low e i =
        let (block, st1, found, done, i1) =
          keeps r c st tiles.0 tiles.1 tiles.2 (omega (arith, tiles)) tiles.5 low i in
        let (st2, rest, i2) =
          io_ranges_lem (origin_end r) (offset + len r) rs st1 tiles.6 (omega (arith, tiles))
            (omega (arith, tiles)) i1 in
        (
          st2,
          io_ranges-step r rs block offset st st1 found
                (ap (λ k. f (record r { block = block }) k st) e ∙ done)
              ∙ rest,
          i2,
        )

  -- The whole call: it returns as many bytes as the range has inside the file.
  pub io_at_lem :
      (n : Dirty DiskINode) (begin end : ℕ) (I : ℕ → Sfs × X → Type 0) (st : Sfs × X)
      → st.0.inodes id ≡ some n
      → begin ≤ end
      → Keeps id f (min n.value.size begin) (min n.value.size end) I
      → I (min n.value.size begin) st
      → (st' : Sfs × X) × (io_at id f begin end st
          ≡ (st', ok (min n.value.size end - min n.value.size begin)))
        × I (min n.value.size end) st'
  unfolding io_at
  io_at_lem n begin end I st here ordered keeps i =
      let size = n.value.size in
      let it : BlockIter = record {
        begin = min size begin;
        end = min size end;
        block_size_log2 = blksize_log2;
      } in
      let (rs, found, tiles) = ranges-Tiles (suc (min size end)) it (omega arith) (omega arith) in
      let (st', e, i') =
        io_ranges_lem (min size begin) (min size end) I keeps (min size begin) 0 rs st tiles
          (omega arith) (omega arith) i in
      (st', rw (io_at, here, found) e, i')

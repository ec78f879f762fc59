-- ===== src/Dev/Bytes/ReadRange.antt =====
-- What one round of the loop of `Device::read_at` (rcore-fs/src/dev/mod.rs) reads.
use rcore_fs.Base.{
  ℕ, ◌+◌, ◌^◌, ◌≤◌, ◌<◌, ◌≡◌, inl, inr, ap, List, arith, length, get_or, take, drop, length-take,
  length-drop, Bool-cases,
}
use rcore_fs.Base.Slices.{get_or-take, get_or-drop}
use rcore_fs.Base.Outcome.{ok, err}
use rcore_fs.Util.BlockIter.{BlockRange, len, is_full}
use rcore_fs.Dev.Interface.{BlockDevice, BlockStore, dev_error}
use rcore_fs.Dev.Bytes.{read_range}
use rcore_fs.Dev.Bytes.View.{size, SameBlocks}

module _ {S : Type 0} (dev : BlockDevice S) (store : BlockStore dev)
    (small : dev.block_size_log2 ≤ 10) where
  pub read_range_in :
      (s : S) (r : BlockRange)
      → store.Good s
      → r.block < store.blocks
      → r.block_size_log2 ≡ dev.block_size_log2
      → r.begin < r.end
      → r.end ≤ size dev store
      → (s' : S) × (xs : List ℕ) × (read_range dev r s ≡ (s', ok xs))
        × (length xs ≡ len r)
        × ((i : ℕ) → i < len r → get_or xs i 0 ≡ get_or (store.block s r.block) (r.begin + i) 0)
        × store.Good s'
        × SameBlocks dev store s s'
  unfolding read_range
  read_range_in s r good inside same_size nonempty fits =
      let (s', e, good', same) = store.read_in s r.block good inside in
      let n = store.length-block s r.block good inside in
      let z : 2 ^ r.block_size_log2 ≡ size dev store = ap (λ k. 2 ^ k) same_size in
      elim (Bool-cases (is_full r)) [
        | inl full ↦
            let start : r.begin ≡ 0 = ground (arith, full, z) in
            (
              s',
              store.block s r.block,
              rw (full, e),
              ground (arith, full, z, n),
              λ i h.
                  let at : i ≡ r.begin + i = omega arith in
                  ap (λ k. get_or (store.block s r.block) k 0) at,
              good',
              same,
            )
        | inr partial ↦ (
          s',
          take (len r) (drop r.begin (store.block s r.block)),
          ground (arith, partial, e),
          omega (
            arith,
            n,
            z,
            length-take (len r) (drop r.begin (store.block s r.block)),
            length-drop r.begin (store.block s r.block),
          ),
          λ i h. ground (
            arith,
            get_or-take (len r) (drop r.begin (store.block s r.block)) i,
            get_or-drop r.begin (store.block s r.block) i,
          ),
          good',
          same,
        )
      ]

  pub read_range_out :
      (s : S) (r : BlockRange)
      → store.Good s
      → store.blocks ≤ r.block
      → (s' : S) × (read_range dev r s ≡ (s', err dev_error))
        × store.Good s'
        × SameBlocks dev store s s'
  unfolding read_range
  read_range_out s r good outside =
      let (s', e, good', same) = store.read_out s r.block good outside in
      (s', ground (arith, e), good', same)

-- ===== src/Dev/Bytes/RoundTrip.antt =====
-- Bytes that were written to a block device (rcore-fs/src/dev/mod.rs) are read back.
use rcore_fs.Base.{ℕ, ◌+◌, ◌-◌, ◌≤◌, ◌≡◌, ap, ◌∙◌, List, min, arith, length, get_or}
use rcore_fs.Base.Slices.{eq_of_get_or}
use rcore_fs.Base.Outcome.{ok}
use rcore_fs.Dev.Interface.{BlockDevice, BlockStore}
use rcore_fs.Dev.Bytes.{read_at, write_at}
use rcore_fs.Dev.Bytes.View.{capacity}
use rcore_fs.Dev.Bytes.Read.{read_at_bytes}
use rcore_fs.Dev.Bytes.Write.{write_at_bytes}

-- On a device of blocks of at most 2 ^ 10 bytes, a read of as many bytes at the offset of a write
-- that lies inside the device fills the buffer with what was written.
pub read_at-write_at_bytes :
    {S : Type 0} (dev : BlockDevice S) (store : BlockStore dev)
    → dev.block_size_log2 ≤ 10
    → (offset : ℕ) (buf target : List ℕ) (s : S) → store.Good s
    → offset + length buf ≤ capacity dev store
    → length target ≡ length buf
    → (s' : S) × (read_at dev offset target (write_at dev offset buf s).0
        ≡ (s', (buf, ok (length buf))))
read_at-write_at_bytes dev store small offset buf target s good inside same_length =
    let (s1, e1, good1, written) = write_at_bytes dev store small offset buf s good in
    let (s2, found, e2, n, at, good2, same) =
      read_at_bytes dev store small offset target s1 good1 in
    let all : min (length target) (capacity dev store - offset) ≡ length buf = ground arith in
    let equal : found ≡ buf = eq_of_get_or found buf (omega (arith, n, same_length)) (λ i h.
      let back : offset + i - offset ≡ i = omega arith in
      ground (
        arith,
        n,
        at i,
        written (offset + i) (omega (arith, n, same_length)),
        ap (λ k. get_or buf k 0) back,
      )) in
    (
      s2,
      ap (λ p. read_at dev offset target p.0) e1
          ∙ (e2
              ∙ (ap (λ xs. (s2, (xs, ok (min (length target) (capacity dev store - offset))))) equal
                  ∙ ap (λ k. (s2, (buf, ok k))) all)),
    )

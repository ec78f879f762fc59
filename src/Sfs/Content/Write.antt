-- ===== src/Sfs/Content/Write.antt =====
-- What `_write_at` and `_clean_at` of rcore-fs-sfs/src/lib.rs leave in a file.
use mathlib.Core.Path.{subst}
use rcore_fs.Base.{
  ℕ, ◌+◌, ◌-◌, ◌*◌, ◌^◌, ◌≤◌, ◌<◌, ◌≡◌, refl, sym, ap, ap₂, ◌∙◌, min, ◌&&◌, some, List, arith, leb,
  ltb, if◌then◌else◌, length, get_or, take, drop, length-take, length-drop, replicate,
  length-replicate,
}
use rcore_fs.Base.Slices.{get_or-take, get_or-drop, get_or-replicate}
use rcore_fs.Base.Outcome.{ok}
use rcore_fs.Util.BlockIter.{BlockRange, len, origin_begin, origin_end}
use rcore_fs.Util.Dirty.{Dirty}
use rcore_fs.Sfs.Layout.{DiskINode, blksize, blksize_log2}
use rcore_fs.Sfs.Device.{Device, store, write_block}
use rcore_fs.Sfs.State.{Sfs}
use rcore_fs.Sfs.Content.{
  IoAction, block_of_file, io_at, write_piece, clean_piece, write_content, clean_content,
}
use rcore_fs.Sfs.Content.File.{IsFile, IsFile-same, SameElse, SameElse-trans, content}
use rcore_fs.Sfs.Content.Stored.{stored, stored-SameElse, content-stored}
use rcore_fs.Sfs.Content.Loop.{Keeps, io_at_lem}
use rcore_fs.Sfs.Content.Read.{block_of_file_lem}

-- A closure that stores a range of as many bytes, those of `bytes` from the buffer offset on.
abbrev pub Stores :
    (BlockRange → ℕ → IoAction (Unit {0}) (Unit {0})) → (ℕ → ℕ) → (total : ℕ) → Type 0
Stores f bytes total =
    (r : BlockRange) (k : ℕ) (s : Sfs)
    → r.begin + len r ≤ blksize
    → r.block * blksize + r.begin + len r ≤ s.device.size
    → k + len r ≤ total
    → (xs : List ℕ) × (f r k (s, tt) ≡ (
      (
        record s {
          device = record (s.device) {
            byte = store s.device.byte (r.block * blksize + r.begin) xs;
          };
        },
        tt,
      ),
      ok tt,
    ))
      × (length xs ≡ len r)
      × ((i : ℕ) → i < len r → get_or xs i 0 ≡ bytes (k + i))

module _ (s : Sfs) (id : ℕ) (n : Dirty DiskINode) (map : ℕ → ℕ) (here : s.inodes id ≡ some n)
    (file : IsFile n.value map s.device) (f : BlockRange → ℕ → IoAction (Unit {0}) (Unit {0}))
    (bytes : ℕ → ℕ) (begin stop : ℕ) (inside : stop ≤ n.value.size)
    (stores : Stores f bytes (stop - begin)) where
  -- The device behind the write of the bytes up to `c`.
  abbrev pub IsWritten : ℕ → Device → Type 0
  IsWritten c d =
      IsFile n.value map d
      × SameElse map n.value.blocks s.device d
      × ((x : ℕ)
          → x < n.value.blocks * blksize
          → content map d x
            ≡ (if leb begin x && ltb x c then bytes (x - begin) else content map s.device x))

  abbrev pub Written : ℕ → Sfs × Unit {0} → Type 0
  Written c st = (d : Device) × (st ≡ (record s { device = d }, tt)) × IsWritten c d

  piece-Written :
      (r : BlockRange) (c : ℕ) (d : Device)
      → r.block_size_log2 ≡ blksize_log2
      → origin_begin r ≡ c
      → r.begin < r.end
      → r.end ≤ blksize
      → origin_end r ≤ stop
      → begin ≤ c
      → IsWritten c d
      → (block : ℕ) × (st' : Sfs × Unit {0}) × (block_of_file id r.block (record s { device = d })
          ≡ (record s { device = d }, ok block))
        × (f (record r { block = block }) (c - begin) (record s { device = d }, tt) ≡ (st', ok tt))
        × Written (origin_end r) st'
  piece-Written r c d same_log at_c nonempty fits below low (file_d, same, written) =
      let z : r.block * 2 ^ r.block_size_log2 ≡ r.block * blksize =
        ap (λ k. r.block * 2 ^ k) same_log in
      let in_file : r.block < n.value.blocks = omega (arith, file.sized) in
      let s1 : Sfs = record s { device = d } in
      let (xs, done, n_xs, at_xs) =
        stores (record r { block = map r.block }) (c - begin) s1 (omega arith)
          (omega (arith, file_d.inside r.block in_file)) (omega arith) in
      let room : r.begin + length xs ≤ blksize = omega arith in
      let at : (x : ℕ)
          → c ≤ x
          → x < origin_end r
          → get_or xs (x - (r.block * blksize + r.begin)) 0 ≡ bytes (x - begin) =
        λ x from to.
          let i = x - (r.block * blksize + r.begin) in
          let place : c - begin + i ≡ x - begin = omega arith in
          at_xs i (omega arith) ∙ ap bytes place in
      let d' = stored n.value map d file_d r.block r.begin xs in_file room in
      let kept = stored-SameElse n.value map d file_d r.block r.begin xs in_file room in
      (
        map r.block,
        (record s { device = d' }, tt),
        block_of_file_lem s1 id n map here file_d r.block in_file,
        done,
        (
          d',
          refl,
          (
            IsFile-same n.value map d d' file_d kept,
            SameElse-trans map n.value.blocks s.device d d' same kept,
            λ x h. ground (
              arith,
              content-stored n.value map d file_d r.block r.begin xs in_file room x h,
              written x h,
              z,
              n_xs,
              at x,
            ),
          ),
        ),
      )

  piece-Keeps : Keeps id f begin stop Written
  piece-Keeps r c st same_log at_c nonempty fits below low (d, e, written) =
      subst
        (λ st.
          (block : ℕ) × (st' : Sfs × Unit {0}) × (block_of_file id r.block st.0 ≡ (st.0, ok block))
          × (f (record r { block = block }) (c - begin) st ≡ (st', ok tt))
          × Written (origin_end r) st')
        (sym e) (piece-Written r c d same_log at_c nonempty fits below low written)

  start-Written : Written begin (s, tt)
  start-Written = (
    s.device,
    refl,
    (file, record { same_size = refl; same_byte = λ x out. refl }, λ x h. ground arith),
  )

-- The bytes of a buffer, and the closure of `_write_at`.
write_piece-Stores : (buf : List ℕ) → Stores (write_piece buf) (λ i. get_or buf i 0) (length buf)
unfolding write_piece write_block
write_piece-Stores buf r k s fits inside below =
    let n : length (take (len r) (drop k buf)) ≡ len r =
      omega (arith, length-take (len r) (drop k buf), length-drop k buf) in
    (
      take (len r) (drop k buf),
      ground (arith, n),
      n,
      λ i h. ground (arith, get_or-take (len r) (drop k buf) i, get_or-drop k buf i),
    )

clean_piece-Stores : (total : ℕ) → Stores clean_piece (λ i. 0) total
unfolding clean_piece write_block
clean_piece-Stores total r k s fits inside below =
    let n : length (replicate (len r) 0) ≡ len r = length-replicate (len r) 0 in
    (replicate (len r) 0, ground (arith, n), n, λ i h. get_or-replicate (len r) i)

module _ (s : Sfs) (id : ℕ) (n : Dirty DiskINode) (map : ℕ → ℕ) (here : s.inodes id ≡ some n)
    (file : IsFile n.value map s.device) where
  -- What a closure that stores bytes leaves behind the loop, inside the file.
  abbrev pub IsStored : (begin end : ℕ) → (ℕ → ℕ) → Device → Type 0
  IsStored begin end bytes d =
      IsFile n.value map d
      × SameElse map n.value.blocks s.device d
      × ((x : ℕ)
          → x < n.value.size
          → content map d x
            ≡ (if leb begin x && ltb x end then bytes (x - begin) else content map s.device x))

  io_at-IsStored :
      (f : BlockRange → ℕ → IoAction (Unit {0}) (Unit {0})) (bytes : ℕ → ℕ) (begin end : ℕ)
      → begin ≤ end
      → end ≤ n.value.size
      → Stores f bytes (end - begin)
      → (d : Device) × (io_at id f begin end (s, tt)
          ≡ ((record s { device = d }, tt), ok (end - begin)))
        × IsStored begin end bytes d
  io_at-IsStored f bytes begin end ordered inside stores =
      let first : begin ≡ min n.value.size begin = omega arith in
      let last : end ≡ min n.value.size end = omega arith in
      let count : end - begin ≡ min n.value.size end - min n.value.size begin = omega arith in
      let (st, e, (d, is, (file', same, written))) =
        io_at_lem id f n begin end
          (Written s id n map here file f bytes (min n.value.size begin) (min n.value.size end)
            (omega arith) (subst (λ k. Stores f bytes k) count stores))
          (s, tt) here ordered
          (piece-Keeps s id n map here file f bytes (min n.value.size begin) (min n.value.size end)
            (omega arith) (subst (λ k. Stores f bytes k) count stores))
          (start-Written s id n map here file f bytes (min n.value.size begin)
            (min n.value.size end) (omega arith) (subst (λ k. Stores f bytes k) count stores)) in
      (
        d,
        e ∙ ap₂ (λ st k. (st, ok k)) is (sym count),
        (
          file',
          same,
          λ x h.
              let place : x - min n.value.size begin ≡ x - begin = omega arith in
              ground (arith, written x (omega (arith, file.sized)), ap bytes place),
        ),
      )

  -- In a file whose blocks are in place and apart, `_write_at` inside the file succeeds and returns
  -- the length of the buffer. The bytes of the file in that range are then those of the buffer and
  -- all others are as before, the blocks are the same, and no byte outside of them is changed.
  pub write_content_lem :
      (offset : ℕ) (buf : List ℕ)
      → offset + length buf ≤ n.value.size
      → (d : Device) × (write_content id offset buf s ≡ (record s { device = d }, ok (length buf)))
        × IsStored offset (offset + length buf) (λ i. get_or buf i 0) d
  unfolding write_content
  write_content_lem offset buf inside =
      let count : length buf ≡ offset + length buf - offset = omega arith in
      let (d, e, stored) =
        io_at-IsStored (write_piece buf) (λ i. get_or buf i 0) offset (offset + length buf)
          (omega arith) inside
          (subst (λ k. Stores (write_piece buf) (λ i. get_or buf i 0) k) count
            (write_piece-Stores buf)) in
      (d, ap (λ p. (p.0.0, p.1)) e ∙ ap (λ k. (record s { device = d }, ok k)) (sym count), stored)

  -- In a file whose blocks are in place and apart, `_clean_at` inside the file succeeds and returns the
  -- length of the range. The bytes of the range are then zeros and all others are as before, the
  -- blocks are the same, and no byte outside of them is changed.
  pub clean_content_lem :
      (begin end : ℕ)
      → begin ≤ end
      → end ≤ n.value.size
      → (d : Device) × (clean_content id begin end s ≡ (record s { device = d }, ok (end - begin)))
        × IsStored begin end (λ i. 0) d
  unfolding clean_content
  clean_content_lem begin end ordered inside =
      let (d, e, stored) =
        io_at-IsStored clean_piece (λ i. 0) begin end ordered inside
          (clean_piece-Stores (end - begin)) in
      (d, ap (λ p. (p.0.0, p.1)) e, stored)

-- ===== src/Sfs/Content/Read.antt =====
-- What `_read_at` of rcore-fs-sfs/src/lib.rs reads.
use mathlib.Core.Path.{subst}
use rcore_fs.Base.{
  ℕ, zero, suc, ◌+◌, ◌-◌, ◌*◌, ◌/◌, ◌%◌, ◌^◌, ◌≤◌, ◌<◌, ◌≡◌, refl, sym, ap, ap₂, ◌∙◌, min, some,
  List, arith, ltb, if◌then◌else◌, length, get_or,
}
use rcore_fs.Base.Slices.{copy_into, length-copy_into, get_or-copy_into}
use rcore_fs.Base.Outcome.{ok}
use rcore_fs.Util.BlockIter.{BlockRange, len, origin_begin, origin_end}
use rcore_fs.Util.Dirty.{Dirty}
use rcore_fs.Sfs.Layout.{DiskINode, blksize, blksize_log2}
use rcore_fs.Sfs.Device.{slice, read_block}
use rcore_fs.Sfs.State.{Sfs}
use rcore_fs.Sfs.Content.{block_of_file, read_piece, read_content}
use rcore_fs.Sfs.Content.File.{IsFile, content}
use rcore_fs.Sfs.Content.Loop.{Keeps, io_at_lem}

pub length-slice : (f : ℕ → ℕ) (a n : ℕ) → length (slice f a n) ≡ n
unfolding slice
length-slice f a zero = refl
length-slice f a (suc n) = ap suc (length-slice f (a + 1) n)

pub get_or-slice : (f : ℕ → ℕ) (a n k : ℕ) → k < n → get_or (slice f a n) k 0 ≡ f (a + k)
unfolding slice
get_or-slice f a zero k h = absurd (omega arith)
get_or-slice f a (suc n) zero h = let e : a ≡ a + 0 = omega arith in ap f e
get_or-slice f a (suc n) (suc k) h =
    let e : a + 1 + k ≡ a + suc k = omega arith in get_or-slice f (a + 1) n k (omega arith) ∙ ap f e

-- The address of a byte of a range, and of the byte of the content that it is.
pub address :
    (map : ℕ → ℕ) (q m x : ℕ)
    → m < blksize
    → x ≡ q * blksize + m
    → map (x / blksize) * blksize + x % blksize ≡ map q * blksize + m
address map q m x h e =
    let quotient : x / blksize ≡ q = omega arith in
    let remainder : x % blksize ≡ m = omega arith in
    ap₂ (λ a b. map a * blksize + b) quotient remainder

module _ (s : Sfs) (id : ℕ) (n : Dirty DiskINode) (map : ℕ → ℕ) (here : s.inodes id ≡ some n)
    (file : IsFile n.value map s.device) where
  pub block_of_file_lem : (q : ℕ) → q < n.value.blocks → block_of_file id q s ≡ (s, ok (map q))
  unfolding block_of_file
  block_of_file_lem q h = ground (arith, here, file.mapped q h)

  module _ (offset : ℕ) (buf : List ℕ) where
    abbrev begin : ℕ
    begin = min n.value.size offset

    abbrev stop : ℕ
    stop = min n.value.size (offset + length buf)

    -- The buffer with the bytes of the file up to the byte `c`.
    abbrev IsFilled : ℕ → List ℕ → Type 0
    IsFilled c buf' =
        (length buf' ≡ length buf)
        × ((i : ℕ)
            → i < length buf
            → get_or buf' i 0
              ≡ (if ltb i (c - begin) then content map s.device (begin + i) else get_or buf i 0))

    abbrev Filled : ℕ → Sfs × List ℕ → Type 0
    Filled c st = (buf' : List ℕ) × (st ≡ (s, buf')) × IsFilled c buf'

    -- The byte of the file that the byte `i` of the buffer is, in a range that starts at `c`.
    byte_of_range :
        (r : BlockRange) (c i : ℕ)
        → r.block_size_log2 ≡ blksize_log2
        → origin_begin r ≡ c
        → r.end ≤ blksize
        → begin ≤ c
        → c - begin ≤ i
        → i < c - begin + len r
        → s.device.byte (map r.block * blksize + r.begin + (i - (c - begin)))
          ≡ content map s.device (begin + i)
    byte_of_range r c i same_log at_c fits low from below =
        let z : r.block * 2 ^ r.block_size_log2 ≡ r.block * blksize =
          ap (λ k. r.block * 2 ^ k) same_log in
        let m = r.begin + (i - (c - begin)) in
        let place : map r.block * blksize + r.begin + (i - (c - begin))
            ≡ map r.block * blksize + m =
          omega arith in
        ap s.device.byte
          (place ∙ sym (address map r.block m (begin + i) (omega arith) (omega arith)))

    read_piece_lem :
        (r : BlockRange) (c : ℕ) (buf' : List ℕ)
        → r.block_size_log2 ≡ blksize_log2
        → origin_begin r ≡ c
        → r.begin < r.end
        → r.end ≤ blksize
        → origin_end r ≤ stop
        → begin ≤ c
        → IsFilled c buf'
        → (block : ℕ) × (st' : Sfs × List ℕ) × (block_of_file id r.block s ≡ (s, ok block))
          × (read_piece (record r { block = block }) (c - begin) (s, buf') ≡ (st', ok tt))
          × Filled (origin_end r) st'
    unfolding read_piece read_block
    read_piece_lem r c buf' same_log at_c nonempty fits inside low (n_buf, filled) =
        let z : r.block * 2 ^ r.block_size_log2 ≡ r.block * blksize =
          ap (λ k. r.block * 2 ^ k) same_log in
        let in_file : r.block < n.value.blocks = omega (arith, file.sized) in
        let xs = slice s.device.byte (map r.block * blksize + r.begin) (len r) in
        let n_xs : length xs ≡ len r =
          length-slice s.device.byte (map r.block * blksize + r.begin) (len r) in
        let room : c - begin + length xs ≤ length buf' = omega arith in
        (
          map r.block,
          (s, copy_into buf' (c - begin) xs),
          block_of_file_lem r.block in_file,
          ground (arith, file.inside r.block in_file),
          (
            copy_into buf' (c - begin) xs,
            refl,
            (
              length-copy_into buf' (c - begin) xs room ∙ n_buf,
              λ i h. ground (
                arith,
                get_or-copy_into buf' (c - begin) xs i room,
                filled i h,
                n_xs,
                get_or-slice s.device.byte (map r.block * blksize + r.begin) (len r)
                    (i - (c - begin)),
                byte_of_range r c i same_log at_c fits low,
              ),
            ),
          ),
        )

    read_piece-Keeps : Keeps id read_piece begin stop Filled
    read_piece-Keeps r c st same_log at_c nonempty fits inside low (buf', e, filled) =
        subst
          (λ st.
            (block : ℕ) × (st' : Sfs × List ℕ) × (block_of_file id r.block st.0 ≡ (st.0, ok block))
            × (read_piece (record r { block = block }) (c - begin) st ≡ (st', ok tt))
            × Filled (origin_end r) st')
          (sym e) (read_piece_lem r c buf' same_log at_c nonempty fits inside low filled)

    start :
        (i : ℕ)
        → offset ≤ n.value.size
        → content map s.device (begin + i) ≡ content map s.device (offset + i)
    start i h = let same : begin + i ≡ offset + i = omega arith in ap (content map s.device) same

    -- In a file whose blocks are in place and apart, `_read_at` succeeds and returns the length of the
    -- part of the range that lies in the file; the
    -- buffer then starts with the bytes of that part, and is otherwise as before. Nothing else changes.
    pub read_content_lem :
        (buf' : List ℕ) × (read_content id offset (s, buf)
          ≡ ((s, buf'), ok (min n.value.size (offset + length buf) - min n.value.size offset)))
        × (length buf' ≡ length buf)
        × ((i : ℕ)
            → i < length buf
            → get_or buf' i 0 ≡ (
                if ltb (offset + i) n.value.size
                then content map s.device (offset + i)
                else get_or buf i 0))
    unfolding read_content
    read_content_lem =
        let (st, e, (buf', is, (n_buf, filled))) =
          io_at_lem id read_piece n offset (offset + length buf) Filled (s, buf) here (omega arith)
            read_piece-Keeps (buf, refl, (refl, λ i h. ground arith)) in
        (
          buf',
          e
              ∙ ap
                  (λ st.
                    (st, ok (min n.value.size (offset + length buf) - min n.value.size offset)))
                  is,
          n_buf,
          λ i h. ground (arith, filled i h, start i),
        )

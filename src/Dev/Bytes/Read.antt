-- ===== src/Dev/Bytes/Read.antt =====
-- What `Device::read_at` of rcore-fs/src/dev/mod.rs puts into the buffer.
use native.Mathlib.Decide.{dec_lt}
use rcore_fs.Base.{
  ℕ, suc, ◌+◌, ◌-◌, ◌*◌, ◌^◌, ◌≤◌, ◌<◌, ◌≡◌, ◌⊎◌, inl, inr, refl, ap, sym, ◌∙◌, ◌&&◌, List, [], ◌∷◌,
  min, arith, leb, ltb, if◌then◌else◌, length, get_or,
}
use rcore_fs.Base.Slices.{copy_into, length-copy_into, get_or-copy_into}
use rcore_fs.Base.Outcome.{ok, err}
use rcore_fs.Util.BlockIter.{BlockIter, BlockRange, len, origin_begin, origin_end}
use rcore_fs.Util.BlockIter.Cover.{Tiles, ranges-Tiles}
use rcore_fs.Dev.Interface.{BlockDevice, BlockStore, dev_error}
use rcore_fs.Dev.Bytes.{read_range, read_ranges, read_at}
use rcore_fs.Dev.Bytes.View.{
  size, capacity, byte, byte-block, block_inside, block_outside, SameBlocks, SameBlocks-byte,
}
use rcore_fs.Dev.Bytes.ReadRange.{read_range_in, read_range_out}

module _ {S : Type 0} (dev : BlockDevice S) (store : BlockStore dev)
    (small : dev.block_size_log2 ≤ 10) where
  -- The buffer behind the loop from byte `b` on: the bytes of the device as far as it reaches.
  abbrev pub IsRead : (offset b : ℕ) → (buf buf' : List ℕ) → (s s' : S) → Type 0
  IsRead offset b buf buf' s s' =
      (length buf' ≡ length buf)
      × ((i : ℕ)
          → i < length buf
          → get_or buf' i 0 ≡ (
              if leb b (offset + i) && ltb (offset + i) (capacity dev store)
              then byte dev store s (offset + i)
              else get_or buf i 0))
      × store.Good s'
      × SameBlocks dev store s s'

  -- The byte at `x` of a range inside the device, from what was read of the range.
  byte_of_range :
      (s : S) (r : BlockRange) (xs : List ℕ) (x : ℕ)
      → r.block_size_log2 ≡ dev.block_size_log2
      → r.end ≤ size dev store
      → ((i : ℕ) → i < len r → get_or xs i 0 ≡ get_or (store.block s r.block) (r.begin + i) 0)
      → origin_begin r ≤ x
      → x < origin_end r
      → get_or xs (x - origin_begin r) 0 ≡ byte dev store s x
  byte_of_range s r xs x same_size fits at from below =
      let z : 2 ^ r.block_size_log2 ≡ size dev store = ap (λ k. 2 ^ k) same_size in
      let i = x - origin_begin r in
      let start : origin_begin r ≡ r.block * size dev store + r.begin =
        ap (λ k. r.block * k + r.begin) z in
      let place : r.block * size dev store + (r.begin + i) ≡ x = omega (arith, start) in
      at i (omega arith)
      ∙ sym (byte-block dev store s r.block (r.begin + i) (omega arith))
      ∙ ap (byte dev store s) place

  read_ranges-ok :
      (offset : ℕ) (r : BlockRange) (rs : List BlockRange) (buf xs : List ℕ) (s s' : S)
      → read_range dev r s ≡ (s', ok xs)
      → read_ranges dev offset (r ∷ rs) buf s
        ≡ read_ranges dev offset rs (copy_into buf (origin_begin r - offset) xs) s'
  unfolding read_ranges
  read_ranges-ok offset r rs buf xs s s' e = ground (arith, e)

  read_ranges-err :
      (offset : ℕ) (r : BlockRange) (rs : List BlockRange) (buf : List ℕ) (s s' : S)
      → read_range dev r s ≡ (s', err dev_error)
      → read_ranges dev offset (r ∷ rs) buf s ≡ (s', (buf, ok (origin_begin r - offset)))
  unfolding read_ranges
  read_ranges-err offset r rs buf s s' e = ground (arith, e)

  read_ranges_lem :
      (offset b e : ℕ) (rs : List BlockRange) (buf : List ℕ) (s : S)
      → Tiles dev.block_size_log2 b e rs
      → offset ≤ b
      → e ≡ offset + length buf
      → store.Good s
      → (b ≤ capacity dev store) ⊎ (b ≡ offset)
      → (s' : S) × (buf' : List ℕ) × (read_ranges dev offset rs buf s
          ≡ (s', (buf', ok (min (length buf) (capacity dev store - offset)))))
        × IsRead offset b buf buf' s s'
  unfolding read_ranges
  read_ranges_lem offset b e [] buf s t from end good reached =
      let all : length buf ≡ min (length buf) (capacity dev store - offset) = ground arith in
      (s, buf, ap (λ n. (s, (buf, ok n))) all, (refl, λ i h. ground arith, good, λ j h. refl))
  read_ranges_lem offset b e (r ∷ rs) buf s t from end good reached =
      let z : r.block * 2 ^ r.block_size_log2 ≡ r.block * size dev store =
        ap (λ k. r.block * 2 ^ k) t.0 in
      let k = origin_begin r - offset in
      elim (dec_lt r.block store.blocks) [
        | yes inside ↦
            let (s1, xs, e1, n1, at1, good1, same1) =
              read_range_in dev store small s r good inside t.0 t.2 t.3 in
            let n2 = length-copy_into buf k xs (omega (arith, t, n1, from, end)) in
            let below : origin_end r ≤ capacity dev store =
              omega (arith, z, t.3, block_inside dev store r.block inside) in
            let place : (i : ℕ) → get_or xs (i - k) 0 ≡ get_or xs (offset + i - origin_begin r) 0 =
              λ i.
                let same_place : i - k ≡ offset + i - origin_begin r = omega (arith, t, from) in
                ap (λ n. get_or xs n 0) same_place in
            let (s', buf', e', (n', at', good', same')) =
              read_ranges_lem offset (origin_end r) e rs (copy_into buf k xs) s1 t.6
                (omega (arith, t, from)) (omega (arith, n2, end)) good1 (inl below) in
            (
              s',
              buf',
              read_ranges-ok offset r rs buf xs s s1 e1
                  ∙ (e' ∙ ap (λ n. (s', (buf', ok (min n (capacity dev store - offset))))) n2),
              (
                n' ∙ n2,
                λ i h. ground (
                  arith,
                  at' i,
                  n1,
                  n2,
                  get_or-copy_into buf k xs i,
                  SameBlocks-byte dev store (offset + i) same1,
                  byte_of_range s r xs (offset + i) t.0 t.3 at1,
                  place i,
                ),
                good',
                λ j h. same' j h ∙ same1 j h,
              ),
            )
        | no outside ↦
            let (s', e', good', same') = read_range_out dev store small s r good (omega arith) in
            let beyond = block_outside dev store r.block (omega arith) in
            let stop : origin_begin r - offset ≡ min (length buf) (capacity dev store - offset) =
              ground (arith, z, beyond, t) in
            (
              s',
              buf,
              read_ranges-err offset r rs buf s s' e' ∙ ap (λ n. (s', (buf, ok n))) stop,
              (refl, λ i h. ground (arith, z, beyond, t), good', same'),
            )
      ]

  -- `read_at` on a device of blocks of at most 2 ^ 10 bytes succeeds and reports as many bytes as lie
  -- on the device from `offset` on, but at most the length of the buffer. It puts the bytes of the
  -- device into the buffer as far as the device reaches, leaves the rest of the buffer alone, and
  -- changes no block.
  pub read_at_bytes :
      (offset : ℕ) (buf : List ℕ) (s : S)
      → store.Good s
      → (s' : S) × (buf' : List ℕ) × (read_at dev offset buf s
          ≡ (s', (buf', ok (min (length buf) (capacity dev store - offset)))))
        × (length buf' ≡ length buf)
        × ((i : ℕ)
            → i < length buf
            → get_or buf' i 0 ≡ (
                if ltb (offset + i) (capacity dev store)
                then byte dev store s (offset + i)
                else get_or buf i 0))
        × store.Good s'
        × SameBlocks dev store s s'
  unfolding read_at
  read_at_bytes offset buf s good =
      let it : BlockIter = record {
        begin = offset;
        end = offset + length buf;
        block_size_log2 = dev.block_size_log2;
      } in
      let (rs, found, tiles) = ranges-Tiles (suc (length buf)) it (omega arith) (omega arith) in
      let (s', buf', e, (n, at, good', same)) =
        read_ranges_lem offset offset (offset + length buf) rs buf s tiles (omega arith) refl good
          (inr refl) in
      (s', buf', ground (arith, found, e), n, λ i h. ground (arith, at i h), good', same)

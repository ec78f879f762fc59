-- ===== src/Dev/Bytes/Write.antt =====
-- What `Device::write_at` of rcore-fs/src/dev/mod.rs leaves on the device.
use native.Mathlib.Decide.{dec_lt}
use rcore_fs.Base.{
  ℕ, suc, ◌+◌, ◌-◌, ◌*◌, ◌^◌, ◌≤◌, ◌<◌, ◌≡◌, ◌⊎◌, inl, inr, refl, ap, ◌∙◌, ◌&&◌, List, [], ◌∷◌, min,
  arith, leb, ltb, if◌then◌else◌, length, get_or, take, drop, length-take, length-drop,
}
use rcore_fs.Base.Slices.{get_or-take, get_or-drop}
use rcore_fs.Base.Outcome.{ok, err}
use rcore_fs.Util.BlockIter.{BlockIter, BlockRange, len, origin_begin, origin_end}
use rcore_fs.Util.BlockIter.Cover.{Tiles, ranges-Tiles}
use rcore_fs.Dev.Interface.{BlockDevice, BlockStore, dev_error}
use rcore_fs.Dev.Bytes.{write_range, write_ranges, write_at}
use rcore_fs.Dev.Bytes.View.{size, capacity, byte, block_inside, block_outside, SameBlocks-byte}
use rcore_fs.Dev.Bytes.WriteRange.{write_range_in, write_range_out}

module _ {S : Type 0} (dev : BlockDevice S) (store : BlockStore dev)
    (small : dev.block_size_log2 ≤ 10) where
  -- The bytes of the buffer that belong to a range.
  abbrev piece : (offset : ℕ) → List ℕ → BlockRange → List ℕ
  piece offset buf r = take (len r) (drop (origin_begin r - offset) buf)

  length-piece :
      (offset : ℕ) (buf : List ℕ) (r : BlockRange)
      → offset ≤ origin_begin r
      → origin_end r ≤ offset + length buf
      → length (piece offset buf r) ≡ len r
  length-piece offset buf r from to = omega (
    arith,
    length-take (len r) (drop (origin_begin r - offset) buf),
    length-drop (origin_begin r - offset) buf,
  )

  get_or-piece :
      (offset : ℕ) (buf : List ℕ) (r : BlockRange) (x : ℕ)
      → offset ≤ origin_begin r
      → origin_begin r ≤ x
      → x < origin_end r
      → get_or (piece offset buf r) (x - origin_begin r) 0 ≡ get_or buf (x - offset) 0
  get_or-piece offset buf r x from low high =
      let k = x - origin_begin r in
      let place : origin_begin r - offset + k ≡ x - offset = omega arith in
      ground (
        arith,
        get_or-take (len r) (drop (origin_begin r - offset) buf) k,
        get_or-drop (origin_begin r - offset) buf k,
        ap (λ i. get_or buf i 0) place,
      )

  write_ranges-ok :
      (offset : ℕ) (r : BlockRange) (rs : List BlockRange) (buf : List ℕ) (s s' : S)
      → write_range dev r (piece offset buf r) s ≡ (s', ok tt)
      → write_ranges dev offset (r ∷ rs) buf s ≡ write_ranges dev offset rs buf s'
  unfolding write_ranges
  write_ranges-ok offset r rs buf s s' e = ground (arith, e)

  write_ranges-err :
      (offset : ℕ) (r : BlockRange) (rs : List BlockRange) (buf : List ℕ) (s s' : S)
      → write_range dev r (piece offset buf r) s ≡ (s', err dev_error)
      → write_ranges dev offset (r ∷ rs) buf s ≡ (s', ok (origin_begin r - offset))
  unfolding write_ranges
  write_ranges-err offset r rs buf s s' e = ground (arith, e)

  -- The bytes behind the loop from byte `b` on.
  abbrev IsCopied : (offset b : ℕ) → List ℕ → (s s' : S) → Type 0
  IsCopied offset b buf s s' =
      (x : ℕ)
      → x < capacity dev store
      → byte dev store s' x ≡ (
          if leb b x && ltb x (offset + length buf)
          then get_or buf (x - offset) 0
          else byte dev store s x)

  write_ranges_lem :
      (offset b e : ℕ) (rs : List BlockRange) (buf : List ℕ) (s : S)
      → Tiles dev.block_size_log2 b e rs
      → offset ≤ b
      → e ≡ offset + length buf
      → store.Good s
      → (b ≤ capacity dev store) ⊎ (b ≡ offset)
      → (s' : S) × (write_ranges dev offset rs buf s
          ≡ (s', ok (min (length buf) (capacity dev store - offset))))
        × store.Good s'
        × IsCopied offset b buf s s'
  unfolding write_ranges
  write_ranges_lem offset b e [] buf s t from end good reached =
      let all : length buf ≡ min (length buf) (capacity dev store - offset) = ground arith in
      (s, ap (λ n. (s, ok n)) all, good, λ x h. ground arith)
  write_ranges_lem offset b e (r ∷ rs) buf s t from end good reached =
      let z : r.block * 2 ^ r.block_size_log2 ≡ r.block * size dev store =
        ap (λ k. r.block * 2 ^ k) t.0 in
      let n = length-piece offset buf r (omega (arith, t, from)) (omega (arith, t, end)) in
      elim (dec_lt r.block store.blocks) [
        | yes inside ↦
            let (s1, e1, good1, written) =
              write_range_in dev store small s r (piece offset buf r) good inside t.0 t.2 t.3 n in
            let below : origin_end r ≤ capacity dev store =
              omega (arith, z, t.3, block_inside dev store r.block inside) in
            let (s', e', good', copied) =
              write_ranges_lem offset (origin_end r) e rs buf s1 t.6 (omega (arith, t, from)) end
                good1 (inl below) in
            (
              s',
              write_ranges-ok offset r rs buf s s1 e1 ∙ e',
              good',
              λ x h.
                  ground
                    (arith, t, n, written x h, copied x h, end, from, get_or-piece offset buf r x),
            )
        | no outside ↦
            let (s', e', good', same) =
              write_range_out dev store small s r (piece offset buf r) good (omega arith) t.0 n in
            let beyond = block_outside dev store r.block (omega arith) in
            let stop : origin_begin r - offset ≡ min (length buf) (capacity dev store - offset) =
              ground (arith, z, beyond, t) in
            (
              s',
              write_ranges-err offset r rs buf s s' e' ∙ ap (λ n. (s', ok n)) stop,
              good',
              λ x h. ground (arith, z, beyond, t, SameBlocks-byte dev store x same h),
            )
      ]

  -- `write_at` on a device of blocks of at most 2 ^ 10 bytes succeeds and reports as many bytes as lie
  -- on the device from `offset` on, but at most the length of the buffer. The bytes of the device in
  -- the range of the buffer are then those of the buffer, and all others are as before.
  pub write_at_bytes :
      (offset : ℕ) (buf : List ℕ) (s : S)
      → store.Good s
      → (s' : S) × (write_at dev offset buf s
          ≡ (s', ok (min (length buf) (capacity dev store - offset))))
        × store.Good s'
        × ((x : ℕ)
            → x < capacity dev store
            → byte dev store s' x ≡ (
                if leb offset x && ltb x (offset + length buf)
                then get_or buf (x - offset) 0
                else byte dev store s x))
  unfolding write_at
  write_at_bytes offset buf s good =
      let it : BlockIter = record {
        begin = offset;
        end = offset + length buf;
        block_size_log2 = dev.block_size_log2;
      } in
      let (rs, found, tiles) = ranges-Tiles (suc (length buf)) it (omega arith) (omega arith) in
      let (s', e, good', copied) =
        write_ranges_lem offset offset (offset + length buf) rs buf s tiles (omega arith) refl good
          (inr refl) in
      (s', ground (arith, found, e), good', copied)

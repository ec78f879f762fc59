-- ===== src/Dev/Bytes/WriteRange.antt =====
-- What one round of the loop of `Device::write_at` (rcore-fs/src/dev/mod.rs) leaves on the device.
use native.Mathlib.Nat.{div-add-mod', mod-lt, mul-le-mul_right, one-le-pow}
use native.Mathlib.Decide.{dec_lt}
use rcore_fs.Base.{
  ℕ, ◌+◌, ◌-◌, ◌*◌, ◌/◌, ◌%◌, ◌^◌, ◌≤◌, ◌<◌, ◌≡◌, ◌⊎◌, inl, inr, ap, ◌∙◌, false, ◌&&◌, List, arith,
  leb, ltb, ◌==◌, if◌then◌else◌, length, get_or, Bool-cases,
}
use rcore_fs.Base.Slices.{copy_into, overlay, length-copy_into, get_or-copy_into}
use rcore_fs.Base.Outcome.{ok, err}
use rcore_fs.Util.BlockIter.{BlockRange, len, is_full, origin_begin}
use rcore_fs.Dev.Interface.{BlockDevice, BlockStore, dev_error}
use rcore_fs.Dev.Bytes.{write_range}
use rcore_fs.Dev.Bytes.View.{size, capacity, byte, block_of_byte, SameBlocks}

-- A byte of another block lies outside a range of the block `p`.
other_block :
    (z p q m begin end : ℕ)
    → m < z
    → end ≤ z
    → (p == q) ≡ false
    → (q * z + m < p * z + begin) ⊎ (p * z + end ≤ q * z + m)
other_block z p q m begin end inside fits ne = elim (dec_lt p q) [
  | yes h ↦ let up : p + 1 ≤ q = omega arith in inr (omega (arith, mul-le-mul_right z up))
  | no h ↦ let down : q + 1 ≤ p = ground arith in inl (omega (arith, mul-le-mul_right z down))
]

module _ {S : Type 0} (dev : BlockDevice S) (store : BlockStore dev)
    (small : dev.block_size_log2 ≤ 10) where
  -- The bytes of the device behind a write of `xs` from `b` on.
  abbrev pub IsWritten : (b : ℕ) → List ℕ → (s s' : S) → Type 0
  IsWritten b xs s s' =
      (x : ℕ)
      → x < capacity dev store
      → byte dev store s' x
        ≡ (if leb b x && ltb x (b + length xs) then get_or xs (x - b) 0 else byte dev store s x)

  module _ (s s' : S) (r : BlockRange) (xs w : List ℕ)
      (same_size : r.block_size_log2 ≡ dev.block_size_log2) (nonempty : r.begin < r.end)
      (fits : r.end ≤ size dev store) (all : length xs ≡ len r)
      (at : (m : ℕ)
        → m < size dev store
        → get_or w m 0 ≡ overlay (store.block s r.block) r.begin xs m)
      (changed : (j : ℕ)
        → j < store.blocks
        → store.block s' j ≡ (if r.block == j then w else store.block s j)) where
    block-IsWritten : IsWritten (origin_begin r) xs s s'
    block-IsWritten x inside =
        let z = size dev store in
        let q = x / z in
        let m = x % z in
        let start : origin_begin r ≡ r.block * z + r.begin =
          ap (λ k. r.block * 2 ^ k + r.begin) same_size in
        let bound : m < z = mod-lt x (one-le-pow dev.block_size_log2 2 (omega arith)) in
        let split : q * z + m ≡ x = div-add-mod' x z in
        let new = changed q (block_of_byte dev store x inside) in
        elim (Bool-cases (r.block == q)) [
          | inl same ↦
              let here : r.block ≡ q = ground (arith, same) in
              let row : r.block * z ≡ q * z = ap (λ k. k * z) here in
              let now : store.block s' q ≡ w = ground (arith, new, same) in
              let place : m - r.begin ≡ x - origin_begin r = omega (arith, start, split, row) in
              ground (
                arith,
                start,
                split,
                row,
                at m bound,
                ap (λ ys. get_or ys m 0) now,
                ap (λ k. get_or xs k 0) place,
                ap (λ k. get_or (store.block s k) m 0) here,
              )
          | inr other ↦
              let as_before : store.block s' q ≡ store.block s q = ground (arith, new, other) in
              let apart : (q * z + m < r.block * z + r.begin) ⊎ (r.block * z + r.end ≤ q * z + m) =
                other_block z r.block q m r.begin r.end bound fits other in
              ground (arith, start, split, apart, all, ap (λ ys. get_or ys m 0) as_before)
        ]

  pub write_range_in :
      (s : S) (r : BlockRange) (xs : List ℕ)
      → store.Good s
      → r.block < store.blocks
      → r.block_size_log2 ≡ dev.block_size_log2
      → r.begin < r.end
      → r.end ≤ size dev store
      → length xs ≡ len r
      → (s' : S) × (write_range dev r xs s ≡ (s', ok tt))
        × store.Good s'
        × IsWritten (origin_begin r) xs s s'
  unfolding write_range
  write_range_in s r xs good inside same_size nonempty fits all =
      let z : 2 ^ r.block_size_log2 ≡ size dev store = ap (λ k. 2 ^ k) same_size in
      elim (Bool-cases (is_full r)) [
        | inl full ↦
            let start : r.begin ≡ 0 = ground (arith, full, z) in
            let (s', e, good', changed) =
              store.write_in s r.block xs good inside (ground (arith, full, z, all)) in
            (
              s',
              rw (full, e),
              good',
              block-IsWritten s s' r xs xs same_size nonempty fits all
                  (λ m h.
                    let whole : m ≡ m - r.begin = omega arith in
                    ground (arith, start, full, z, all, ap (λ k. get_or xs k 0) whole))
                  changed,
            )
        | inr partial ↦
            let (s1, e1, good1, same1) = store.read_in s r.block good inside in
            let old = store.block s r.block in
            let room : r.begin + length xs ≤ length old =
              omega (arith, all, fits, nonempty, store.length-block s r.block good inside) in
            let n = length-copy_into old r.begin xs room in
            let (s', e', good', changed) =
              store.write_in s1 r.block (copy_into old r.begin xs) good1 inside
                (n ∙ store.length-block s r.block good inside) in
            (
              s',
              ground (arith, partial, e1, e'),
              good',
              block-IsWritten s s' r xs (copy_into old r.begin xs) same_size nonempty fits all
                  (λ m h. get_or-copy_into old r.begin xs m room)
                  (λ j h. ground (arith, changed j h, same1 j h)),
            )
      ]

  pub write_range_out :
      (s : S) (r : BlockRange) (xs : List ℕ)
      → store.Good s
      → store.blocks ≤ r.block
      → r.block_size_log2 ≡ dev.block_size_log2
      → length xs ≡ len r
      → (s' : S) × (write_range dev r xs s ≡ (s', err dev_error))
        × store.Good s'
        × SameBlocks dev store s s'
  unfolding write_range
  write_range_out s r xs good outside same_size all =
      let z : 2 ^ r.block_size_log2 ≡ size dev store = ap (λ k. 2 ^ k) same_size in
      elim (Bool-cases (is_full r)) [
        | inl full ↦
            let (s', e, good', same) =
              store.write_out s r.block xs good outside (ground (arith, full, z, all)) in
            (s', rw (full, e), good', same)
        | inr partial ↦
            let (s', e, good', same) = store.read_out s r.block good outside in
            (s', ground (arith, partial, e), good', same)
      ]

-- ===== src/Dev/Bytes.antt =====
-- The byte access to a block device in rcore-fs/src/dev/mod.rs: `Device::read_at` and
-- `Device::write_at` for every `BlockDevice`.
pub mod View
pub mod ReadRange
pub mod Read
pub mod WriteRange
pub mod Write
pub mod RoundTrip
pub mod Tests
use rcore_fs.Base.{
  ℕ, suc, ◌+◌, ◌-◌, ◌^◌, Option, none, some, List, [], ◌∷◌, leb, if◌then◌else◌, length, take, drop,
}
use rcore_fs.Base.Slices.{copy_into}
use rcore_fs.Base.Outcome.{Outcome, Action, ok, err, panic, hang, and_then}
use rcore_fs.Util.BlockIter.{BlockIter, BlockRange, ranges, len, is_full, origin_begin, origin_end}
use rcore_fs.Dev.Interface.{BlockDevice, DevError}

-- The iterator over the bytes from `offset` on, run to its end: `none` stands for a loop that has not
-- ended after more rounds than there are bytes.
abbrev pub ranges_of : (log2 offset n : ℕ) → Option (List BlockRange)
ranges_of log2 offset n =
    ranges (suc n) (record { begin = offset; end = offset + n; block_size_log2 = log2 })

module _ {S : Type 0} (dev : BlockDevice S) where
  -- The bytes of one range: read straight into the buffer, or through a local block of 2 ^ 10 bytes.
  pub read_range : BlockRange → Action S DevError (List ℕ)
  read_range r s =
      if is_full r
      then dev.read_at r.block s
      else if leb dev.block_size_log2 10
      then and_then (dev.read_at r.block s) (λ block s. (s, ok (take (len r) (drop r.begin block))))
      else (s, panic)

  -- The loop of `read_at`: the device and the buffer behind it, and how many bytes it reports.
  pub read_ranges : (offset : ℕ) → List BlockRange → List ℕ → S → S × (List ℕ × Outcome DevError ℕ)
  unfolding read_range
  read_ranges offset [] buf s = (s, (buf, ok (length buf)))
  read_ranges offset (r ∷ rs) buf s =
      let (s', result) = read_range r s in
      elim result [
        | ok xs ↦ read_ranges offset rs (copy_into buf (origin_begin r - offset) xs) s'
        | err e ↦ (s', (buf, ok (origin_begin r - offset)))
        | panic ↦ (s', (buf, panic))
        | hang ↦ (s', (buf, hang))
      ]

  unfoldable pub read_at : (offset : ℕ) → List ℕ → S → S × (List ℕ × Outcome DevError ℕ)
  unfolding read_ranges ranges
  read_at offset buf s = elim (ranges_of dev.block_size_log2 offset (length buf)) [
    | none ↦ (s, (buf, hang))
    | some rs ↦ read_ranges offset rs buf s
  ]

  -- The bytes `xs` of one range: written straight to the device, or put into the block that was read.
  pub write_range : BlockRange → List ℕ → Action S DevError (Unit {0})
  write_range r xs s =
      if is_full r
      then dev.write_at r.block xs s
      else if leb dev.block_size_log2 10
      then and_then (dev.read_at r.block s)
          (λ block s. dev.write_at r.block (copy_into block r.begin xs) s)
      else (s, panic)

  pub write_ranges : (offset : ℕ) → List BlockRange → List ℕ → S → S × Outcome DevError ℕ
  unfolding write_range
  write_ranges offset [] buf s = (s, ok (length buf))
  write_ranges offset (r ∷ rs) buf s =
      let (s', result) = write_range r (take (len r) (drop (origin_begin r - offset) buf)) s in
      elim result [
        | ok x ↦ write_ranges offset rs buf s'
        | err e ↦ (s', ok (origin_begin r - offset))
        | panic ↦ (s', panic)
        | hang ↦ (s', hang)
      ]

  unfoldable pub write_at : (offset : ℕ) → List ℕ → S → S × Outcome DevError ℕ
  unfolding write_ranges ranges
  write_at offset buf s = elim (ranges_of dev.block_size_log2 offset (length buf)) [
    | none ↦ (s, hang)
    | some rs ↦ write_ranges offset rs buf s
  ]

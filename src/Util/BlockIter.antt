-- ===== src/Util/BlockIter.antt =====
-- `BlockIter` and `BlockRange` of rcore-fs/src/util.rs. A `usize` is a number: every sum
-- is at most the `end` of the range, so none wraps. `for range in iter` is
-- `ranges`, on fuel.
pub mod Cover
mod Tests
use rcore_fs.Base.{
  ℕ, zero, suc, ◌+◌, ◌-◌, ◌*◌, ◌/◌, ◌%◌, ◌^◌, Bool, Option, none, some, List, [], ◌∷◌, leb, ◌==◌,
  if◌then◌else◌,
}

pub record BlockIter : Type 0 where
  pub begin : ℕ
  pub end : ℕ
  pub block_size_log2 : ℕ

pub record BlockRange : Type 0 where
  pub block : ℕ
  pub begin : ℕ
  pub end : ℕ
  pub block_size_log2 : ℕ

abbrev pub len : BlockRange → ℕ
len r = r.end - r.begin

abbrev pub is_full : BlockRange → Bool
is_full r = len r == 2 ^ r.block_size_log2

-- `block << block_size_log2` is a product.
abbrev pub origin_begin : BlockRange → ℕ
origin_begin r = r.block * 2 ^ r.block_size_log2 + r.begin

abbrev pub origin_end : BlockRange → ℕ
origin_end r = r.block * 2 ^ r.block_size_log2 + r.end

-- The local `end` of `next`, for the block size `size`.
pub sub_end : (size begin end : ℕ) → ℕ
sub_end size begin end = if begin / size == end / size then end % size else size

-- The range that `next` returns where `begin < end`.
pub first_range : BlockIter → BlockRange
unfolding sub_end
first_range it = record {
  block = it.begin / 2 ^ it.block_size_log2;
  begin = it.begin % 2 ^ it.block_size_log2;
  end = sub_end (2 ^ it.block_size_log2) it.begin it.end;
  block_size_log2 = it.block_size_log2;
}

pub next : BlockIter → Option BlockRange × BlockIter
unfolding first_range
next it =
    let r = first_range it in
    if leb it.end it.begin
    then (none, it)
    else (some r, record it { begin = it.begin + (r.end - r.begin) })

-- All the ranges that the iterator yields; `none` means that the fuel ran out.
unfoldable pub ranges : ℕ → BlockIter → Option (List BlockRange)
unfolding next
ranges zero it = none
ranges (suc fuel) it =
    let (item, it') = next it in
    let rest = ranges fuel it' in
    elim item [ none ↦ some [] | some r ↦ elim rest [ none ↦ none | some rs ↦ some (r ∷ rs) ] ]

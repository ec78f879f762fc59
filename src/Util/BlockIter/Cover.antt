-- ===== src/Util/BlockIter/Cover.antt =====
-- The ranges that `BlockIter` of rcore-fs/src/util.rs yields tile the range that it was given.
use native.Mathlib.Nat.{div-add-mod', mod-lt, div-mul-le_self, le-div_iff_mul-le, one-le-pow}
use native.Mathlib.Decide.{dec_lt}
use rcore_fs.Base.{
  ℕ, zero, suc, ◌+◌, ◌-◌, ◌*◌, ◌/◌, ◌%◌, ◌^◌, ◌≤◌, ◌<◌, ◌≡◌, ◌≢◌, ◌⊎◌, none, some, List, [], ◌∷◌,
  arith,
}
use rcore_fs.Util.BlockIter.{
  BlockIter, BlockRange, len, origin_begin, origin_end, sub_end, first_range, next, ranges,
}

-- Where the end lies in a later block, the whole of this block lies before it.
block_fits : (s b e : ℕ) → 0 < s → b < e → b / s ≢ e / s → b / s * s + s ≤ e
block_fits s b e p h ne =
    let below : b / s ≤ e / s = (le-div_iff_mul-le p).1 (omega (arith, div-mul-le_self b s)) in
    let next : b / s + 1 ≤ e / s = omega arith in omega (arith, (le-div_iff_mul-le p).0 next)

sub_end_bounds :
    (s b e : ℕ)
    → 0 < s
    → b < e
    → (b % s < sub_end s b e)
      × (sub_end s b e ≤ s)
      × (b / s * s + sub_end s b e ≤ e)
      × ((b / s * s + sub_end s b e ≡ e) ⊎ (sub_end s b e ≡ s))
unfolding sub_end
sub_end_bounds s b e p h =
    ground (arith, div-add-mod' b s, div-add-mod' e s, mod-lt b p, mod-lt e p, block_fits s b e p h)

-- The ranges `rs` stand one behind the other from `b` to `e`: each is nonempty, lies in one block,
-- and ends where its block or the whole ends.
abbrev pub Tiles : (log2 b e : ℕ) → List BlockRange → Type 0
Tiles log2 b e [] = b ≡ e
Tiles log2 b e (r ∷ rs) =
    (r.block_size_log2 ≡ log2)
    × (origin_begin r ≡ b)
    × (r.begin < r.end)
    × (r.end ≤ 2 ^ log2)
    × ((origin_end r ≡ e) ⊎ (r.end ≡ 2 ^ log2))
    × (origin_end r ≤ e)
    × Tiles log2 (origin_end r) e rs

-- The sum of the lengths of the ranges: what `buf_offset` has reached behind the loop.
unfoldable pub total_len : List BlockRange → ℕ
total_len [] = 0
total_len (r ∷ rs) = len r + total_len rs

pow_pos : (k : ℕ) → 0 < 2 ^ k
pow_pos k = one-le-pow k 2 (omega arith)

-- What one call of `next` does.
pub next-some :
    (it : BlockIter)
    → it.begin < it.end
    → let r = first_range it in
      (next it ≡ (some r, record it { begin = origin_end r }))
      × (r.block_size_log2 ≡ it.block_size_log2)
      × (origin_begin r ≡ it.begin)
      × (r.begin < r.end)
      × (r.end ≤ 2 ^ it.block_size_log2)
      × ((origin_end r ≡ it.end) ⊎ (r.end ≡ 2 ^ it.block_size_log2))
      × (origin_end r ≤ it.end)
unfolding next first_range
next-some it h = ground (
  arith,
  sub_end_bounds (2 ^ it.block_size_log2) it.begin it.end (pow_pos it.block_size_log2) h,
  div-add-mod' it.begin (2 ^ it.block_size_log2),
)

pub next-none : (it : BlockIter) → it.end ≤ it.begin → next it ≡ (none, it)
unfolding next
next-none it h = ground arith

ranges-stop : (fuel : ℕ) (it : BlockIter) → it.end ≤ it.begin → ranges (suc fuel) it ≡ some []
unfolding ranges
ranges-stop fuel it h = rw (next-none it h, ranges)

ranges-step :
    (fuel : ℕ) (it : BlockIter) (rs : List BlockRange)
    → it.begin < it.end
    → ranges fuel (record it { begin = origin_end (first_range it) }) ≡ some rs
    → ranges (suc fuel) it ≡ some (first_range it ∷ rs)
unfolding ranges
ranges-step fuel it rs h e = ground (arith, next-some it h)

-- Where `begin` is at most `end` and the fuel is more than the bytes between them, the loop ends,
-- and its ranges tile the bytes from `begin` to `end`, each inside one block.
pub ranges-Tiles :
    (fuel : ℕ) (it : BlockIter)
    → it.begin ≤ it.end
    → it.end - it.begin < fuel
    → (rs : List BlockRange) × (ranges fuel it ≡ some rs)
      × Tiles it.block_size_log2 it.begin it.end rs
ranges-Tiles zero it h f = absurd (omega arith)
ranges-Tiles (suc fuel) it h f = elim (dec_lt it.begin it.end) [
  | no p ↦ ([], ranges-stop fuel it (omega arith), omega arith)
  | yes p ↦
      let facts = next-some it p in
      let it' = record it { begin = origin_end (first_range it) } in
      let (rs, e, tiles) = ranges-Tiles fuel it' facts.6 (omega arith) in
      (
        first_range it ∷ rs,
        ranges-step fuel it rs p e,
        (facts.1, facts.2, facts.3, facts.4, facts.5, facts.6, tiles),
      )
]

pub Tiles-le : (log2 b e : ℕ) (rs : List BlockRange) → Tiles log2 b e rs → b ≤ e
Tiles-le log2 b e [] t = omega arith
Tiles-le log2 b e (r ∷ rs) t = omega arith

pub total_len-Tiles :
    (log2 b e : ℕ) (rs : List BlockRange) → Tiles log2 b e rs → b + total_len rs ≡ e
unfolding total_len
total_len-Tiles log2 b e [] t = omega arith
total_len-Tiles log2 b e (r ∷ rs) t = omega (arith, total_len-Tiles log2 (origin_end r) e rs t.6)

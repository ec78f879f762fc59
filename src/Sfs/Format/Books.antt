-- ===== src/Sfs/Format/Books.antt =====
-- A new disk (`create` in rcore-fs-sfs/src/lib.rs) has consistent books of its free blocks.
use mathlib.Core.Path.{subst}
use native.Mathlib.Decide.{ℕ_discrete}
use rcore_fs.Base.{
  ℕ, zero, suc, ◌+◌, ◌-◌, ◌*◌, ◌^◌, ◌≤◌, ◌<◌, ◌≡◌, ◌≢◌, refl, ◌∙◌, ◌&&◌, leb, ◌⊎◌, inl, inr, Bool,
  true, false, some, List, ◌++◌, arith, length, length-set, length-replicate, get_elem?,
  get_elem?-set_self, get_elem?-set_ne, set, replicate, ltb,
}
use rcore_fs.Base.Outcome.{ok}
use rcore_fs.Sfs.Layout.{SuperBlock, blkbits, blkn_freemap}
use rcore_fs.Sfs.Str.{default_info}
use rcore_fs.Sfs.Format.{mark_free, lay_out, super_block_of, block_count, freemap_block_count}
use rcore_fs.Sfs.FreeMap.Bits.{count_true, count_true-set-true}

-- The bits from `a` up to `b` are set, and no other.
abbrev pub SetBetween : List Bool → (a b : ℕ) → Type 0
SetBetween bits a b = (j : ℕ) → j < length bits → get_elem? bits j ≡ some (leb a j && ltb j b)

-- The loop succeeds, sets the bits of its range and counts them.
record Marked (n i : ℕ) (old new : List Bool) : Type 0 where
  len : length new ≡ length old
  count : count_true new ≡ count_true old + n
  inside : (j : ℕ) → i ≤ j → j < i + n → get_elem? new j ≡ some true
  outside : (j : ℕ) → (j < i) ⊎ (i + n ≤ j) → get_elem? new j ≡ get_elem? old j

Marked-step :
    (n i : ℕ) (old new : List Bool)
    → i < length old
    → get_elem? old i ≡ some false
    → Marked n (i + 1) (set old i true) new
    → Marked (suc n) i old new
Marked-step n i old new h off m = record {
  len = m.len ∙ length-set old i true;
  count = omega (arith, m.count, count_true-set-true old i off);
  inside = λ j le lt. elim (ℕ_discrete i j) [
    | yes e ↦
        subst (λ k. get_elem? new k ≡ some true) e
          (m.outside i (inl (omega arith)) ∙ get_elem?-set_self old i true h)
    | no ne ↦ m.inside j (omega arith) (omega arith)
  ];
  outside = λ j out. m.outside j (split_lem j out) ∙ get_elem?-set_ne old true (apart j out);
}
  where
    split_lem : (j : ℕ) → (j < i) ⊎ (i + suc n ≤ j) → (j < i + 1) ⊎ (i + 1 + n ≤ j)
    split_lem j (inl p) = inl (omega arith)
    split_lem j (inr p) = inr (omega arith)

    apart : (j : ℕ) → (j < i) ⊎ (i + suc n ≤ j) → i ≢ j
    apart j (inl p) = omega arith
    apart j (inr p) = omega arith

mark_free-Marked :
    (n i : ℕ) (bits : List Bool)
    → i + n ≤ length bits
    → ((j : ℕ) → i ≤ j → j < i + n → get_elem? bits j ≡ some false)
    → (bits' : List Bool) × (mark_free n i bits ≡ ok bits') × Marked n i bits bits'
unfolding mark_free
mark_free-Marked zero i bits h off = (
  bits,
  refl,
  record {
    len = refl;
    count = omega arith;
    inside = λ j le lt. absurd (omega arith);
    outside = λ j out. refl;
  },
)
mark_free-Marked (suc n) i bits h off =
    let off' : (j : ℕ) → i + 1 ≤ j → j < i + 1 + n → get_elem? (set bits i true) j ≡ some false =
      λ j le lt. get_elem?-set_ne bits true (omega arith) ∙ off j (omega arith) (omega arith) in
    let (bits', e, m) =
      mark_free-Marked n (i + 1) (set bits i true) (omega (arith, length-set bits i true)) off' in
    (
      bits',
      ground (arith, e),
      Marked-step n i bits bits' (omega arith) (off i (omega arith) (omega arith)) m,
    )

get_elem?-replicate {ℓ} :
    {A : Type ℓ} (n : ℕ) (a : A) (j : ℕ) → j < n → get_elem? (replicate n a) j ≡ some a
get_elem?-replicate zero a j h = absurd (omega arith)
get_elem?-replicate (suc n) a zero h = refl
get_elem?-replicate (suc n) a (suc j) h = get_elem?-replicate n a j (omega arith)

count_true-replicate-false : (n : ℕ) → count_true (replicate n false) ≡ 0
count_true-replicate-false zero = refl
count_true-replicate-false (suc n) = count_true-replicate-false n

-- The room that the blocks of the free map take and give.
layout_fits :
    (space : ℕ)
    → 16 ≤ block_count space
    → (blkn_freemap + freemap_block_count space ≤ block_count space)
      × (block_count space ≤ freemap_block_count space * blkbits)
      × (freemap_block_count space * blkbits < block_count space + 2 * blkbits)
layout_fits space h = (omega arith, omega arith, omega arith)

-- What a new disk of `space` bytes looks like.
pub record IsLaidOut (space : ℕ) (sb : SuperBlock) (map : List Bool) : Type 0 where
  pub blocks : sb.blocks ≡ block_count space
  pub counted : sb.unused_blocks ≡ count_true map
  pub unused : sb.unused_blocks + blkn_freemap + freemap_block_count space ≡ block_count space
  pub covered : block_count space ≤ length map
  pub bounded : length map < 2 ^ 32
  pub free :
      (j : ℕ)
      → blkn_freemap + freemap_block_count space ≤ j
      → j < block_count space
      → get_elem? map j ≡ some true
  pub used :
      (j : ℕ)
      → j < length map
      → (j < blkn_freemap + freemap_block_count space) ⊎ (block_count space ≤ j)
      → get_elem? map j ≡ some false

module _ (space : ℕ) where
  abbrev reserved : ℕ
  reserved = blkn_freemap + freemap_block_count space

  abbrev blank : List Bool
  blank = replicate (freemap_block_count space * blkbits) false

  lay_out-ok :
      (map : List Bool)
      → 16 ≤ block_count space
      → mark_free (block_count space - reserved) reserved blank ≡ ok map
      → lay_out space ≡ ok (super_block_of space (default_info ++ replicate 14 0), map)
  unfolding lay_out
  lay_out-ok map h e = ground (arith, e)

  -- On a disk of at least 16 and at most 2 ^ 31 blocks the layout succeeds. The super block counts
  -- exactly the free blocks of the map, and free are exactly the blocks of the disk behind the super
  -- block, the root and the map.
  pub lay_out-IsLaidOut :
      16 ≤ block_count space
      → block_count space ≤ 2 ^ 31
      → (sb : SuperBlock) × (map : List Bool) × (lay_out space ≡ ok (sb, map))
        × IsLaidOut space sb map
  lay_out-IsLaidOut h k =
      let (fits, covers, room) = layout_fits space h in
      let blank_len : length blank ≡ freemap_block_count space * blkbits =
        length-replicate (freemap_block_count space * blkbits) false in
      let (map, e, m) =
        mark_free-Marked (block_count space - reserved) reserved blank (omega arith) (λ j le lt.
          get_elem?-replicate (freemap_block_count space * blkbits) false j (omega arith)) in
      (
        super_block_of space (default_info ++ replicate 14 0),
        map,
        lay_out-ok map h e,
        record {
          blocks = omega arith;
          counted =
              omega
                (arith, m.count, count_true-replicate-false (freemap_block_count space * blkbits));
          unused = omega arith;
          covered = omega (arith, m.len);
          bounded = omega (arith, m.len);
          free = λ j le lt. m.inside j le (omega arith);
          used = λ j lt out.
              m.outside j (beyond j out)
              ∙ get_elem?-replicate (freemap_block_count space * blkbits) false j
                  (omega (arith, m.len));
        },
      )
    where
      beyond :
          (j : ℕ)
          → (j < reserved) ⊎ (block_count space ≤ j)
          → (j < reserved) ⊎ (reserved + (block_count space - reserved) ≤ j)
      beyond j (inl p) = inl p
      beyond j (inr p) = inr (omega (arith, layout_fits space h))

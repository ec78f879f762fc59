-- ===== src/Sfs/FreeMap/Invariant.antt =====
-- The bookkeeping of free blocks in rcore-fs-sfs/src/lib.rs: the invariant, and that allocating and
-- freeing keep it.
use rcore_fs.Base.{
  ℕ, ◌+◌, ◌-◌, ◌%◌, ◌^◌, ◌<◌, ◌≡◌, ◌≢◌, refl, ◌⊎◌, inl, inr, Bool, true, false, Option, none, some,
  List, arith, length, get_elem?, set, length-set, get_elem?-set_self, ◌==◌,
}
use rcore_fs.Base.Outcome.{ok, panic}
use rcore_fs.Sfs.State.{Sfs}
use rcore_fs.Sfs.FreeMap.{unused, with_unused, with_free_map, alloc_block, free_block}
use rcore_fs.Sfs.FreeMap.Bits.{
  count_true, count_true-set-false, count_true-set-true, count_true-le-length, IsFirstFree,
  alloc-cases, get_elem?-lt-length, set-set,
}

abbrev pub bits : Sfs → List Bool
bits s = s.free_map.value

-- The super block counts the free blocks of the map, and the map is shorter than a `u32` can count.
pub record IsConsistent (s : Sfs) : Type 0 where
  pub counted : unused s ≡ count_true (bits s)
  pub bounded : length (bits s) < 2 ^ 32

-- The state behind an allocation of the block `k`.
abbrev pub taken : Sfs → ℕ → Sfs
taken s k = with_unused (with_free_map s (set (bits s) k false)) (unused s - 1)

-- The state behind the release of the block `k`.
abbrev pub released : Sfs → ℕ → Sfs
released s k = with_unused (with_free_map s (set (bits s) k true)) (unused s + 1)

-- With consistent books `alloc_block` either takes the first free block and writes that down in the
-- map and in the super block, or no block is free and it panics: it never returns `None`.
pub alloc_block_lem :
    (s : Sfs)
    → IsConsistent s
    → ((count_true (bits s) ≡ 0) × (alloc_block s ≡ (with_free_map s (bits s), panic)))
      ⊎ ((k : ℕ) × IsFirstFree (bits s) k × (alloc_block s ≡ (taken s k, ok (some k))))
unfolding alloc_block
alloc_block_lem s c = elim (alloc-cases (bits s)) [
  | inl (full, e) ↦ inl (full, ground (arith, e))
  | inr (k, first, e) ↦
      let some_left : (unused s == 0) ≡ false =
        ground (arith, c.counted, count_true-set-false (bits s) k first.free) in
      inr (k, first, ground (arith, e, some_left))
]

pub taken-IsConsistent :
    (s : Sfs) (k : ℕ) → IsConsistent s → IsFirstFree (bits s) k → IsConsistent (taken s k)
taken-IsConsistent s k c first = record {
  counted = omega (arith, c.counted, count_true-set-false (bits s) k first.free);
  bounded = omega (arith, c.bounded, length-set (bits s) k false);
}

-- `alloc_block` keeps the books consistent, also where it panics.
pub alloc_block-IsConsistent : (s : Sfs) → IsConsistent s → IsConsistent (alloc_block s).0
alloc_block-IsConsistent s c = elim (alloc_block_lem s c) [
  | inl (full, e) ↦ rw e (record { counted = c.counted; bounded = c.bounded })
  | inr (k, first, e) ↦ rw e (taken-IsConsistent s k c first)
]

-- With consistent books, a block in use is marked free and counted, and the sum does not wrap; for any other number
-- `free_block` panics before it has changed anything.
pub free_block_lem :
    (s : Sfs) (k : ℕ)
    → IsConsistent s
    → ((get_elem? (bits s) k ≡ some false) × (free_block k s ≡ (released s k, ok tt)))
      ⊎ ((get_elem? (bits s) k ≢ some false) × (free_block k s ≡ (s, panic)))
unfolding free_block
free_block_lem s k c = go (get_elem? (bits s) k) refl
  where
    go :
        (o : Option Bool)
        → get_elem? (bits s) k ≡ o
        → ((get_elem? (bits s) k ≡ some false) × (free_block k s ≡ (released s k, ok tt)))
          ⊎ ((get_elem? (bits s) k ≢ some false) × (free_block k s ≡ (s, panic)))
    go none e = inr (λ h. cc, rw (e, free_block))
    go (some true) e = inr (λ h. cc, rw (e, free_block))
    go (some false) e =
        let small : unused s + 1 < 2 ^ 32 = omega (
          arith,
          c.counted,
          c.bounded,
          count_true-set-true (bits s) k e,
          count_true-le-length (set (bits s) k true),
          length-set (bits s) k true,
        ) in
        let same : (unused s + 1) % 2 ^ 32 ≡ unused s + 1 = omega arith in
        inl (e, rw (e, free_block, same))

pub released-IsConsistent :
    (s : Sfs) (k : ℕ)
    → IsConsistent s
    → get_elem? (bits s) k ≡ some false
    → IsConsistent (released s k)
released-IsConsistent s k c used = record {
  counted = omega (arith, c.counted, count_true-set-true (bits s) k used);
  bounded = omega (arith, c.bounded, length-set (bits s) k true);
}

-- `free_block` keeps the books consistent, also where it panics.
pub free_block-IsConsistent : (s : Sfs) (k : ℕ) → IsConsistent s → IsConsistent (free_block k s).0
free_block-IsConsistent s k c = elim (free_block_lem s k c) [
  | inl (used, e) ↦ rw e (released-IsConsistent s k c used)
  | inr (_, e) ↦ rw e c
]

-- What an allocation that succeeded has done.
pub alloc_block-taken :
    (s t : Sfs) (k : ℕ)
    → IsConsistent s
    → alloc_block s ≡ (t, ok (some k))
    → IsFirstFree (bits s) k × (t ≡ taken s k)
alloc_block-taken s t k c e = elim (alloc_block_lem s c) [
  | inl (_, e') ↦ absurd (cc e')
  | inr (k', first, e') ↦ let same : k' ≡ k = cc in (rw same at first, ground arith)
]

-- With consistent books, to free the block that `alloc_block` just took succeeds and gives the map
-- and the count from before.
pub free_block-alloc_block :
    (s t : Sfs) (k : ℕ)
    → IsConsistent s
    → alloc_block s ≡ (t, ok (some k))
    → (free_block k t).1 ≡ ok tt
      × (bits (free_block k t).0 ≡ bits s)
      × (unused (free_block k t).0 ≡ unused s)
free_block-alloc_block s t k c e =
    let (first, same) = alloc_block-taken s t k c e in
    let k_lt : k < length (bits s) = get_elem?-lt-length (bits s) k true first.free in
    let used : get_elem? (set (bits s) k false) k ≡ some false =
      get_elem?-set_self (bits s) k false k_lt in
    let c' = taken-IsConsistent s k c first in
    rw same (elim (free_block_lem (taken s k) k c') [
      | inr (unused_block, _) ↦ absurd (unused_block used)
      | inl (_, freed) ↦ rw freed (
        refl,
        set-set (bits s) k true false first.free,
        omega (arith, c.counted, count_true-set-false (bits s) k first.free),
      )
    ])

-- ===== src/Sfs/Resize/Release.antt =====
-- The loop of `_resize` in rcore-fs-sfs/src/lib.rs that frees the blocks of the content.
use native.Mathlib.Decide.{dec_lt}
use rcore_fs.Base.{
  ℕ, zero, suc, ◌+◌, ◌≤◌, ◌<◌, ◌≡◌, ◌≢◌, ◌⊎◌, refl, sym, ap, ◌∙◌, true, false, some, arith, ◌==◌,
  if◌then◌else◌, length, get_elem?, inl, inr, Bool-cases,
}
use rcore_fs.Base.Outcome.{ok}
use rcore_fs.Util.Dirty.{Dirty}
use rcore_fs.Sfs.Layout.{DiskINode, ndirect}
use rcore_fs.Sfs.State.{Sfs}
use rcore_fs.Sfs.BlockMap.{get_disk_block_id}
use rcore_fs.Sfs.FreeMap.{free_block}
use rcore_fs.Sfs.FreeMap.Bits.{count_true, count_true-set-true, get_elem?-lt-length}
use rcore_fs.Sfs.FreeMap.Invariant.{
  bits, IsConsistent, released, free_block_lem, released-IsConsistent,
}
use rcore_fs.Sfs.Content.{block_of_file}
use rcore_fs.Sfs.Resize.{free_blocks}
use rcore_fs.Sfs.Resize.Small.{direct_map, get_or-get_elem?, get_elem?-set}

-- The blocks of the inode `id` from the number `i` on are still in use.
pub record Occupied (s : Sfs) (id : ℕ) (n : Dirty DiskINode) (i : ℕ) : Type 0 where
  pub here : s.inodes id ≡ some n
  pub books : IsConsistent s
  pub direct_len : length n.value.direct ≡ ndirect
  pub few : n.value.blocks < ndirect
  pub in_use :
      (j : ℕ) → i ≤ j → j < n.value.blocks → get_elem? (bits s) (direct_map n.value j) ≡ some false
  pub apart :
      (a b : ℕ)
      → a < n.value.blocks
      → b < n.value.blocks
      → direct_map n.value a ≡ direct_map n.value b
      → a ≡ b

-- What the loop changes: the blocks from the number `i` on are free.
pub record Freed (s s' : Sfs) (n : Dirty DiskINode) (i : ℕ) : Type 0 where
  pub same_device : s'.device ≡ s.device
  pub same_inodes : s'.inodes ≡ s.inodes
  pub books : IsConsistent s'
  pub same_bit :
      (b : ℕ)
      → ((j : ℕ) → i ≤ j → j < n.value.blocks → b ≢ direct_map n.value j)
      → get_elem? (bits s') b ≡ get_elem? (bits s) b
  pub free :
      (j : ℕ) → i ≤ j → j < n.value.blocks → get_elem? (bits s') (direct_map n.value j) ≡ some true
  pub origin :
      (b : ℕ)
      → get_elem? (bits s') b ≡ some true
      → (get_elem? (bits s) b ≡ some true)
        ⊎ ((j : ℕ) × (i ≤ j) × (j < n.value.blocks) × (b ≡ direct_map n.value j))
  pub accounted : count_true (bits s') + i ≡ count_true (bits s) + n.value.blocks

-- One round of the loop.
module _ (s : Sfs) (id i : ℕ) (n : Dirty DiskINode) (held : Occupied s id n i)
    (more : i < n.value.blocks) where
  abbrev k : ℕ
  k = direct_map n.value i

  abbrev s1 : Sfs
  s1 = released s k

  used : get_elem? (bits s) k ≡ some false
  used = held.in_use i (omega arith) more

  find_block : block_of_file id i s ≡ (s, ok k)
  unfolding block_of_file get_disk_block_id
  find_block = ground (
    arith,
    held.here,
    get_or-get_elem? n.value.direct i (omega (arith, held.few, held.direct_len, more)),
    held.few,
    more,
  )

  give_back : free_block k s ≡ (s1, ok tt)
  give_back = elim (free_block_lem s k held.books) [
    | inl (e, run) ↦ run
    | inr (e, run) ↦ absurd (e used)
  ]

  new_bit : (b : ℕ) → get_elem? (bits s1) b ≡ (if k == b then some true else get_elem? (bits s) b)
  new_bit b = get_elem?-set (bits s) k b true (get_elem?-lt-length (bits s) k false used)

  round-Occupied : Occupied s1 id n (i + 1)
  round-Occupied = record {
    here = held.here;
    books =
        let c = released-IsConsistent s k held.books used in
        record { counted = c.counted; bounded = c.bounded };
    direct_len = held.direct_len;
    few = held.few;
    in_use = λ j h h'.
        let other : k ≢ direct_map n.value j =
          λ e. let same = held.apart i j more h' e in absurd (omega (arith, same, h)) in
        ground (arith, new_bit (direct_map n.value j), held.in_use j (omega arith) h', other);
    apart = held.apart;
  }

  free_blocks-step : (c : ℕ) → free_blocks id i (suc c) s ≡ free_blocks id (i + 1) c s1
  unfolding free_blocks
  free_blocks-step c = ground (arith, find_block, give_back)

  origin-step :
      (b : ℕ)
      → (get_elem? (bits s1) b ≡ some true)
        ⊎ ((j : ℕ) × (i + 1 ≤ j) × (j < n.value.blocks) × (b ≡ direct_map n.value j))
      → (get_elem? (bits s) b ≡ some true)
        ⊎ ((j : ℕ) × (i ≤ j) × (j < n.value.blocks) × (b ≡ direct_map n.value j))
  origin-step b (inr (j, h, h', e)) = inr (j, omega arith, h', e)
  origin-step b (inl h) = elim (Bool-cases (k == b)) [
    | inl same ↦ let e : b ≡ k = ground (arith, same) in inr (i, omega arith, more, e)
    | inr other ↦ inl (ground (arith, new_bit b, h, other))
  ]

  Freed-step : (s' : Sfs) → Freed s1 s' n (i + 1) → Freed s s' n i
  Freed-step s' f = record {
    same_device = f.same_device;
    same_inodes = f.same_inodes;
    books = f.books;
    same_bit = λ b out.
        let other : k ≢ b = λ e. out i (omega arith) more (sym e) in
        f.same_bit b (λ j h h'. out j (omega arith) h') ∙ ground (arith, new_bit b, other);
    free = λ j h h'. elim (dec_lt i j) [
      | yes later ↦ f.free j (omega arith) h'
      | no same ↦
          let e : i ≡ j = omega arith in
          let kept =
            f.same_bit k
              (λ a p p' e'. absurd (let q = held.apart i a more p' e' in omega (arith, p, q))) in
          ap (λ a. get_elem? (bits s') (direct_map n.value a)) (sym e)
          ∙ kept
          ∙ ground (arith, new_bit k)
    ];
    origin = λ b h. origin-step b (f.origin b h);
    accounted = omega (arith, f.accounted, count_true-set-true (bits s) k used);
  }

pub free_blocks_lem :
    (s : Sfs) (id i count : ℕ) (n : Dirty DiskINode)
    → Occupied s id n i
    → i + count ≡ n.value.blocks
    → (s' : Sfs) × (free_blocks id i count s ≡ (s', ok tt)) × Freed s s' n i
unfolding free_blocks
free_blocks_lem s id i zero n held e = (
  s,
  refl,
  record {
    same_device = refl;
    same_inodes = refl;
    books = held.books;
    same_bit = λ b h. refl;
    free = λ j h h'. absurd (omega arith);
    origin = λ b h. inl h;
    accounted = omega arith;
  },
)
free_blocks_lem s id i (suc count) n held e =
    let more : i < n.value.blocks = omega arith in
    let (s', run, f) =
      free_blocks_lem (s1 s id i n held more) id (i + 1) count n (round-Occupied s id i n held more)
        (omega arith) in
    (s', free_blocks-step s id i n held more count ∙ run, Freed-step s id i n held more s' f)

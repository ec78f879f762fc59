-- ===== src/Sfs/Resize/Grow.antt =====
-- How a file grows in `_resize` of rcore-fs-sfs/src/lib.rs.
use mathlib.Core.Path.{subst}
use rcore_fs.Base.{
  ℕ, zero, suc, ◌+◌, ◌%◌, ◌^◌, ◌≤◌, ◌<◌, ◌≡◌, ◌≢◌, refl, ap, ◌∙◌, true, false, some, List, arith,
  ◌==◌, if◌then◌else◌, length, get_elem?, set, length-set, inl, inr, Bool-cases,
}
use rcore_fs.Base.Outcome.{ok}
use rcore_fs.Util.Dirty.{Dirty, assign}
use rcore_fs.Sfs.Layout.{DiskINode, ndirect}
use rcore_fs.Sfs.State.{Sfs, put_inode}
use rcore_fs.Sfs.BlockMap.{set_disk_block_id}
use rcore_fs.Sfs.FreeMap.Bits.{count_true, count_true-set-false, get_elem?-lt-length, IsFirstFree}
use rcore_fs.Sfs.FreeMap.Invariant.{bits, IsConsistent, taken, alloc_block_lem, taken-IsConsistent}
use rcore_fs.Sfs.Resize.{expect_block, set_block_of_file, add_blocks}
use rcore_fs.Sfs.Resize.Small.{direct_map, Holds, get_or-set, get_elem?-set}

-- One round of `add_blocks`: the block `i` is the first free one.
module _ (s : Sfs) (id i : ℕ) (n : Dirty DiskINode) (held : Holds s id n i)
    (i_in : i < n.value.blocks) (few : n.value.blocks < ndirect) (k : ℕ)
    (first : IsFirstFree (bits s) k) where
  abbrev with_block : Dirty DiskINode
  with_block = assign n (record (n.value) { direct = set n.value.direct i k })

  abbrev with_inode : Sfs
  with_inode = put_inode (taken s k) id (some with_block)

  k_lt : k < length (bits s)
  k_lt = get_elem?-lt-length (bits s) k true first.free

  round : (set_block_of_file id i k (taken s k)) ≡ (with_inode, ok tt)
  unfolding set_block_of_file set_disk_block_id
  round =
      let small : k % 2 ^ 32 ≡ k = omega (arith, k_lt, held.books.bounded) in
      ground (arith, held.here, held.direct_len, few, small)

  entry_after :
      (j : ℕ) → direct_map with_block.value j ≡ (if i == j then k else direct_map n.value j)
  entry_after j = get_or-set n.value.direct i j k (omega (arith, few, held.direct_len))

  new_bit :
      (b : ℕ)
      → get_elem? (bits with_inode) b ≡ (if k == b then some false else get_elem? (bits s) b)
  new_bit b = get_elem?-set (bits s) k b false k_lt

  old_one : (j : ℕ) → j < i → direct_map with_block.value j ≡ direct_map n.value j
  old_one j h = ground (arith, entry_after j, h)

  new_one : direct_map with_block.value i ≡ k
  new_one = ground (arith, entry_after i)

  was_free : (b : ℕ) → get_elem? (bits with_inode) b ≡ some true → get_elem? (bits s) b ≡ some true
  was_free b h = ground (arith, new_bit b, h)

  stays_used :
      (b : ℕ) → get_elem? (bits s) b ≡ some false → get_elem? (bits with_inode) b ≡ some false
  stays_used b h = ground (arith, new_bit b, h)

  others : (j : ℕ) → id ≢ j → with_inode.inodes j ≡ s.inodes j
  others j h = ground (arith, h)

  -- The new block is none of the old ones.
  fresh : (j : ℕ) → j < i → direct_map n.value j ≢ k
  fresh j h e = absurd (cc (held.in_use j h, ap (get_elem? (bits s)) e, first.free))

  round-Holds : Holds with_inode id with_block (i + 1)
  round-Holds = record {
    here = ground arith;
    books =
        let t = taken-IsConsistent s k held.books first in
        record { counted = t.counted; bounded = t.bounded };
    direct_len = length-set n.value.direct i k ∙ held.direct_len;
    few = omega arith;
    in_use = λ j h.
        ground (arith, entry_after j, held.in_use j, new_bit (direct_map with_block.value j));
    inside = λ j h. ground (arith, entry_after j, held.inside j, held.room k first.free);
    apart = λ a b ha hb e.
        ground (arith, entry_after a, entry_after b, held.apart a b, fresh a, fresh b, e);
    room = λ b h. held.room b (ground (arith, new_bit b, h));
  }

-- What the loop of `add_blocks` changes: from `i` on, `count` entries of the inode `id`, with blocks
-- that were free.
pub record Grown (id i count : ℕ) (s s' : Sfs) (n n' : Dirty DiskINode) : Type 0 where
  pub same_device : s'.device ≡ s.device
  pub same_inodes : (j : ℕ) → id ≢ j → s'.inodes j ≡ s.inodes j
  pub same_fields : (direct : List ℕ) × (n'.value ≡ record (n.value) { direct = direct })
  pub old_entry : (j : ℕ) → j < i → direct_map n'.value j ≡ direct_map n.value j
  pub new_free :
      (j : ℕ) → i ≤ j → j < i + count → get_elem? (bits s) (direct_map n'.value j) ≡ some true
  pub still_used : (b : ℕ) → get_elem? (bits s) b ≡ some false → get_elem? (bits s') b ≡ some false
  pub accounted : count_true (bits s') + count ≡ count_true (bits s)

expect_block_lem :
    (s : Sfs)
    → IsConsistent s
    → 0 < count_true (bits s)
    → (k : ℕ) × IsFirstFree (bits s) k × (expect_block s ≡ (taken s k, ok k))
expect_block_lem s books some_free = elim (alloc_block_lem s books) [
  | inl (full, e) ↦ absurd (omega (arith, full))
  | inr (k, first, e) ↦ (k, first, ground (arith, e))
]

add_blocks-step :
    (s s1 s2 : Sfs) (id i count k : ℕ)
    → expect_block s ≡ (s1, ok k)
    → set_block_of_file id i k s1 ≡ (s2, ok tt)
    → add_blocks id i (suc count) s ≡ add_blocks id (i + 1) count s2
unfolding add_blocks
add_blocks-step s s1 s2 id i count k e e' = ground (arith, e, e')

pub add_blocks_lem :
    (s : Sfs) (id i count : ℕ) (n : Dirty DiskINode)
    → Holds s id n i
    → i + count ≡ n.value.blocks
    → n.value.blocks < ndirect
    → count ≤ count_true (bits s)
    → (s' : Sfs) × (n' : Dirty DiskINode) × (add_blocks id i count s ≡ (s', ok tt))
      × Holds s' id n' n.value.blocks
      × Grown id i count s s' n n'
unfolding add_blocks
add_blocks_lem s id i zero n held e few free =
    let all : i ≡ n.value.blocks = omega arith in
    (
      s,
      n,
      refl,
      subst (λ c. Holds s id n c) all held,
      record {
        same_device = refl;
        same_inodes = λ j h. refl;
        same_fields = (n.value.direct, refl);
        old_entry = λ j h. refl;
        new_free = λ j h h'. absurd (omega arith);
        still_used = λ b h. h;
        accounted = omega arith;
      },
    )
add_blocks_lem s id i (suc count) n held e few free =
    let (k, first, e1) = expect_block_lem s held.books (omega arith) in
    let s1 = with_inode s id i n held (omega arith) few k first in
    let n1 = with_block s id i n held (omega arith) few k first in
    let held1 = round-Holds s id i n held (omega arith) few k first in
    let step =
      add_blocks-step s (taken s k) s1 id i count k e1
        (round s id i n held (omega arith) few k first) in
    let taken_one : count_true (bits s1) + 1 ≡ count_true (bits s) =
      count_true-set-false (bits s) k first.free in
    let (s', n', run, held', g) =
      add_blocks_lem s1 id (i + 1) count n1 held1 (omega arith) few (omega (arith, taken_one)) in
    (
      s',
      n',
      step ∙ run,
      held',
      record {
        same_device = g.same_device;
        same_inodes = λ j h. g.same_inodes j h ∙ others s id i n held (omega arith) few k first j h;
        same_fields = (g.same_fields.0, g.same_fields.1);
        old_entry = λ j h.
            g.old_entry j (omega arith) ∙ old_one s id i n held (omega arith) few k first j h;
        new_free = λ j h h'. elim (Bool-cases (i == j)) [
          | inl same ↦
              let here : i ≡ j = ground (arith, same) in
              subst (λ j. get_elem? (bits s) (direct_map n'.value j) ≡ some true) here
                (ap (get_elem? (bits s))
                    (g.old_entry i (omega arith) ∙ new_one s id i n held (omega arith) few k first)
                  ∙ first.free)
          | inr other ↦
              let next : i + 1 ≤ j = ground (arith, other, h) in
              was_free s id i n held (omega arith) few k first (direct_map n'.value j)
                (g.new_free j next (omega arith))
        ];
        still_used = λ b h. g.still_used b (stays_used s id i n held (omega arith) few k first b h);
        accounted = omega (arith, taken_one, g.accounted);
      },
    )

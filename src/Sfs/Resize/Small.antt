-- ===== src/Sfs/Resize/Small.antt =====
-- Files of rcore-fs-sfs/src/lib.rs whose blocks are all in `direct`, and the free map beside them.
use rcore_fs.Base.{
  ℕ, ◌+◌, ◌*◌, ◌≤◌, ◌<◌, ◌≡◌, refl, true, false, some, List, [], ◌∷◌, arith, ◌==◌, if◌then◌else◌,
  length, get_elem?, get_or, set, suc, zero,
}
use rcore_fs.Util.Dirty.{Dirty}
use rcore_fs.Sfs.Layout.{DiskINode, blksize, ndirect}
use rcore_fs.Sfs.State.{Sfs}
use rcore_fs.Sfs.BlockMap.{get_disk_block_id}
use rcore_fs.Sfs.FreeMap.Invariant.{bits, IsConsistent}
use rcore_fs.Sfs.Content.File.{IsFile}

abbrev pub direct_map : DiskINode → ℕ → ℕ
direct_map n j = get_or n.direct j 0

-- The first `count` blocks of the inode `id` are in place: marked as in use, on the device, apart from
-- each other. A free block is on the device too.
pub record Holds (s : Sfs) (id : ℕ) (n : Dirty DiskINode) (count : ℕ) : Type 0 where
  pub here : s.inodes id ≡ some n
  pub books : IsConsistent s
  pub direct_len : length n.value.direct ≡ ndirect
  pub few : count < ndirect
  pub in_use : (j : ℕ) → j < count → get_elem? (bits s) (direct_map n.value j) ≡ some false
  pub inside : (j : ℕ) → j < count → (direct_map n.value j + 1) * blksize ≤ s.device.size
  pub apart :
      (i j : ℕ) → i < count → j < count → direct_map n.value i ≡ direct_map n.value j → i ≡ j
  pub room : (k : ℕ) → get_elem? (bits s) k ≡ some true → (k + 1) * blksize ≤ s.device.size

pub get_or-get_elem? : (xs : List ℕ) (i : ℕ) → i < length xs → get_elem? xs i ≡ some (get_or xs i 0)
get_or-get_elem? [] i h = absurd (omega arith)
get_or-get_elem? (x ∷ xs) zero h = refl
get_or-get_elem? (x ∷ xs) (suc i) h = get_or-get_elem? xs i (omega arith)

pub get_or-set :
    (xs : List ℕ) (i j v : ℕ)
    → i < length xs
    → get_or (set xs i v) j 0 ≡ (if i == j then v else get_or xs j 0)
get_or-set [] i j v h = absurd (omega arith)
get_or-set (x ∷ xs) zero zero v h = refl
get_or-set (x ∷ xs) zero (suc j) v h = ground arith
get_or-set (x ∷ xs) (suc i) zero v h = ground arith
get_or-set (x ∷ xs) (suc i) (suc j) v h = ground (arith, get_or-set xs i j v (omega arith))

pub get_elem?-set :
    {A : Type 0} (xs : List A) (i j : ℕ) (v : A)
    → i < length xs
    → get_elem? (set xs i v) j ≡ (if i == j then some v else get_elem? xs j)
get_elem?-set [] i j v h = absurd (omega arith)
get_elem?-set (x ∷ xs) zero zero v h = refl
get_elem?-set (x ∷ xs) zero (suc j) v h = ground arith
get_elem?-set (x ∷ xs) (suc i) zero v h = ground arith
get_elem?-set (x ∷ xs) (suc i) (suc j) v h = ground (arith, get_elem?-set xs i j v (omega arith))

-- A file with all its blocks in place is an array of bytes.
pub Holds-IsFile :
    (s : Sfs) (id : ℕ) (n : Dirty DiskINode)
    → Holds s id n n.value.blocks
    → n.value.size ≤ n.value.blocks * blksize
    → IsFile n.value (direct_map n.value) s.device
unfolding get_disk_block_id
Holds-IsFile s id n h sized = record {
  sized = sized;
  mapped = λ j p.
      ground (arith, h.few, get_or-get_elem? n.value.direct j (omega (arith, h.few, h.direct_len)));
  inside = h.inside;
  apart = h.apart;
  not_indirect = λ j p q. absurd (omega (arith, h.few));
  not_db_indirect = λ j p q. absurd (omega (arith, h.few));
  not_pointer = λ i p j q e r. absurd (omega (arith, h.few));
}

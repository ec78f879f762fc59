-- ===== src/Sfs/Content/File.antt =====
-- A file of rcore-fs-sfs/src/lib.rs as an array of bytes: the blocks of its content, apart from each
-- other and from its index blocks.
use rcore_fs.Base.{
  ℕ, zero, suc, ◌+◌, ◌-◌, ◌*◌, ◌/◌, ◌%◌, ◌≤◌, ◌<◌, ◌≡◌, ◌≢◌, refl, sym, ap, ap₂, ◌∙◌, ◌∷◌, arith,
  leb, inl, inr, Bool-cases,
}
use rcore_fs.Base.Outcome.{ok}
use rcore_fs.Sfs.Layout.{
  DiskINode, blksize, ndirect, entry_size, blk_nentry, max_nblock_direct, max_nblock_indirect,
}
use rcore_fs.Sfs.Device.{Device, slice, read_block, read_u32}
use rcore_fs.Sfs.BlockMap.{get_disk_block_id}
use rcore_fs.Sfs.BlockMap.Pointers.{pointer, get_double_frame, get_cong}

pub in_block : (id k : ℕ) → k < blksize → (id * blksize + k) / blksize ≡ id
in_block id k h = omega arith

-- Nothing but blocks of the list `map 0`, ..., `map (n - 1)` differs.
pub record SameElse (map : ℕ → ℕ) (n : ℕ) (d d' : Device) : Type 0 where
  pub same_size : d'.size ≡ d.size
  pub same_byte : (x : ℕ) → ((j : ℕ) → j < n → x / blksize ≢ map j) → d'.byte x ≡ d.byte x

pub SameElse-trans :
    (map : ℕ → ℕ) (n : ℕ) (d d' d'' : Device)
    → SameElse map n d d'
    → SameElse map n d' d''
    → SameElse map n d d''
SameElse-trans map n d d' d'' p q = record {
  same_size = q.same_size ∙ p.same_size;
  same_byte = λ x out. q.same_byte x out ∙ p.same_byte x out;
}

pub slice-cong :
    (f g : ℕ → ℕ) (a n : ℕ) → ((k : ℕ) → k < n → g (a + k) ≡ f (a + k)) → slice g a n ≡ slice f a n
unfolding slice
slice-cong f g a zero h = refl
slice-cong f g a (suc n) h =
    ap₂ ◌∷◌ (let e : a + 0 ≡ a = omega arith in sym (ap g e) ∙ h 0 (omega arith) ∙ ap f e) (
      slice-cong f g (a + 1) n (λ k p.
        let e : a + suc k ≡ a + 1 + k = omega arith in
        sym (ap g e) ∙ h (suc k) (omega arith) ∙ ap f e))

-- A block that is not among those that differ is read as before.
pub read_block-SameElse :
    (map : ℕ → ℕ) (n : ℕ) (d d' : Device) (id offset len : ℕ)
    → SameElse map n d d'
    → ((j : ℕ) → j < n → id ≢ map j)
    → read_block d' id offset len ≡ read_block d id offset len
unfolding read_block
read_block-SameElse map n d d' id offset len same out =
    elim (Bool-cases (leb (offset + len) blksize)) [
      | inl fits ↦
          let bytes : slice d'.byte (id * blksize + offset) len
              ≡ slice d.byte (id * blksize + offset) len =
            slice-cong d.byte d'.byte (id * blksize + offset) len (λ k h.
              same.same_byte (id * blksize + offset + k) (λ j p e. out j p (
                sym (in_block id (offset + k) (ground (arith, fits, h)))
                ∙ (ap (λ x. x / blksize) (omega arith) ∙ e)))) in
          rw (same.same_size, bytes) refl
      | inr out_of_block ↦ ground (arith, out_of_block)
    ]

-- The blocks of a file: its content is in the blocks `map 0`, `map 1`, ...
pub record IsFile (n : DiskINode) (map : ℕ → ℕ) (d : Device) : Type 0 where
  pub sized : n.size ≤ n.blocks * blksize
  pub mapped : (j : ℕ) → j < n.blocks → get_disk_block_id n d j ≡ ok (map j)
  pub inside : (j : ℕ) → j < n.blocks → (map j + 1) * blksize ≤ d.size
  pub apart : (i j : ℕ) → i < n.blocks → j < n.blocks → map i ≡ map j → i ≡ j
  pub not_indirect : (j : ℕ) → j < n.blocks → max_nblock_direct < n.blocks → n.indirect ≢ map j
  pub not_db_indirect :
      (j : ℕ) → j < n.blocks → max_nblock_indirect < n.blocks → n.db_indirect ≢ map j
  pub not_pointer :
      (i p j : ℕ)
      → max_nblock_indirect + i < n.blocks
      → pointer n d i ≡ ok p
      → j < n.blocks
      → p ≢ map j

module _ (n : DiskINode) (map : ℕ → ℕ) (d d' : Device) (file : IsFile n map d)
    (same : SameElse map n.blocks d d') where
  read_u32-same :
      (id offset : ℕ)
      → ((j : ℕ) → j < n.blocks → id ≢ map j)
      → read_u32 d' id offset ≡ read_u32 d id offset
  unfolding read_u32
  read_u32-same id offset out = rw (read_block-SameElse map n.blocks d d' id offset 4 same out) refl

  -- The block map does not depend on the content.
  pub get_disk_block_id-same :
      (j : ℕ) → j < n.blocks → get_disk_block_id n d' j ≡ get_disk_block_id n d j
  get_disk_block_id-same j h =
      get_cong n d d' j
        (λ low high.
          read_u32-same n.indirect (entry_size * (j - ndirect))
            (λ k p. file.not_indirect k p (omega arith)))
        (λ low high.
          get_double_frame n d d' (j - max_nblock_indirect)
            (pointer_same (j - max_nblock_indirect) (omega arith))
            (λ p e.
              read_u32-same p _
                (λ k q. file.not_pointer (j - max_nblock_indirect) p k (omega arith) e q)))
    where
      pointer_same : (i : ℕ) → max_nblock_indirect + i < n.blocks → pointer n d' i ≡ pointer n d i
      pointer_same i p =
          read_u32-same n.db_indirect (entry_size * (i / blk_nentry))
            (λ k q. file.not_db_indirect k q (omega arith))

  -- So the file stays a file, with the same blocks.
  pub IsFile-same : IsFile n map d'
  IsFile-same = record {
    sized = file.sized;
    mapped = λ j h. get_disk_block_id-same j h ∙ file.mapped j h;
    inside = λ j h. omega (arith, file.inside j h, same.same_size);
    apart = file.apart;
    not_indirect = file.not_indirect;
    not_db_indirect = file.not_db_indirect;
    not_pointer = λ i p j h e q.
        file.not_pointer i p j h
          (sym (
              read_u32-same n.db_indirect (entry_size * (i / blk_nentry))
                (λ k r. file.not_db_indirect k r (omega arith)))
            ∙ e)
          q;
  }

-- The byte of the content at `x`.
abbrev pub content : (ℕ → ℕ) → Device → ℕ → ℕ
content map d x = d.byte (map (x / blksize) * blksize + x % blksize)

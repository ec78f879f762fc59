-- ===== src/Sfs/BlockMap/Update.antt =====
-- `set_disk_block_id` (rcore-fs-sfs/src/lib.rs) updates the block map at one place.
use mathlib.Core.Path.{subst, subst₂}
use native.Mathlib.Decide.{ℕ_discrete, dec_lt}
use rcore_fs.Base.{
  ℕ, ◌+◌, ◌-◌, ◌*◌, ◌/◌, ◌%◌, ◌^◌, ◌≤◌, ◌<◌, ◌≡◌, ◌≢◌, sym, ◌∙◌, ◌⊎◌, inl, inr, false, arith, ◌==◌,
  if◌then◌else◌, get_elem?-set_self, get_elem?-set_ne, Bool-cases, ==_iff,
}
use rcore_fs.Base.Outcome.{ok}
use rcore_fs.Base.Fallible.{>>=-cut}
use rcore_fs.Util.Dirty.{Dirty}
use rcore_fs.Sfs.Layout.{
  DiskINode, ndirect, entry_size, blk_nentry, max_nblock_direct, max_nblock_indirect,
  max_nblock_double_indirect,
}
use rcore_fs.Sfs.Device.{Device, read_u32, write_u32}
use rcore_fs.Sfs.Device.Store.{Apart, read_u32-write_u32, read_u32-write_u32_ne}
use rcore_fs.Sfs.BlockMap.{
  read_pointer, get_double, get_disk_block_id, set_direct, set_double, set_disk_block_id,
}
use rcore_fs.Sfs.BlockMap.Pointers.{
  pointer, IsApart, get_double_frame, get_double_hit, get_indirect, get_behind, get_cong,
}

-- Different entries of one index block do not overlap.
slots_apart :
    (a b : ℕ)
    → a ≢ b
    → (entry_size * a + 4 ≤ entry_size * b) ⊎ (entry_size * b + 4 ≤ entry_size * a)
slots_apart a b ne = ground arith

==_ne : (a b : ℕ) → a ≢ b → (a == b) ≡ false
==_ne a b ne = ground arith

abbrev Updated : DiskINode → Device → DiskINode → Device → (id v j : ℕ) → Type 0
Updated inode device inode' device' id v j =
    get_disk_block_id inode' device' j
    ≡ (if id == j then ok v else get_disk_block_id inode device j)

-- The parts of `set_disk_block_id`, by the level of the block.
module _ (inode : Dirty DiskINode) (device : Device) (id v : ℕ) (apart : IsApart inode.value device)
    (in_file : id < inode.value.blocks) where
  Updated-direct :
      id < max_nblock_direct
      → (j : ℕ) → Updated inode.value device (set_direct inode id v).value device id v j
  unfolding get_disk_block_id get_double read_pointer set_direct
  Updated-direct low j = ground (
    arith,
    get_elem?-set_self inode.value.direct id v (omega (arith, apart.direct_len)),
    get_elem?-set_ne inode.value.direct {i = id} {j = j} v,
  )

-- A block map that holds `v` at `id` and is the old one elsewhere is updated.
Updated-intro :
    (inode : DiskINode) (device device' : Device) (id v j : ℕ)
    → get_disk_block_id inode device' id ≡ ok v
    → (id ≢ j → get_disk_block_id inode device' j ≡ get_disk_block_id inode device j)
    → Updated inode device inode device' id v j
Updated-intro inode device device' id v j hit miss = elim (ℕ_discrete id j) [
  | yes e ↦ rw ((==_iff id j).1 e) (subst (λ k. get_disk_block_id inode device' k ≡ ok v) e hit)
  | no ne ↦ rw (==_ne id j ne) (miss ne)
]

module _ (inode : DiskINode) (device : Device) (id v : ℕ) (apart : IsApart inode device)
    (in_file : id < inode.blocks) {device' : Device} (small : v < 2 ^ 32) where
  Updated-indirect :
      max_nblock_direct ≤ id
      → id < max_nblock_indirect
      → write_u32 device inode.indirect (entry_size * (id - ndirect)) v ≡ ok device'
      → (j : ℕ) → Updated inode device inode device' id v j
  Updated-indirect low high e j =
      Updated-intro inode device device' id v j
        (get_indirect inode device' id in_file low high
          ∙ read_u32-write_u32 device inode.indirect (entry_size * (id - ndirect)) v e small)
        (λ ne. get_cong inode device device' j (λ le lt. elsewhere le ne) double)
    where
      elsewhere :
          max_nblock_direct ≤ j
          → id ≢ j
          → read_u32 device' inode.indirect (entry_size * (j - ndirect))
            ≡ read_u32 device inode.indirect (entry_size * (j - ndirect))
      elsewhere le ne =
          read_u32-write_u32_ne device inode.indirect (entry_size * (id - ndirect)) v e
            inode.indirect (entry_size * (j - ndirect))
            (inr (slots_apart (id - ndirect) (j - ndirect) (omega arith)))

      double :
          max_nblock_indirect ≤ j
          → j < inode.blocks
          → get_double inode device' (j - max_nblock_indirect)
            ≡ get_double inode device (j - max_nblock_indirect)
      double le lt =
          get_double_frame inode device device' (j - max_nblock_indirect)
            (read_u32-write_u32_ne device inode.indirect (entry_size * (id - ndirect)) v e
              inode.db_indirect _ (inl (apart.levels (omega arith))))
            (λ p at.
              read_u32-write_u32_ne device inode.indirect (entry_size * (id - ndirect)) v e p _ (
                inl (λ eq. (apart.second (j - max_nblock_indirect) p (omega arith) at).1 (sym eq))))

  Updated-double :
      (p : ℕ)
      → 0 < v
      → max_nblock_indirect ≤ id
      → id < max_nblock_double_indirect
      → pointer inode device (id - max_nblock_indirect) ≡ ok p
      → (p == 0) ≡ false
      → write_u32 device p (entry_size * ((id - max_nblock_indirect) % blk_nentry)) v ≡ ok device'
      → (j : ℕ) → Updated inode device inode device' id v j
  Updated-double p pos low high at nonzero e j =
      Updated-intro inode device device' id v j
        (get_behind inode device' id in_file low high
          ∙ get_double_hit inode device device' (id - max_nblock_indirect)
              (pointer_same (id - max_nblock_indirect)) p v at nonzero (==_ne v 0 (omega arith))
              (read_u32-write_u32 device p slot v e small))
        (λ ne. get_cong inode device device' j indirect (λ le lt. double le lt ne))
    where
      slot : ℕ
      slot = entry_size * ((id - max_nblock_indirect) % blk_nentry)

      own : (p ≢ inode.db_indirect) × (p ≢ inode.indirect)
      own = apart.second (id - max_nblock_indirect) p (omega arith) at

      pointer_same : (i : ℕ) → pointer inode device' i ≡ pointer inode device i
      pointer_same i = read_u32-write_u32_ne device p slot v e inode.db_indirect _ (inl own.0)

      indirect :
          max_nblock_direct ≤ j
          → j < max_nblock_indirect
          → read_u32 device' inode.indirect (entry_size * (j - ndirect))
            ≡ read_u32 device inode.indirect (entry_size * (j - ndirect))
      indirect le lt = read_u32-write_u32_ne device p slot v e inode.indirect _ (inl own.1)

      entry :
          (q : ℕ)
          → max_nblock_indirect ≤ j
          → j < inode.blocks
          → id ≢ j
          → pointer inode device (j - max_nblock_indirect) ≡ ok q
          → Apart p slot q (entry_size * ((j - max_nblock_indirect) % blk_nentry))
      entry q le lt ne at' =
          elim (ℕ_discrete ((id - max_nblock_indirect) / blk_nentry)
            ((j - max_nblock_indirect) / blk_nentry)) [
              | no other ↦ inl (
                  apart.distinct (id - max_nblock_indirect) (j - max_nblock_indirect) p q
                    (omega arith) (omega arith) other at at')
              | yes same ↦ inr (slots_apart _ _ (omega arith))
            ]

      double :
          max_nblock_indirect ≤ j
          → j < inode.blocks
          → id ≢ j
          → get_double inode device' (j - max_nblock_indirect)
            ≡ get_double inode device (j - max_nblock_indirect)
      double le lt ne =
          get_double_frame inode device device' (j - max_nblock_indirect)
            (pointer_same (j - max_nblock_indirect))
            (λ q at'. read_u32-write_u32_ne device p slot v e q _ (entry q le lt ne at'))

-- Which level a call that succeeded has written.
pub data Written (inode : Dirty DiskINode) (device : Device) (id v : ℕ) (inode' : Dirty DiskINode)
    (device' : Device) : Type 0 where
  in_direct :
      id < max_nblock_direct
      → inode' ≡ set_direct inode id v
      → device' ≡ device
      → Written inode device id v inode' device'
  in_indirect :
      max_nblock_direct ≤ id
      → id < max_nblock_indirect
      → inode' ≡ inode
      → write_u32 device inode.value.indirect (entry_size * (id - ndirect)) v ≡ ok device'
      → Written inode device id v inode' device'
  in_double :
      max_nblock_indirect ≤ id
      → id < max_nblock_double_indirect
      → inode' ≡ inode
      → set_double inode.value device (id - max_nblock_indirect) v ≡ ok device'
      → Written inode device id v inode' device'

module _ (inode : Dirty DiskINode) (device : Device) (id v : ℕ) {inode' : Dirty DiskINode}
    {device' : Device} (small : v < 2 ^ 32)
    (done : set_disk_block_id inode device id v ≡ ok (inode', device')) where
  in_file_of_ok : id < inode.value.blocks
  unfolding set_disk_block_id
  in_file_of_ok = elim (dec_lt id inode.value.blocks) [ yes p ↦ p | no p ↦ absurd (ground arith) ]

  pub set-Written : Written inode device id v inode' device'
  unfolding set_disk_block_id
  set-Written =
      let same : v % 2 ^ 32 ≡ v = omega arith in
      let inside = in_file_of_ok in
      elim (dec_lt id max_nblock_direct) [
        | yes p ↦ in_direct p (ground arith) (ground arith)
        | no p ↦ elim (dec_lt id max_nblock_indirect) [
          | yes q ↦ in_indirect (omega arith) q (ground arith) (ground arith)
          | no q ↦ elim (dec_lt id max_nblock_double_indirect) [
            | yes r ↦ in_double (omega arith) r (ground arith) (ground arith)
            | no r ↦ absurd (ground arith)
          ]
        ]
      ]

pub set_double-pointer :
    (inode : DiskINode) (device : Device) (i v : ℕ) {device' : Device}
    → set_double inode device i v ≡ ok device'
    → (p : ℕ) × (pointer inode device i ≡ ok p)
      × ((p == 0) ≡ false)
      × (write_u32 device p (entry_size * (i % blk_nentry)) v ≡ ok device')
unfolding set_double
set_double-pointer inode device i v {device'} h =
    let (q, written, found) = >>=-cut (read_pointer inode device i) _ h in
    let (p, checked, at) = >>=-cut (pointer inode device i) _ found in
    elim (Bool-cases (p == 0)) [
      | inl zero_block ↦ absurd (ground (arith, checked))
      | inr nonzero ↦
          let same : p ≡ q = ground (arith, checked) in
          (
            p,
            at,
            nonzero,
            subst (λ r. write_u32 device r (entry_size * (i % blk_nentry)) v ≡ ok device')
                (sym same) written,
          )
    ]

-- Where the index blocks of a file are apart, a call of `set_disk_block_id` that succeeds changes the
-- block map at `id` and nowhere else: `get_disk_block_id` gives the new number there, and at every
-- other block what it gave before, errors included.
pub get-set_disk_block_id :
    (inode : Dirty DiskINode) (device : Device) (id v : ℕ) {inode' : Dirty DiskINode}
    {device' : Device}
    → IsApart inode.value device
    → 0 < v
    → v < 2 ^ 32
    → set_disk_block_id inode device id v ≡ ok (inode', device')
    → (j : ℕ)
    → get_disk_block_id inode'.value device' j
      ≡ (if id == j then ok v else get_disk_block_id inode.value device j)
get-set_disk_block_id inode device id v {inode'} {device'} apart pos small done j =
    go (set-Written inode device id v small done)
  where
    inside : id < inode.value.blocks
    inside = in_file_of_ok inode device id v small done

    go :
        Written inode device id v inode' device'
        → Updated inode.value device inode'.value device' id v j
    go (in_direct low e e') =
        subst₂ (λ a b. Updated inode.value device (Dirty.value a) b id v j) (sym e) (sym e')
          (Updated-direct inode device id v apart inside low j)
    go (in_indirect low high e w) =
        subst (λ a. Updated inode.value device (Dirty.value a) device' id v j) (sym e)
          (Updated-indirect inode.value device id v apart inside small low high w j)
    go (in_double low high e w) =
        let (p, at, nonzero, written) =
          set_double-pointer inode.value device (id - max_nblock_indirect) v w in
        subst (λ a. Updated inode.value device (Dirty.value a) device' id v j) (sym e)
          (Updated-double inode.value device id v apart inside small p pos low high at nonzero
            written j)

-- ===== src/Sfs/BlockMap/Total.antt =====
-- `set_disk_block_id` (rcore-fs-sfs/src/lib.rs) succeeds on a file whose index blocks are in place,
-- and leaves them in place.
use mathlib.Core.Path.{subst, subst₂}
use native.Mathlib.Decide.{dec_lt}
use rcore_fs.Base.{
  ℕ, ◌+◌, ◌-◌, ◌*◌, ◌%◌, ◌^◌, ◌≤◌, ◌<◌, ◌≡◌, ◌≢◌, refl, sym, ◌∙◌, inl, arith, ◌==◌, if◌then◌else◌,
  length, length-set,
}
use rcore_fs.Base.Outcome.{ok}
use rcore_fs.Util.Dirty.{Dirty}
use rcore_fs.Sfs.Layout.{
  DiskINode, blksize, ndirect, entry_size, blk_nentry, max_nblock_direct, max_nblock_indirect,
  max_nblock_double_indirect,
}
use rcore_fs.Sfs.Device.{Device, write_u32}
use rcore_fs.Sfs.Device.Store.{size-write_u32, read_u32-write_u32_ne, write_u32-ok}
use rcore_fs.Sfs.BlockMap.{get_disk_block_id, set_direct, set_double, set_disk_block_id}
use rcore_fs.Sfs.BlockMap.Pointers.{pointer, IsApart}
use rcore_fs.Sfs.BlockMap.Update.{
  Written, in_direct, in_indirect, in_double, set-Written, set_double-pointer,
  get-set_disk_block_id,
}

-- The index blocks that the file needs lie on the device.
pub record IsMapped (inode : DiskINode) (device : Device) : Type 0 where
  pub blocks_le : inode.blocks ≤ max_nblock_double_indirect
  pub indirect_in : max_nblock_direct < inode.blocks → (inode.indirect + 1) * blksize ≤ device.size
  pub pointer_in :
      (i : ℕ)
      → max_nblock_indirect + i < inode.blocks
      → (p : ℕ) × (pointer inode device i ≡ ok p) × (0 < p) × ((p + 1) * blksize ≤ device.size)

module _ (inode : Dirty DiskINode) (device : Device) (id v : ℕ) (m : IsMapped inode.value device)
    (apart : IsApart inode.value device) (in_file : id < inode.value.blocks)
    (small : v < 2 ^ 32) where
  abbrev Succeeds : Type 0
  Succeeds =
      (inode' : Dirty DiskINode) × (device' : Device) × (set_disk_block_id inode device id v
        ≡ ok (inode', device'))

  set_ok-direct : id < max_nblock_direct → Succeeds
  unfolding set_disk_block_id
  set_ok-direct low =
      let same : v % 2 ^ 32 ≡ v = omega arith in
      (set_direct inode id v, device, ground (arith, apart.direct_len))

  set_ok-indirect : max_nblock_direct ≤ id → id < max_nblock_indirect → Succeeds
  unfolding set_disk_block_id
  set_ok-indirect low high =
      let same : v % 2 ^ 32 ≡ v = omega arith in
      let (device', e) =
        write_u32-ok device inode.value.indirect (entry_size * (id - ndirect)) v (omega arith)
          (omega (arith, m.indirect_in (omega arith))) in
      (inode, device', ground (arith, e))

  set_ok-double : max_nblock_indirect ≤ id → Succeeds
  unfolding set_disk_block_id set_double
  set_ok-double low =
      let same : v % 2 ^ 32 ≡ v = omega arith in
      let (p, at, pos, room) = m.pointer_in (id - max_nblock_indirect) (omega arith) in
      let (device', e) =
        write_u32-ok device p (entry_size * ((id - max_nblock_indirect) % blk_nentry)) v
          (omega arith) (omega arith) in
      (inode, device', ground (arith, e, at, m.blocks_le))

  set_disk_block_id-ok : Succeeds
  set_disk_block_id-ok = elim (dec_lt id max_nblock_direct) [
    | yes p ↦ set_ok-direct p
    | no p ↦ elim (dec_lt id max_nblock_indirect) [
      | yes q ↦ set_ok-indirect (omega arith) q
      | no q ↦ set_ok-double (omega arith)
    ]
  ]

-- The index blocks stay where they are: what the file sees of the double indirect block, and where
-- the index blocks are, is as before.
record SameIndex (inode : DiskINode) (device : Device) (inode' : DiskINode) (device' : Device)
    : Type 0 where
  blocks : inode'.blocks ≡ inode.blocks
  direct_len : length inode'.direct ≡ length inode.direct
  indirect : inode'.indirect ≡ inode.indirect
  db_indirect : inode'.db_indirect ≡ inode.db_indirect
  size : device'.size ≡ device.size
  pointers :
      (i : ℕ)
      → max_nblock_indirect + i < inode.blocks
      → pointer inode' device' i ≡ pointer inode device i

module _ {inode : DiskINode} {device : Device} {inode' : DiskINode} {device' : Device}
    (same : SameIndex inode device inode' device') where
  SameIndex-IsApart : IsApart inode device → IsApart inode' device'
  SameIndex-IsApart a = record {
    direct_len = same.direct_len ∙ a.direct_len;
    levels = λ h. ground (arith, same.indirect, same.db_indirect, same.blocks, a.levels);
    second = λ i p h at.
        let (x, y) =
          a.second i p (omega (arith, same.blocks))
            (sym (same.pointers i (omega (arith, same.blocks))) ∙ at) in
        (omega (arith, x, same.db_indirect), omega (arith, y, same.indirect));
    distinct = λ i j p q hi hj ne at at'.
        a.distinct i j p q (omega (arith, same.blocks)) (omega (arith, same.blocks)) ne
          (sym (same.pointers i (omega (arith, same.blocks))) ∙ at)
          (sym (same.pointers j (omega (arith, same.blocks))) ∙ at');
  }

  SameIndex-IsMapped : IsMapped inode device → IsMapped inode' device'
  SameIndex-IsMapped m = record {
    blocks_le = omega (arith, m.blocks_le, same.blocks);
    indirect_in =
        λ h. omega (arith, m.indirect_in (omega (arith, same.blocks)), same.indirect, same.size);
    pointer_in = λ i h.
        let (p, at, pos, room) = m.pointer_in i (omega (arith, same.blocks)) in
        (p, same.pointers i (omega (arith, same.blocks)) ∙ at, pos, omega (arith, room, same.size));
  }

-- A write to another block leaves the index in place.
SameIndex-write :
    (inode : DiskINode) (device : Device) (b offset v : ℕ) {device' : Device}
    → (max_nblock_indirect < inode.blocks → b ≢ inode.db_indirect)
    → write_u32 device b offset v ≡ ok device'
    → SameIndex inode device inode device'
SameIndex-write inode device b offset v ne e = record {
  blocks = refl;
  direct_len = refl;
  indirect = refl;
  db_indirect = refl;
  size = size-write_u32 device b offset v e;
  pointers =
      λ i h. read_u32-write_u32_ne device b offset v e inode.db_indirect _ (inl (ne (omega arith)));
}

Written-SameIndex :
    (inode : Dirty DiskINode) (device : Device) (id v : ℕ) {inode' : Dirty DiskINode}
    {device' : Device}
    → IsApart inode.value device
    → id < inode.value.blocks
    → Written inode device id v inode' device'
    → SameIndex inode.value device inode'.value device'
unfolding set_direct
Written-SameIndex inode device id v apart inside (in_direct low e e') =
    subst₂ (λ a b. SameIndex inode.value device (Dirty.value a) b) (sym e) (sym e')
      (record {
        blocks = refl;
        direct_len = length-set inode.value.direct id v;
        indirect = refl;
        db_indirect = refl;
        size = refl;
        pointers = λ i h. refl;
      })
Written-SameIndex inode device id v {device' = device'} apart inside (in_indirect low high e w) =
    subst (λ a. SameIndex inode.value device (Dirty.value a) device') (sym e)
      (SameIndex-write inode.value device inode.value.indirect _ v apart.levels w)
Written-SameIndex inode device id v {device' = device'} apart inside (in_double low high e w) =
    let (p, at, nonzero, written) =
      set_double-pointer inode.value device (id - max_nblock_indirect) v w in
    let ne = (apart.second (id - max_nblock_indirect) p (omega arith) at).0 in
    subst (λ a. SameIndex inode.value device (Dirty.value a) device') (sym e)
      (SameIndex-write inode.value device p _ v (λ h. ne) written)

-- For a block of a file whose index blocks are in place and apart, and a nonzero number of 32 bits,
-- `set_disk_block_id` succeeds. It changes the block map at that block and nowhere else, and the index
-- blocks are in place and apart as before.
pub set_disk_block_id_lem :
    (inode : Dirty DiskINode) (device : Device) (id v : ℕ)
    → IsMapped inode.value device
    → IsApart inode.value device
    → id < inode.value.blocks
    → 0 < v
    → v < 2 ^ 32
    → (inode' : Dirty DiskINode) × (device' : Device) × (set_disk_block_id inode device id v
        ≡ ok (inode', device'))
      × ((j : ℕ)
          → get_disk_block_id inode'.value device' j
            ≡ (if id == j then ok v else get_disk_block_id inode.value device j))
      × IsMapped inode'.value device'
      × IsApart inode'.value device'
set_disk_block_id_lem inode device id v m apart inside pos small =
    let (inode', device', e) = set_disk_block_id-ok inode device id v m apart inside small in
    let same =
      Written-SameIndex inode device id v apart inside (set-Written inode device id v small e) in
    (
      inode',
      device',
      e,
      get-set_disk_block_id inode device id v apart pos small e,
      SameIndex-IsMapped same m,
      SameIndex-IsApart same apart,
    )

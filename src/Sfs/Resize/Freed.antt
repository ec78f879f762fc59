-- ===== src/Sfs/Resize/Freed.antt =====
-- What `_resize` of rcore-fs-sfs/src/lib.rs gives back of a file that shrinks.
use rcore_fs.Base.{
  ℕ, ◌+◌, ◌-◌, ◌*◌, ◌/◌, ◌%◌, ◌^◌, ◌≤◌, ◌<◌, ◌≡◌, ◌≢◌, refl, ap, ◌∙◌, true, false, some, arith, leb,
  get_elem?, inl, inr, Option,
}
use rcore_fs.Base.Outcome.{ok}
use rcore_fs.Util.Dirty.{Dirty, assign}
use rcore_fs.Sfs.Layout.{DiskINode, blksize, ndirect}
use rcore_fs.Sfs.Device.{Device}
use rcore_fs.Sfs.State.{Sfs, put_inode}
use rcore_fs.Sfs.FreeMap.Bits.{count_true}
use rcore_fs.Sfs.FreeMap.Invariant.{bits}
use rcore_fs.Sfs.Content.File.{content}
use rcore_fs.Sfs.Resize.{free_blocks, free_indirect, free_second_level, blocks_for, shrink, resize}
use rcore_fs.Sfs.Resize.Small.{direct_map, Holds}
use rcore_fs.Sfs.Resize.Release.{Occupied, free_blocks_lem}

-- A file that has shrunk to `len` bytes: the bytes left are in place, the blocks behind them are free.
pub record HasShrunk (s s' : Sfs) (id : ℕ) (n n' : Dirty DiskINode) (len : ℕ) : Type 0 where
  pub size : n'.value.size ≡ len
  pub blocks : n'.value.blocks ≡ blocks_for len
  pub same_device : s'.device ≡ s.device
  pub kept :
      (x : ℕ) → content (direct_map n'.value) s'.device x ≡ content (direct_map n.value) s.device x
  pub others : (j : ℕ) → id ≢ j → s'.inodes j ≡ s.inodes j
  pub same_bit :
      (b : ℕ)
      → ((j : ℕ) → blocks_for len ≤ j → j < n.value.blocks → b ≢ direct_map n.value j)
      → get_elem? (bits s') b ≡ get_elem? (bits s) b
  pub freed :
      (j : ℕ)
      → blocks_for len ≤ j
      → j < n.value.blocks
      → get_elem? (bits s') (direct_map n.value j) ≡ some true
  pub accounted : count_true (bits s') + blocks_for len ≡ count_true (bits s) + n.value.blocks

-- The shrinking is that of the direct blocks alone.
shrink_lem :
    (s t : Sfs) (id blocks len : ℕ) (n : Dirty DiskINode)
    → n.value.blocks < ndirect
    → len < 2 ^ 32
    → free_blocks id blocks (n.value.blocks - blocks) s ≡ (t, ok tt)
    → t.inodes id ≡ some n
    → shrink id n.value.blocks blocks len s
      ≡ (put_inode t id (some (assign n (record (n.value) { blocks = blocks; size = len }))), ok tt)
unfolding shrink free_indirect free_second_level
shrink_lem s t id blocks len n few small run here =
    let fits : len % 2 ^ 32 ≡ len = omega (arith, small) in
    let direct : leb ndirect n.value.blocks ≡ false = ground (arith, few) in
    ground (arith, run, here, fits, direct, few)

module _ (s : Sfs) (id : ℕ) (n : Dirty DiskINode) (held : Holds s id n n.value.blocks) (len : ℕ)
    (small : len < 2 ^ 32) (less : blocks_for len < n.value.blocks) where
  abbrev shrunk : Dirty DiskINode
  shrunk = assign n (record (n.value) { blocks = blocks_for len; size = len })

  resize-shrink :
      (r : Sfs)
      → shrink id n.value.blocks (blocks_for len) len s ≡ (r, ok tt)
      → resize id len s ≡ (r, ok tt)
  unfolding resize
  resize-shrink r e = ground (arith, held.here, held.few, e, small, less)

  -- In a file of fewer than 12 blocks, which are in use, on the device and apart, with consistent
  -- books and all free blocks on the device, `_resize` to a smaller number of blocks succeeds. The bytes of the file stay as they are, on the device and
  -- through the block list; the blocks behind the new end are free afterwards, and no other bit of
  -- the free map changes. The blocks left are in use and apart from each other as before.
  pub resize_shrink_lem :
      (s' : Sfs) × (resize id len s ≡ (s', ok tt))
      × Holds s' id shrunk (blocks_for len)
      × HasShrunk s s' id n shrunk len
  resize_shrink_lem =
      let occupied : Occupied s id n (blocks_for len) = record {
        here = held.here;
        books = held.books;
        direct_len = held.direct_len;
        few = held.few;
        in_use = λ j h h'. held.in_use j h';
        apart = held.apart;
      } in
      let (t, run, f) =
        free_blocks_lem s id (blocks_for len) (n.value.blocks - blocks_for len) n occupied
          (omega (arith, less)) in
      let here : t.inodes id ≡ some n =
        ap (λ (g : ℕ → Option (Dirty DiskINode)). g id) f.same_inodes ∙ held.here in
      (
        put_inode t id (some shrunk),
        resize-shrink (put_inode t id (some shrunk))
            (shrink_lem s t id (blocks_for len) len n held.few small run here),
        record {
          here = ground arith;
          books = record { counted = f.books.counted; bounded = f.books.bounded };
          direct_len = held.direct_len;
          few = omega (arith, held.few, less);
          in_use = λ j h.
              f.same_bit (direct_map n.value j) (λ a p p' e.
                let q = held.apart j a (omega (arith, less)) p' e in absurd (omega (arith, q, p)))
              ∙ held.in_use j (omega (arith, less));
          inside = λ j h. ground (arith, f.same_device, held.inside j (omega (arith, less)));
          apart = λ a b h h'. held.apart a b (omega (arith, less)) (omega (arith, less));
          room = λ k h. elim (f.origin k h) [
            | inl old ↦ ground (arith, f.same_device, held.room k old)
            | inr (j, p, p', e) ↦ ground (arith, f.same_device, held.inside j p', e)
          ];
        },
        record {
          size = refl;
          blocks = refl;
          same_device = f.same_device;
          kept = λ x.
              ap (λ (d : Device). d.byte (direct_map n.value (x / blksize) * blksize + x % blksize))
                f.same_device;
          others = λ j h. ground (arith, h, f.same_inodes);
          same_bit = f.same_bit;
          freed = f.free;
          accounted = f.accounted;
        },
      )

-- ===== src/Sfs/Resize/Zeroed.antt =====
-- What `_resize` of rcore-fs-sfs/src/lib.rs leaves of a file that grows.
use mathlib.Core.Path.{subst}
use native.Mathlib.Decide.{dec_lt}
use rcore_fs.Base.{
  ℕ, ◌+◌, ◌-◌, ◌*◌, ◌/◌, ◌%◌, ◌^◌, ◌≤◌, ◌<◌, true, ◌≡◌, ◌≢◌, refl, sym, ap, ◌∙◌, false, some, arith,
  ltb, leb, ◌&&◌, if◌then◌else◌, get_elem?, ap₂,
}
use rcore_fs.Base.Outcome.{ok}
use rcore_fs.Util.Dirty.{Dirty, assign}
use rcore_fs.Sfs.Layout.{DiskINode, blksize, ndirect}
use rcore_fs.Sfs.Device.{Device}
use rcore_fs.Sfs.State.{Sfs, put_inode}
use rcore_fs.Sfs.FreeMap.Bits.{count_true}
use rcore_fs.Sfs.FreeMap.Invariant.{bits}
use rcore_fs.Sfs.Content.{clean_content}
use rcore_fs.Sfs.Content.File.{IsFile, SameElse, content}
use rcore_fs.Sfs.Content.Write.{clean_content_lem}
use rcore_fs.Sfs.Resize.{add_blocks, add_indirect, add_second_level, blocks_for, grow, resize}
use rcore_fs.Sfs.Resize.Small.{direct_map, Holds, Holds-IsFile}
use rcore_fs.Sfs.Resize.Grow.{Grown, add_blocks_lem}

-- The block list of an inode with another size or count, or beside another device of that size.
Holds-renewed :
    (s : Sfs) (id : ℕ) (n : Dirty DiskINode) (count size blocks : ℕ) (d : Device)
    → Holds s id n count
    → d.size ≡ s.device.size
    → (let n' = assign n (record (n.value) { size = size; blocks = blocks }) in
        Holds (record (put_inode s id (some n')) { device = d }) id n' count)
Holds-renewed s id n count size blocks d h same = record {
  here = ground arith;
  books = record { counted = h.books.counted; bounded = h.books.bounded };
  direct_len = h.direct_len;
  few = h.few;
  in_use = h.in_use;
  inside = λ j p. ground (arith, h.inside j p, same);
  apart = h.apart;
  room = λ k p. ground (arith, h.room k p, same);
}

-- A file that has grown to `len` bytes: the old ones are in place, the others are zero; the rest of the
-- file system keeps its blocks and what is in them.
pub record HasGrown (s s' : Sfs) (id : ℕ) (n n' : Dirty DiskINode) (len : ℕ) : Type 0 where
  pub size : n'.value.size ≡ len
  pub blocks : n'.value.blocks ≡ blocks_for len
  pub kept :
      (x : ℕ)
      → x < n.value.size
      → content (direct_map n'.value) s'.device x ≡ content (direct_map n.value) s.device x
  pub zeros : (x : ℕ) → n.value.size ≤ x → x < len → content (direct_map n'.value) s'.device x ≡ 0
  pub old_blocks : (j : ℕ) → j < n.value.blocks → direct_map n'.value j ≡ direct_map n.value j
  pub were_free :
      (j : ℕ)
      → n.value.blocks ≤ j
      → j < blocks_for len
      → get_elem? (bits s) (direct_map n'.value j) ≡ some true
  pub others : (j : ℕ) → id ≢ j → s'.inodes j ≡ s.inodes j
  pub still_used : (b : ℕ) → get_elem? (bits s) b ≡ some false → get_elem? (bits s') b ≡ some false
  pub untouched :
      (x : ℕ)
      → get_elem? (bits s) (x / blksize) ≡ some false
      → ((j : ℕ) → j < n.value.blocks → x / blksize ≢ direct_map n.value j)
      → s'.device.byte x ≡ s.device.byte x
  pub accounted : count_true (bits s') + blocks_for len ≡ count_true (bits s) + n.value.blocks

module _ (s : Sfs) (id : ℕ) (n : Dirty DiskINode) (held : Holds s id n n.value.blocks)
    (sized : n.value.size ≤ n.value.blocks * blksize) (len : ℕ)
    (small : len + blksize ≤ ndirect * blksize) (more : n.value.blocks < blocks_for len)
    (room : blocks_for len - n.value.blocks ≤ count_true (bits s)) where
  abbrev counted : Dirty DiskINode
  counted = assign n (record (n.value) { blocks = blocks_for len })

  abbrev announced : Sfs
  announced = put_inode s id (some counted)

  announced-Holds : Holds announced id counted n.value.blocks
  announced-Holds =
      Holds-renewed s id n n.value.blocks n.value.size (blocks_for len) s.device held refl

  added :
      (s' : Sfs) × (n' : Dirty DiskINode) × (add_blocks id n.value.blocks
          (blocks_for len - n.value.blocks)
          announced
        ≡ (s', ok tt))
      × Holds s' id n' (blocks_for len)
      × Grown id n.value.blocks (blocks_for len - n.value.blocks) announced s' counted n'
  added =
      add_blocks_lem announced id n.value.blocks (blocks_for len - n.value.blocks) counted
        announced-Holds (omega (arith, more)) (omega (arith, small)) room

  -- The growth is that of the direct blocks alone.
  grow_lem :
      (s1 : Sfs) (n1 : Dirty DiskINode) (d : Device) (c : ℕ)
      → add_blocks id n.value.blocks (blocks_for len - n.value.blocks) announced ≡ (s1, ok tt)
      → s1.inodes id ≡ some n1
      → (let n2 = assign n1 (record (n1.value) { size = len }) in
          let s2 = put_inode s1 id (some n2) in
          clean_content id n1.value.size len s2 ≡ (record s2 { device = d }, ok c)
          → grow id n.value.blocks (blocks_for len) len s ≡ (record s2 { device = d }, ok tt))
  unfolding grow add_indirect add_second_level
  grow_lem s1 n1 d c run here clean =
      let fits : len % 2 ^ 32 ≡ len = omega (arith, small) in
      ground (arith, held.here, run, here, clean, fits, small)

  pub resize-grow :
      (r : Sfs)
      → grow id n.value.blocks (blocks_for len) len s ≡ (r, ok tt)
      → resize id len s ≡ (r, ok tt)
  unfolding resize
  resize-grow r e = ground (arith, held.here, e, small, more)

  new_apart :
      (s1 : Sfs) (n1 : Dirty DiskINode)
      → Grown id n.value.blocks (blocks_for len - n.value.blocks) announced s1 counted n1
      → (b : ℕ) → get_elem? (bits s) b ≡ some false
      → ((j : ℕ) → j < n.value.blocks → b ≢ direct_map n.value j)
      → (j : ℕ) → j < n1.value.blocks
      → b ≢ direct_map n1.value j
  new_apart s1 n1 g b used out j h e = elim (dec_lt j n.value.blocks) [
    | yes old ↦ out j old (e ∙ g.old_entry j old)
    | no new ↦
        let blocks : n1.value.blocks ≡ blocks_for len = ap DiskINode.blocks (g.same_fields.1) in
        let free = g.new_free j (omega arith) (omega (arith, h, blocks)) in
        absurd (cc (free, used, ap (get_elem? (bits s)) e))
  ]

  -- What the zeros behind the old end leave of it, once the blocks are there.
  cleaned-HasGrown :
      (s1 : Sfs) (n1 : Dirty DiskINode) (d : Device)
      → Grown id n.value.blocks (blocks_for len - n.value.blocks) announced s1 counted n1
      → SameElse (direct_map n1.value) n1.value.blocks s1.device d
      → ((x : ℕ)
          → x < len
          → content (direct_map n1.value) d x ≡ (
              if leb n1.value.size x && ltb x len
              then 0
              else content (direct_map n1.value) s1.device x))
      → (let n2 = assign n1 (record (n1.value) { size = len }) in
          HasGrown s (record (put_inode s1 id (some n2)) { device = d }) id n n2 len)
  cleaned-HasGrown s1 n1 d g same written =
      let size : n1.value.size ≡ n.value.size = ap DiskINode.size (g.same_fields.1) in
      let blocks : n1.value.blocks ≡ blocks_for len = ap DiskINode.blocks (g.same_fields.1) in
      record {
        size = refl;
        blocks = blocks;
        kept = λ x h.
            let old : x / blksize < n.value.blocks = omega (arith, sized, h) in
            let fits : x < len = omega (arith, sized, h, more) in
            let byte : content (direct_map n1.value) s1.device x
                ≡ content (direct_map n.value) s.device x =
              ap₂ (λ (d : Device) b. d.byte (b * blksize + x % blksize)) g.same_device
                (g.old_entry (x / blksize) old) in
            ground (arith, written x fits, size, h, byte);
        zeros = λ x h h'. ground (arith, written x h', size, h, h');
        old_blocks = g.old_entry;
        were_free = λ j h h'. g.new_free j h (omega (arith, more, h'));
        others = λ j h. ground (arith, h, g.same_inodes j h);
        still_used = g.still_used;
        untouched = λ x used out.
            same.same_byte x (new_apart s1 n1 g (x / blksize) used out)
            ∙ ap (λ (d : Device). d.byte x) g.same_device;
        accounted = omega (arith, g.accounted, more);
      }

  -- In a file whose blocks are in use, on the device and apart, and hold its size, with consistent
  -- books and all free blocks on the device, `_resize` to a larger number of blocks, but fewer than
  -- 12, succeeds when as many blocks are free as the file gets. The file then has the new size, its old bytes and zeros behind them; it keeps its old blocks, and the new
  -- ones were free before; all are in use and apart from each other. Every block in use stays in
  -- use, the bytes of those that are not of this file stay as they are, and as many blocks are taken
  -- from the free map as the file gets.
  pub resize_grow_lem :
      (s' : Sfs) × (n' : Dirty DiskINode) × (resize id len s ≡ (s', ok tt))
      × Holds s' id n' (blocks_for len)
      × HasGrown s s' id n n' len
  resize_grow_lem =
      let (s1, n1, run, held1, g) = added in
      let size : n1.value.size ≡ n.value.size = ap DiskINode.size (g.same_fields.1) in
      let blocks : blocks_for len ≡ n1.value.blocks = sym (ap DiskINode.blocks (g.same_fields.1)) in
      let n2 = assign n1 (record (n1.value) { size = len }) in
      let s2 = put_inode s1 id (some n2) in
      let held2 : Holds s2 id n2 (blocks_for len) =
        Holds-renewed s1 id n1 (blocks_for len) len n1.value.blocks s1.device held1 refl in
      let file : IsFile n2.value (direct_map n2.value) s2.device =
        Holds-IsFile s2 id n2 (subst (λ c. Holds s2 id n2 c) blocks held2)
          (omega (arith, blocks, small)) in
      let (d, clean, (file', same, written)) =
        clean_content_lem s2 id n2 (direct_map n2.value) held2.here file n1.value.size len
          (omega (arith, size, sized, more)) (omega arith) in
      (
        record s2 { device = d },
        n2,
        resize-grow (record s2 { device = d })
            (grow_lem s1 n1 d (len - n1.value.size) run held1.here clean),
        Holds-renewed s1 id n1 (blocks_for len) len n1.value.blocks d held1 same.same_size,
        cleaned-HasGrown s1 n1 d g same written,
      )

-- ===== src/Sfs/Mount/Reopen.antt =====
-- What `open` of rcore-fs-sfs/src/lib.rs reads of what `sync` wrote.
use rcore_fs.Base.{
  ℕ, zero, suc, ◌+◌, ◌-◌, ◌*◌, ◌<◌, ◌≤◌, ◌≡◌, refl, sym, ap, ◌∙◌, Bool, true, false, List, arith,
  ◌&&◌, leb, ltb, if◌then◌else◌, length, get_or, take, length-append, none, inl, inr, Bool-cases,
}
use rcore_fs.Base.Outcome.{ok}
use rcore_fs.Util.Dirty.{Dirty, new, sync}
use rcore_fs.Sfs.Layout.{SuperBlock, check, blksize, blkbits, blkn_super}
use rcore_fs.Sfs.Device.{Device, slice, store, u32_bytes}
use rcore_fs.Sfs.Device.Store.{slice-store, slice-eq}
use rcore_fs.Sfs.State.{Sfs}
use rcore_fs.Sfs.Content.File.{slice-cong}
use rcore_fs.Sfs.Inode.{DiskImage}
use rcore_fs.Sfs.Image.{super_size, super_bytes, super_of, BitImage, IsBitImage}
use rcore_fs.Sfs.Image.Decode.{IsSuperBlock, super_of-super_bytes}
use rcore_fs.Sfs.Mount.{sync_super, sync_freemap, sync_inodes, sync_fs, open_fs}
use rcore_fs.Sfs.Mount.Blocks.{
  place, read_freemap_lem, write_freemap_lem, read_block-ok, take_all, HoldsMap,
}

length-super_bytes : (sb : SuperBlock) → IsSuperBlock sb → length (super_bytes sb) ≡ super_size
unfolding u32_bytes
length-super_bytes sb is =
    omega (arith, length-append sb.info (u32_bytes sb.freemap_blocks), is.info)

-- The disk holds the super block, and the free map.
abbrev pub HoldsSuper : Device → SuperBlock → Type 0
HoldsSuper d sb = slice d.byte 0 super_size ≡ super_bytes sb

abbrev pub HoldsBits : BitImage → Device → ℕ → List Bool → Type 0
HoldsBits bit_image d n bs = slice d.byte (place 0) (n * blksize) ≡ bit_image.as_bytes bs

-- A file system without open files that `sync` can write: the parts that are not dirty are on the disk
-- already.
pub record IsSyncable (bit_image : BitImage) (s : Sfs) : Type 0 where
  pub super_fields : IsSuperBlock s.super_block.value
  pub checked : check s.super_block.value ≡ true
  pub map_len : length s.free_map.value ≡ blkbits * s.super_block.value.freemap_blocks
  pub room : place s.super_block.value.freemap_blocks ≤ s.device.size
  pub no_inodes : (j : ℕ) → s.inodes j ≡ none
  pub old_super : s.super_block.dirty ≡ false → HoldsSuper s.device s.super_block.value
  pub old_map :
      s.free_map.dirty ≡ false
      → HoldsBits bit_image s.device s.super_block.value.freemap_blocks s.free_map.value

store-behind : (f : ℕ → ℕ) (xs : List ℕ) (x : ℕ) → length xs ≤ x → store f 0 xs x ≡ f x
unfolding store
store-behind f xs x h = ground (arith, h)

-- `sync` of the super block.
sync_super_lem :
    (bit_image : BitImage) (s : Sfs)
    → IsSyncable bit_image s
    → (d : Device) × (sb : Dirty SuperBlock) × (sync_super s
        ≡ (record s { device = d; super_block = sb }, ok tt))
      × (sb.value ≡ s.super_block.value)
      × HoldsSuper d s.super_block.value
      × (d.size ≡ s.device.size)
      × ((x : ℕ) → super_size ≤ x → d.byte x ≡ s.device.byte x)
unfolding sync_super
sync_super_lem bit_image s is = elim (Bool-cases s.super_block.dirty) [
  | inr e ↦ (s.device, s.super_block, ground (arith, e), refl, is.old_super e, refl, λ x h. refl)
  | inl e ↦
      let xs = super_bytes s.super_block.value in
      let count = length-super_bytes s.super_block.value is.super_fields in
      let whole =
        take_all (s.device.size - blksize * blkn_super) xs (omega (arith, count, is.room)) in
      let holds =
        ap (λ ys. slice (store s.device.byte 0 ys) 0 super_size) whole
        ∙ ap (slice (store s.device.byte 0 xs) 0) (sym count)
        ∙ slice-store s.device.byte 0 xs in
      (
        record s.device {
          byte =
              store s.device.byte (blksize * blkn_super)
                (take (s.device.size - blksize * blkn_super) xs);
        },
        sync s.super_block,
        ground (arith, e),
        refl,
        holds,
        refl,
        λ x h.
            ap (λ ys. store s.device.byte 0 ys x) whole
            ∙ store-behind s.device.byte xs x (omega (arith, count, h)),
      )
]

map_byte :
    (xs : List ℕ) (n i old : ℕ)
    → i < n * blksize
    → (if leb (place 0) (place 0 + i) && ltb (place 0 + i) (place (0 + n))
        then get_or xs (place 0 + i - place 0) 0
        else old)
      ≡ get_or xs i 0
map_byte xs n i old h =
    let e : place 0 + i - place 0 ≡ i = omega arith in ground (arith, h, ap (λ k. get_or xs k 0) e)

before_map :
    (x there old : ℕ) (after : Bool)
    → x < place 0
    → (if leb (place 0) x && after then there else old) ≡ old
before_map x there old after h = ground (arith, h)

HoldsMap-HoldsBits :
    (bit_image : BitImage)
    → IsBitImage bit_image
    → (bs : List Bool) (n : ℕ) (d d' : Device) → length bs ≡ blkbits * n
    → HoldsMap (bit_image.as_bytes bs) 0 (0 + n) d d'
    → HoldsBits bit_image d' n bs
HoldsMap-HoldsBits bit_image is_bits bs n d d' h (size, bytes) =
    let xs = bit_image.as_bytes bs in
    let count : length xs ≡ n * blksize =
      is_bits.length_as_bytes (n * blksize) bs (omega (arith, h)) in
    ap (slice d'.byte (place 0)) (sym count)
    ∙ slice-eq d'.byte xs (place 0) (λ i p.
      bytes (place 0 + i) ∙ map_byte xs n i (d.byte (place 0 + i)) (omega (arith, p, count)))

-- `sync` of the free map.
sync_freemap_lem :
    (bit_image : BitImage)
    → IsBitImage bit_image
    → (s : Sfs) (fb : ℕ) → s.super_block.value.freemap_blocks ≡ fb
    → length s.free_map.value ≡ blkbits * fb
    → place fb ≤ s.device.size
    → (s.free_map.dirty ≡ false → HoldsBits bit_image s.device fb s.free_map.value)
    → (d : Device) × (m : Dirty (List Bool)) × (sync_freemap bit_image s
        ≡ (record s { device = d; free_map = m }, ok tt))
      × (m.value ≡ s.free_map.value)
      × HoldsBits bit_image d fb s.free_map.value
      × (d.size ≡ s.device.size)
      × ((x : ℕ) → x < place 0 → d.byte x ≡ s.device.byte x)
unfolding sync_freemap
sync_freemap_lem bit_image is_bits s fb same len room old = elim (Bool-cases s.free_map.dirty) [
  | inr e ↦ (s.device, s.free_map, ground (arith, e), refl, old e, refl, λ x h. refl)
  | inl e ↦
      let count : length (bit_image.as_bytes s.free_map.value) ≡ fb * blksize =
        is_bits.length_as_bytes (fb * blksize) s.free_map.value (omega (arith, len)) in
      let (d, run, (size, bytes)) =
        write_freemap_lem (bit_image.as_bytes s.free_map.value) 0 fb s (omega (arith, count))
          (omega (arith, room)) in
      (
        d,
        sync s.free_map,
        ground (arith, e, same, run),
        refl,
        HoldsMap-HoldsBits bit_image is_bits s.free_map.value fb s.device d len (size, bytes),
        size,
        λ x h. bytes x ∙ before_map x _ _ _ h,
      )
]

-- No inode is in memory.
sync_inodes_lem :
    (image : DiskImage) (s : Sfs) (id n : ℕ)
    → ((j : ℕ) → s.inodes j ≡ none)
    → sync_inodes image id n s ≡ (s, ok tt)
unfolding sync_inodes
sync_inodes_lem image s id zero h = refl
sync_inodes_lem image s id (suc n) h = ground (arith, h id, sync_inodes_lem image s (id + 1) n h)

open_fs_lem :
    (bit_image : BitImage)
    → IsBitImage bit_image
    → (d : Device) (sb : SuperBlock) (bs : List Bool) → IsSuperBlock sb
    → check sb ≡ true
    → length bs ≡ blkbits * sb.freemap_blocks
    → place sb.freemap_blocks ≤ d.size
    → HoldsSuper d sb
    → HoldsBits bit_image d sb.freemap_blocks bs
    → open_fs bit_image d
      ≡ ok (record { super_block = new sb; free_map = new bs; inodes = λ _. none; device = d })
unfolding open_fs
open_fs_lem bit_image is_bits d sb bs is checked len room super map =
    let a = read_block-ok d blkn_super 0 super_size (omega arith) (omega (arith, room)) in
    let b : super_of (slice d.byte 0 super_size) ≡ sb =
      ap super_of super ∙ super_of-super_bytes sb is in
    let c = read_freemap_lem d 0 sb.freemap_blocks (omega (arith, room)) in
    let e : bit_image.of_bytes (slice d.byte (place 0) (sb.freemap_blocks * blksize)) ≡ bs =
      ap bit_image.of_bytes map
      ∙ is_bits.of_as_bytes (sb.freemap_blocks * blksize) bs (omega (arith, len)) in
    ground (arith, a, b, c, e, checked)

-- The super block and the free map survive an unmount: `sync` of a file system without open files
-- succeeds where the device holds the whole free map, and `open` of the device behind it gives the
-- same super block and free map, both clean, if the magic number is right and the parts that `sync`
-- passes over, as not dirty, are on the device already.
pub open_fs-sync_fs :
    (image : DiskImage) (bit_image : BitImage) (s : Sfs)
    → IsBitImage bit_image
    → IsSyncable bit_image s
    → (s' : Sfs) × (sync_fs image bit_image s ≡ (s', ok tt))
      × (open_fs bit_image s'.device
          ≡ ok (record {
            super_block = new s.super_block.value;
            free_map = new s.free_map.value;
            inodes = λ _. none;
            device = s'.device;
          }))
unfolding sync_fs
open_fs-sync_fs image bit_image s is_bits is =
    let fb = s.super_block.value.freemap_blocks in
    let (d1, sb1, run1, value1, super1, size1, same1) = sync_super_lem bit_image s is in
    let s1 = record s { device = d1; super_block = sb1 } in
    let (d2, m2, run2, value2, map2, size2, same2) =
      sync_freemap_lem bit_image is_bits s1 fb (ap SuperBlock.freemap_blocks value1) is.map_len
        (omega (arith, is.room, size1))
        (λ e.
          slice-cong s.device.byte d1.byte (place 0) (fb * blksize)
            (λ k p. same1 (place 0 + k) (omega arith))
          ∙ is.old_map e) in
    let s2 = record s1 { device = d2; free_map = m2 } in
    let run3 = sync_inodes_lem image s2 0 (length m2.value) is.no_inodes in
    let super2 : HoldsSuper d2 s.super_block.value =
      slice-cong d1.byte d2.byte 0 super_size (λ k p. same2 (0 + k) (omega (arith, p))) ∙ super1 in
    (
      s2,
      ground (arith, run1, run2, run3),
      open_fs_lem bit_image is_bits d2 s.super_block.value s.free_map.value is.super_fields
          is.checked is.map_len (omega (arith, is.room, size1, size2)) super2 map2,
    )

-- ===== src/Sfs/Image.antt =====
-- The bytes of the super block on the disk, `AsBuf` of `SuperBlock` in rcore-fs-sfs/src/structs.rs. The
-- bit vector of the free map is not of this repository: it is a parameter.
pub mod Decode
pub mod Lsb0
use rcore_fs.Base.{
  length, ◌≡◌, ℕ, ◌+◌, ◌*◌, ◌/◌, ◌%◌, ◌^◌, Bool, List, [], ◌∷◌, ◌++◌, ◌==◌, if◌then◌else◌, take,
  drop,
}
use rcore_fs.Sfs.Layout.{SuperBlock}
use rcore_fs.Sfs.Device.{u32_bytes, u32_of}

-- `size_of::<SuperBlock>()`: four words and a `Str32`, without padding.
abbrev pub super_size : ℕ
super_size = 48

abbrev pub super_bytes : SuperBlock → List ℕ
super_bytes sb =
    u32_bytes sb.magic
    ++ (u32_bytes sb.blocks
        ++ (u32_bytes sb.unused_blocks ++ (sb.info ++ u32_bytes sb.freemap_blocks)))

abbrev pub super_of : List ℕ → SuperBlock
super_of xs = record {
  magic = u32_of (take 4 xs);
  blocks = u32_of (take 4 (drop 4 xs));
  unused_blocks = u32_of (take 4 (drop 8 xs));
  info = take 32 (drop 12 xs);
  freemap_blocks = u32_of (take 4 (drop 44 xs));
}

-- The bit vector of the crate `bitvec`: `BitVec::from` of a byte slice, and `as_ref`.
pub record BitImage : Type 0 where
  pub of_bytes : List ℕ → List Bool
  pub as_bytes : List Bool → List ℕ

-- Eight bits make a byte, and the bytes of a vector give it back.
pub record IsBitImage (b : BitImage) : Type 0 where
  pub length_as_bytes : (k : ℕ) (bs : List Bool) → length bs ≡ 8 * k → length (b.as_bytes bs) ≡ k
  pub of_as_bytes : (k : ℕ) (bs : List Bool) → length bs ≡ 8 * k → b.of_bytes (b.as_bytes bs) ≡ bs

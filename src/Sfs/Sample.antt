-- ===== src/Sfs/Sample.antt =====
-- A small file system of rcore-fs-sfs for the tests: eight blocks, of which the last three are free,
-- and an inode with two directory entries in the block 4.
use rcore_fs.Base.{
  ◌*◌, ◌≡◌, refl, sym, ap, ◌∙◌, true, false, none, some, [], ◌∷◌, arith, ◌==◌, if◌then◌else◌,
  replicate, get_elem?,
}
use rcore_fs.Util.Dirty.{Dirty, new}
use rcore_fs.Sfs.Layout.{SuperBlock, DiskINode, new_dir, blksize, magic}
use rcore_fs.Sfs.Device.{Device}
use rcore_fs.Sfs.State.{Sfs}
use rcore_fs.Sfs.FreeMap.Bits.{get_elem?-lt-length}
use rcore_fs.Sfs.FreeMap.Invariant.{bits}
use rcore_fs.Sfs.Content.File.{IsFile}
use rcore_fs.Sfs.Resize.Small.{direct_map, Holds, Holds-IsFile}

abbrev pub sample_inode : Dirty DiskINode
sample_inode = new (record new_dir { size = 520; blocks = 1; direct = 4 ∷ replicate 11 0 })

abbrev pub sample_super : SuperBlock
sample_super = record {
  magic = magic;
  blocks = 8;
  unused_blocks = 3;
  info = replicate 32 0;
  freemap_blocks = 1;
}

-- The entry in the slot 0 is called "a".
abbrev pub sample_device : Device
sample_device = record { size = 8 * blksize; byte = λ x. if x == 16388 then 97 else 0 }

abbrev pub sample : Sfs
sample = record {
  super_block = new sample_super;
  free_map = new (false ∷ false ∷ false ∷ false ∷ false ∷ true ∷ true ∷ true ∷ []);
  inodes = λ j. if 3 == j then some sample_inode else none;
  device = sample_device;
}

pub sample-Holds : Holds sample 3 sample_inode 1
sample-Holds = record {
  here = refl;
  books = record { counted = refl; bounded = omega arith };
  direct_len = refl;
  few = omega arith;
  in_use = λ j h.
      let e : 0 ≡ j = omega arith in
      ap (λ j. get_elem? (bits sample) (direct_map sample_inode.value j)) (sym e) ∙ refl;
  inside = λ j h.
      let e : j ≡ 0 = omega arith in
      let at : direct_map sample_inode.value j ≡ 4 = ap (direct_map sample_inode.value) e in
      omega (arith, at);
  apart = λ i j h h' e. omega arith;
  room = λ k h. let k_lt = get_elem?-lt-length (bits sample) k true h in omega (arith, k_lt);
}

pub sample-IsFile : IsFile sample_inode.value (direct_map sample_inode.value) sample.device
sample-IsFile = Holds-IsFile sample 3 sample_inode sample-Holds (omega arith)

-- ===== src/Sfs/Format.antt =====
-- The part of `SimpleFileSystem::create` (rcore-fs-sfs/src/lib.rs) that lays out a new disk: the
-- super block and the free map.
pub mod Books
mod Tests
use rcore_fs.Base.{
  ℕ, zero, suc, ◌+◌, ◌-◌, ◌*◌, ◌/◌, ◌%◌, ◌^◌, Bool, true, false, List, [], ltb, if◌then◌else◌,
  replicate, set, length,
}
use rcore_fs.Base.Outcome.{Outcome, ok, err, panic, hang}
use rcore_fs.Base.Fallible.{◌>>=◌}
use rcore_fs.Vfs.{Result}
use rcore_fs.Sfs.Layout.{SuperBlock, blksize, blkbits, blkn_freemap, magic}
use rcore_fs.Sfs.Str.{from_str, default_info}

-- `for i in i..i + n { bitset.set(i, true) }`, which panics at an index out of range.
pub mark_free : (n i : ℕ) → List Bool → Result (List Bool)
mark_free zero i bits = ok bits
mark_free (suc n) i bits =
    let rest = mark_free n (i + 1) (set bits i true) in if ltb i (length bits) then rest else panic

abbrev pub block_count : ℕ → ℕ
block_count space = (space + blksize - 1) / blksize

abbrev pub freemap_block_count : ℕ → ℕ
freemap_block_count space = (space + blkbits * blksize - 1) / blkbits / blksize

-- The super block of a disk of `space` bytes. `as u32` keeps the low 32 bits.
abbrev pub super_block_of : (space : ℕ) → List ℕ → SuperBlock
super_block_of space info = record {
  magic = magic;
  blocks = block_count space % 2 ^ 32;
  unused_blocks = (block_count space - blkn_freemap - freemap_block_count space) % 2 ^ 32;
  info = info;
  freemap_blocks = freemap_block_count space % 2 ^ 32;
}

-- The super block and the free map of a new disk.
pub lay_out : (space : ℕ) → Result (SuperBlock × List Bool)
unfolding mark_free from_str
lay_out space =
    let reserved = blkn_freemap + freemap_block_count space in
    let marked =
      mark_free (block_count space - reserved) reserved
        (replicate (freemap_block_count space * blkbits) false) in
    let written : Result (SuperBlock × List Bool) = (do
      info ← from_str 32 default_info
      bits ← marked
      ok (super_block_of space info, bits)) in
    if ltb (block_count space) 16 then panic else written

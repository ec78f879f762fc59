-- ===== src/Sfs/Device.antt =====
-- The block accesses of rcore-fs-sfs/src/lib.rs (`DeviceExt`) and the bytes of a `u32`.
-- The device itself is not of this crate: it is taken as a byte store of a fixed size, which reads
-- back what was written and moves fewer bytes than asked for only where the range leaves it.
pub mod Store
use rcore_fs.Base.{
  ℕ, zero, suc, ◌+◌, ◌-◌, ◌*◌, ◌/◌, ◌%◌, ◌^◌, Bool, ◌&&◌, List, [], ◌∷◌, ltb, leb, if◌then◌else◌,
  length, get_or,
}
use rcore_fs.Base.Outcome.{ok, panic}
use rcore_fs.Base.Fallible.{◌>>=◌}
use rcore_fs.Vfs.{Result}
use rcore_fs.Sfs.Layout.{blksize}

pub record Device : Type 0 where
  pub size : ℕ
  pub byte : ℕ → ℕ

-- The `n` bytes from `a` on.
unfoldable pub slice : (ℕ → ℕ) → (a n : ℕ) → List ℕ
slice f a zero = []
slice f a (suc n) = f a ∷ slice f (a + 1) n

-- `f` with the bytes `xs` put in from `a` on.
unfoldable pub store : (ℕ → ℕ) → ℕ → List ℕ → ℕ → ℕ
store f a xs x = if leb a x && ltb x (a + length xs) then get_or xs (x - a) 0 else f x

-- `read_block`: the bytes that it puts into a buffer of length `n`.
unfoldable pub read_block : Device → (id offset n : ℕ) → Result (List ℕ)
unfolding slice
read_block d id offset n =
    if leb (offset + n) blksize && leb (id * blksize + offset + n) d.size
    then ok (slice d.byte (id * blksize + offset) n)
    else panic

-- `write_block`: the device behind the write.
unfoldable pub write_block : Device → (id offset : ℕ) → List ℕ → Result Device
unfolding store
write_block d id offset xs =
    if leb (offset + length xs) blksize && leb (id * blksize + offset + length xs) d.size
    then ok (record d { byte = store d.byte (id * blksize + offset) xs })
    else panic

-- `as_buf` of a `u32` on a little-endian machine.
unfoldable pub u32_bytes : ℕ → List ℕ
u32_bytes n = n % 256 ∷ n / 2 ^ 8 % 256 ∷ n / 2 ^ 16 % 256 ∷ n / 2 ^ 24 % 256 ∷ []

-- The `u32` whose `as_buf_mut` was filled with four bytes.
unfoldable pub u32_of : List ℕ → ℕ
u32_of xs = get_or xs 0 0 + 2 ^ 8 * get_or xs 1 0 + 2 ^ 16 * get_or xs 2 0 + 2 ^ 24 * get_or xs 3 0

-- A `u32` at a place of a block, as the block map reads and writes it.
unfoldable pub read_u32 : Device → (id offset : ℕ) → Result ℕ
unfolding read_block u32_of
read_u32 d id offset = do xs ← read_block d id offset 4; ok (u32_of xs)

unfoldable pub write_u32 : Device → (id offset v : ℕ) → Result Device
unfolding write_block u32_bytes
write_u32 d id offset v = write_block d id offset (u32_bytes v)

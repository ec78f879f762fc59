-- ===== src/Sfs/Device/Store.antt =====
-- What the device of rcore-fs-sfs reads back of what was written to it.
use native.Mathlib.Nat.{add-zero}
use rcore_fs.Base.{
  ℕ, zero, suc, ◌+◌, ◌-◌, ◌*◌, ◌^◌, ◌≤◌, ◌<◌, ◌≡◌, ◌≢◌, refl, ap, ap₂, ◌⊎◌, List, [], ◌∷◌, arith,
  length, get_or,
}
use rcore_fs.Base.Outcome.{ok}
use rcore_fs.Sfs.Layout.{blksize}
use rcore_fs.Sfs.Device.{
  Device, slice, store, read_block, write_block, u32_bytes, u32_of, read_u32, write_u32,
}

-- Reading at the place of a write gives what was written.
pub slice-eq :
    (f : ℕ → ℕ) (xs : List ℕ) (a : ℕ)
    → ((i : ℕ) → i < length xs → f (a + i) ≡ get_or xs i 0)
    → slice f a (length xs) ≡ xs
unfolding slice
slice-eq f [] a h = refl
slice-eq f (x ∷ xs) a h =
    ap₂ ◌∷◌ (rw (← (add-zero a)) (h 0 (omega arith)))
      (slice-eq f xs (a + 1) (λ i p. rw (shift i) (h (suc i) (omega arith))))
  where
    shift : (i : ℕ) → a + 1 + i ≡ a + suc i
    shift i = omega arith

pub slice-store : (f : ℕ → ℕ) (a : ℕ) (xs : List ℕ) → slice (store f a xs) a (length xs) ≡ xs
unfolding store
slice-store f a xs =
    slice-eq (store f a xs) xs a
      (λ i h. let e : a + i - a ≡ i = omega arith in ground (arith, ap (λ k. get_or xs k 0) e))

-- A write elsewhere is not seen.
pub slice-store_ne :
    (f : ℕ → ℕ) (a : ℕ) (xs : List ℕ) (b n : ℕ)
    → (b + n ≤ a) ⊎ (a + length xs ≤ b)
    → slice (store f a xs) b n ≡ slice f b n
unfolding store slice
slice-store_ne f a xs b zero h = refl
slice-store_ne f a xs b (suc n) h =
    ap₂ ◌∷◌ (ground arith) (slice-store_ne f a xs (b + 1) n (ground arith))

pub u32_of-u32_bytes : (v : ℕ) → v < 2 ^ 32 → u32_of (u32_bytes v) ≡ v
unfolding u32_of u32_bytes
u32_of-u32_bytes v h = omega arith

-- Two `u32`s that do not overlap, in one block or in two.
abbrev pub Apart : (id offset id' offset' : ℕ) → Type 0
Apart id offset id' offset' = (id ≢ id') ⊎ ((offset + 4 ≤ offset') ⊎ (offset' + 4 ≤ offset))

block_apart :
    (id id' offset offset' : ℕ)
    → offset + 4 ≤ blksize
    → id < id'
    → id * blksize + offset + 4 ≤ id' * blksize + offset'
block_apart id id' offset offset' h p = omega arith

-- What `write_u32` does to the device, where it succeeds.
module _ (d : Device) (id offset v : ℕ) {d' : Device}
    (written : write_u32 d id offset v ≡ ok d') where
  pub write_u32-fits : (offset + 4 ≤ blksize) × (id * blksize + offset + 4 ≤ d.size)
  unfolding write_u32 write_block
  write_u32-fits = ground arith

  pub size-write_u32 : d'.size ≡ d.size
  unfolding write_u32 write_block
  size-write_u32 = ground arith

  pub read_u32-write_u32 : v < 2 ^ 32 → read_u32 d' id offset ≡ ok v
  unfolding write_u32 write_block read_u32 read_block
  read_u32-write_u32 small =
      ground
        (arith, slice-store d.byte (id * blksize + offset) (u32_bytes v), u32_of-u32_bytes v small)

  byte-write_u32 : d'.byte ≡ store d.byte (id * blksize + offset) (u32_bytes v)
  unfolding write_u32 write_block
  byte-write_u32 = ground arith

  slice-write_u32 :
      (a n : ℕ)
      → (a + n ≤ id * blksize + offset) ⊎ (id * blksize + offset + 4 ≤ a)
      → slice d'.byte a n ≡ slice d.byte a n
  unfolding u32_bytes
  slice-write_u32 a n h =
      rw byte-write_u32 (slice-store_ne d.byte (id * blksize + offset) (u32_bytes v) a n h)

  pub read_u32-write_u32_ne :
      (id' offset' : ℕ)
      → Apart id offset id' offset'
      → read_u32 d' id' offset' ≡ read_u32 d id' offset'
  unfolding read_u32 read_block
  read_u32-write_u32_ne id' offset' apart = ground (
    arith,
    write_u32-fits,
    size-write_u32,
    block_apart id id' offset offset',
    block_apart id' id offset' offset,
    slice-write_u32 (id' * blksize + offset') 4,
  )

-- A write inside a block and inside the device succeeds.
pub write_u32-ok :
    (d : Device) (id offset v : ℕ)
    → offset + 4 ≤ blksize
    → id * blksize + offset + 4 ≤ d.size
    → (d' : Device) × (write_u32 d id offset v ≡ ok d')
unfolding write_u32 write_block
write_u32-ok d id offset v h k =
    (record d { byte = store d.byte (id * blksize + offset) (u32_bytes v) }, ground arith)

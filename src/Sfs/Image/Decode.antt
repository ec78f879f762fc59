-- ===== src/Sfs/Image/Decode.antt =====
-- The super block of rcore-fs-sfs/src/structs.rs is read back as it was written.
use rcore_fs.Base.{
  ℕ, zero, suc, ◌^◌, ◌<◌, ◌≡◌, refl, ap, ◌∙◌, List, [], ◌∷◌, ◌++◌, arith, length, take, drop,
}
use rcore_fs.Sfs.Layout.{SuperBlock}
use rcore_fs.Sfs.Device.{u32_bytes, u32_of}
use rcore_fs.Sfs.Device.Store.{u32_of-u32_bytes}
use rcore_fs.Sfs.Image.{super_bytes, super_of}

-- The fields are what the fields of the on-disk structure hold.
pub record IsSuperBlock (sb : SuperBlock) : Type 0 where
  pub magic : sb.magic < 2 ^ 32
  pub blocks : sb.blocks < 2 ^ 32
  pub unused_blocks : sb.unused_blocks < 2 ^ 32
  pub info : length sb.info ≡ 32
  pub freemap_blocks : sb.freemap_blocks < 2 ^ 32

pub take-append : {A : Type 0} (xs ys : List A) (n : ℕ) → length xs ≡ n → take n (xs ++ ys) ≡ xs
take-append [] ys zero h = refl
take-append [] ys (suc n) h = absurd (omega arith)
take-append (x ∷ xs) ys zero h = absurd (omega arith)
take-append (x ∷ xs) ys (suc n) h = ap (λ t. x ∷ t) (take-append xs ys n (omega arith))

pub drop-append : {A : Type 0} (xs ys : List A) (n : ℕ) → length xs ≡ n → drop n (xs ++ ys) ≡ ys
drop-append [] ys zero h = refl
drop-append [] ys (suc n) h = absurd (omega arith)
drop-append (x ∷ xs) ys zero h = absurd (omega arith)
drop-append (x ∷ xs) ys (suc n) h = drop-append xs ys n (omega arith)

pub super_of-super_bytes : (sb : SuperBlock) → IsSuperBlock sb → super_of (super_bytes sb) ≡ sb
unfolding u32_bytes
super_of-super_bytes sb is =
    let a : u32_of (take 4 (super_bytes sb)) ≡ sb.magic = u32_of-u32_bytes sb.magic is.magic in
    let b : u32_of (take 4 (drop 4 (super_bytes sb))) ≡ sb.blocks =
      u32_of-u32_bytes sb.blocks is.blocks in
    let c : u32_of (take 4 (drop 8 (super_bytes sb))) ≡ sb.unused_blocks =
      u32_of-u32_bytes sb.unused_blocks is.unused_blocks in
    let info : take 32 (drop 12 (super_bytes sb)) ≡ sb.info =
      take-append sb.info (u32_bytes sb.freemap_blocks) 32 is.info in
    let rest : take 4 (drop 44 (super_bytes sb)) ≡ u32_bytes sb.freemap_blocks =
      ap (take 4) (drop-append sb.info (u32_bytes sb.freemap_blocks) 32 is.info) in
    let e : u32_of (take 4 (drop 44 (super_bytes sb))) ≡ sb.freemap_blocks =
      ap u32_of rest ∙ u32_of-u32_bytes sb.freemap_blocks is.freemap_blocks in
    cc (a, b, c, info, e)

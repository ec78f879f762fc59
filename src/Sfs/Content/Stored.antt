-- ===== src/Sfs/Content/Stored.antt =====
-- A piece that `_io_at` of rcore-fs-sfs/src/lib.rs writes to a block of a file.
use native.Mathlib.Decide.{dec_lt}
use rcore_fs.Base.{
  ℕ, ◌+◌, ◌-◌, ◌*◌, ◌/◌, ◌%◌, ◌≤◌, ◌<◌, ◌≡◌, ◌≢◌, refl, ap, ◌⊎◌, inl, inr, ◌&&◌, List, arith, leb,
  ltb, ◌==◌, if◌then◌else◌, length, get_or, Bool-cases,
}
use rcore_fs.Sfs.Layout.{DiskINode, blksize}
use rcore_fs.Sfs.Device.{Device, store}
use rcore_fs.Sfs.Content.File.{IsFile, SameElse, content}

-- A device after a write of `xs` at the place `p` of the block `map q`.
module _ (n : DiskINode) (map : ℕ → ℕ) (d : Device) (file : IsFile n map d) (q p : ℕ) (xs : List ℕ)
    (in_file : q < n.blocks) (fits : p + length xs ≤ blksize) where
  abbrev pub stored : Device
  stored = record d { byte = store d.byte (map q * blksize + p) xs }

  pub stored-SameElse : SameElse map n.blocks d stored
  unfolding store
  stored-SameElse = record {
    same_size = refl;
    same_byte = λ x out.
        let other : x / blksize ≢ map q = out q in_file in
        let apart : (x < map q * blksize) ⊎ (map q * blksize + blksize ≤ x) =
          elim (dec_lt x (map q * blksize)) [
            | yes below ↦ inl below
            | no above ↦ elim (dec_lt x (map q * blksize + blksize)) [
              | yes inside ↦ let hit : x / blksize ≡ map q = omega arith in absurd (other hit)
              | no behind ↦ inr (omega arith)
            ]
          ] in
        ground (arith, fits, apart);
  }

  pub content-stored :
      (x : ℕ)
      → x < n.blocks * blksize
      → content map stored x ≡ (
          if leb (q * blksize + p) x && ltb x (q * blksize + p + length xs)
          then get_or xs (x - (q * blksize + p)) 0
          else content map d x)
  unfolding store
  content-stored x h =
      let j = x / blksize in
      let m = x % blksize in
      elim (Bool-cases (j == q)) [
        | inl same ↦
            let e : j ≡ q = ground (arith, same) in
            let row : map j ≡ map q = ap map e in
            let place : map j * blksize + m - (map q * blksize + p) ≡ x - (q * blksize + p) =
              omega arith in
            ground (arith, row, e, ap (λ k. get_or xs k 0) place)
        | inr other ↦
            let ne : j ≢ q = λ e. ground (arith, other, e) in
            let apart : map j ≢ map q = λ e. ne (file.apart j q (omega arith) in_file e) in
            ground (arith, ne, apart)
      ]

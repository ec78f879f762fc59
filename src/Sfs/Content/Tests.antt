-- ===== src/Sfs/Content/Tests.antt =====
-- Tests of the reads and writes of rcore-fs-sfs/src/lib.rs.
use rcore_fs.Base.{
  ℕ, ◌+◌, ◌-◌, ◌<◌, ◌≡◌, refl, List, [], ◌∷◌, arith, ltb, if◌then◌else◌, length, get_or, min,
}
use rcore_fs.Base.Outcome.{ok}
use rcore_fs.Sfs.Device.{Device}
use rcore_fs.Sfs.Content.{read_content, write_content, clean_content}
use rcore_fs.Sfs.Content.File.{content}
use rcore_fs.Sfs.Content.Read.{read_content_lem}
use rcore_fs.Sfs.Content.Write.{IsStored, write_content_lem, clean_content_lem}
use rcore_fs.Sfs.Resize.Small.{direct_map}
use rcore_fs.Sfs.Sample.{sample, sample_inode, sample-IsFile}

abbrev map : ℕ → ℕ
map = direct_map sample_inode.value

write_content_lem_example :
    (d : Device) × (write_content 3 258 (7 ∷ 8 ∷ 9 ∷ []) sample
      ≡ (record sample { device = d }, ok 3))
    × IsStored sample 3 sample_inode map refl sample-IsFile 258 261
        (λ i. get_or (7 ∷ 8 ∷ 9 ∷ []) i 0)
        d
write_content_lem_example =
    write_content_lem sample 3 sample_inode map refl sample-IsFile 258 (7 ∷ 8 ∷ 9 ∷ [])
      (omega arith)

read_content_lem_example :
    (buf : List ℕ) × (read_content 3 518 (sample, 1 ∷ 2 ∷ 3 ∷ [])
      ≡ ((sample, buf), ok (min 520 521 - min 520 518)))
    × (length buf ≡ 3)
    × ((i : ℕ)
        → i < 3
        → get_or buf i 0 ≡ (
            if ltb (518 + i) 520
            then content map sample.device (518 + i)
            else get_or (1 ∷ 2 ∷ 3 ∷ []) i 0))
read_content_lem_example =
    read_content_lem sample 3 sample_inode map refl sample-IsFile 518 (1 ∷ 2 ∷ 3 ∷ [])

clean_content_lem_example :
    (d : Device) × (clean_content 3 4 10 sample ≡ (record sample { device = d }, ok (10 - 4)))
    × IsStored sample 3 sample_inode map refl sample-IsFile 4 10 (λ i. 0) d
clean_content_lem_example =
    clean_content_lem sample 3 sample_inode map refl sample-IsFile 4 10 (omega arith) (omega arith)

-- ===== src/Sfs/Dirent/Tests.antt =====
-- Tests of the directory entries of rcore-fs-sfs/src/lib.rs.
use rcore_fs.Base.{
  ℕ, ◌+◌, ◌*◌, ◌<◌, ◌≤◌, ◌≡◌, refl, [], ◌∷◌, arith, ◌==◌, if◌then◌else◌, Option, replicate, suc,
  zero,
}
use rcore_fs.Base.Names.{Name}
use rcore_fs.Base.Outcome.{ok}
use rcore_fs.Sfs.Layout.{dirent_size}
use rcore_fs.Sfs.State.{Sfs}
use rcore_fs.Sfs.Device.{slice}
use rcore_fs.Vfs.Path.{is_utf8, utf8_from, utf8_next}
use rcore_fs.Sfs.Str.{as_str, until_zero}
use rcore_fs.Sfs.Content.File.{content}
use rcore_fs.Sfs.Dirent.{DiskEntry, read_direntry, write_direntry, get_file_inode_and_entry_id}
use rcore_fs.Sfs.Dirent.Slots.{slot, read_direntry-write_direntry}
use rcore_fs.Sfs.Dirent.Find.{Search, get_file_inode_and_entry_id_lem}
use rcore_fs.Sfs.Resize.Small.{direct_map}
use rcore_fs.Sfs.Sample.{sample, sample_inode, sample-IsFile}

abbrev map : ℕ → ℕ
map = direct_map sample_inode.value

abbrev entry : DiskEntry
entry = record { id = 7; name = 98 ∷ replicate 255 0 }

read_direntry-write_direntry_example :
    (s : Sfs) × (write_direntry 3 1 entry sample ≡ (s, ok tt))
    × ((j : ℕ)
        → dirent_size * j + dirent_size ≤ 520
        → read_direntry 3 j s
          ≡ (s, ok (if 1 == j then entry else slot (content map sample.device) j)))
read_direntry-write_direntry_example =
    read_direntry-write_direntry sample 3 sample_inode map refl sample-IsFile 1 entry
      (record { id = omega arith; name = refl }) (omega arith)

abbrev names : ℕ → Name
names k = if k == 0 then 97 ∷ [] else []

named : (k : ℕ) → k < 2 → as_str (slot (content map sample.device) k).name ≡ ok (names k)
unfolding as_str slice until_zero is_utf8 utf8_from utf8_next
named zero h = refl
named (suc zero) h = refl
named (suc (suc k)) h = absurd (omega arith)

get_file_inode_and_entry_id_lem_example :
    (o : Option (ℕ × ℕ)) × (get_file_inode_and_entry_id 3 (97 ∷ []) sample ≡ (sample, ok o))
    × Search names (97 ∷ []) (λ k. (slot (content map sample.device) k).id) 0 2 o
get_file_inode_and_entry_id_lem_example =
    get_file_inode_and_entry_id_lem sample 3 sample_inode map refl sample-IsFile names named
      (97 ∷ [])

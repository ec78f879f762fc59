-- ===== src/Sfs/Dirent.antt =====
-- The entries of a directory in rcore-fs-sfs/src/lib.rs: `DiskEntry`, and the methods of `INodeImpl`
-- that read and write one.
pub mod Slots
pub mod Find
mod Tests
use rcore_fs.Base.{
  ℕ, zero, suc, ◌+◌, ◌-◌, ◌*◌, ◌/◌, ◌%◌, ◌^◌, Bool, Option, none, some, List, [], ◌∷◌, ◌++◌, ltb,
  leb, ◌==◌, if◌then◌else◌, take, drop, replicate,
}
use rcore_fs.Base.Names.{Name, name_eq}
use rcore_fs.Base.Outcome.{
  Outcome, ok, err, panic, hang, pure, fail, crash, lift, must, ◌>>=◌, ◌>>◌,
}
use rcore_fs.Vfs.{FsError, Result}
use rcore_fs.Sfs.Layout.{DiskINode, dirent_size}
use rcore_fs.Sfs.Device.{u32_bytes, u32_of}
use rcore_fs.Sfs.Str.{from_str, as_str}
use rcore_fs.Sfs.State.{Sfs, SfsAction, on_inode}
use rcore_fs.Sfs.Content.{read_content, write_content}
use rcore_fs.Sfs.Resize.{resize}

-- `name` holds the bytes of a `Str256`.
pub record DiskEntry : Type 0 where
  pub id : ℕ
  pub name : List ℕ

-- `as_buf` of a `DiskEntry`, which has no padding, and the entry that such bytes are.
abbrev pub entry_bytes : DiskEntry → List ℕ
entry_bytes e = u32_bytes e.id ++ e.name

abbrev pub entry_of : List ℕ → DiskEntry
entry_of xs = record { id = u32_of (take 4 xs); name = drop 4 xs }

-- `DiskEntry { id: id as u32, name: Str256::from(name) }`.
unfoldable pub new_entry : ℕ → Name → Result DiskEntry
new_entry id name = elim (from_str 256 name) [
  | ok bytes ↦ ok (record { id = id % 2 ^ 32; name = bytes })
  | err e ↦ err e
  | panic ↦ panic
  | hang ↦ hang
]

-- The buffer is not initialised: it counts as zeros.
pub read_direntry : (dir id : ℕ) → SfsAction DiskEntry
read_direntry dir id s =
    let ((s', buf), o) = read_content dir (dirent_size * id) (s, replicate dirent_size 0) in
    elim o [
      | ok n ↦ (s', ok (entry_of buf))
      | err e ↦ (s', err e)
      | panic ↦ (s', panic)
      | hang ↦ (s', hang)
    ]

pub write_direntry : (dir id : ℕ) → DiskEntry → SfsAction (Unit {0})
write_direntry dir id e = do n ← write_content dir (dirent_size * id) (entry_bytes e); pure tt

-- The search of `get_file_inode_and_entry_id`, `n` entries from `i` on.
pub find_entry : (dir : ℕ) → Name → (i n : ℕ) → SfsAction (Option (ℕ × ℕ))
unfolding read_direntry
find_entry dir name i zero = pure none
find_entry dir name i (suc n) = do
  entry ← must (read_direntry dir i)
  entry_name ← lift (as_str entry.name)
  if name_eq entry_name name then pure (some (entry.id, i)) else find_entry dir name (i + 1) n

unfoldable pub get_file_inode_and_entry_id : (dir : ℕ) → Name → SfsAction (Option (ℕ × ℕ))
unfolding find_entry
get_file_inode_and_entry_id dir name =
    on_inode dir (λ n. find_entry dir name 0 (n.size / dirent_size))

unfoldable pub get_file_inode_id : (dir : ℕ) → Name → SfsAction (Option ℕ)
unfolding get_file_inode_and_entry_id
get_file_inode_id dir name = do
  found ← get_file_inode_and_entry_id dir name
  elim found [ none ↦ pure none | some (inode_id, _) ↦ pure (some inode_id) ]

-- "." and ".."
abbrev pub dot : Name
dot = b'.' ∷ []

abbrev pub dot_dot : Name
dot_dot = b'.' ∷ b'.' ∷ []

unfoldable pub init_direntry : (dir parent : ℕ) → SfsAction (Unit {0})
unfolding new_entry write_direntry
init_direntry dir parent = do
  resize dir (dirent_size * 2)
  self_entry ← lift (new_entry dir dot)
  write_direntry dir 0 self_entry
  parent_entry ← lift (new_entry parent dot_dot)
  write_direntry dir 1 parent_entry

unfoldable pub append_direntry : (dir : ℕ) → DiskEntry → SfsAction (Unit {0})
unfolding write_direntry
append_direntry dir e =
    on_inode dir
      λ n. do resize dir (n.size + dirent_size); write_direntry dir (n.size / dirent_size) e

-- `dirent_count - 1` and `size - DIRENT_SIZE` overflow on a directory without entries; the
-- `debug_assert!` panics before.
unfoldable pub remove_direntry : (dir id : ℕ) → SfsAction (Unit {0})
unfolding read_direntry write_direntry
remove_direntry dir id = on_inode dir λ n.
    if ltb id (n.size / dirent_size)
    then (do
      last_dirent ← read_direntry dir (n.size / dirent_size - 1)
      write_direntry dir id last_dirent
      resize dir (n.size - dirent_size))
    else crash

-- ===== src/Ramfs/Dir.antt =====
-- The methods of rcore-fs-ramfs/src/lib.rs on directories.
use rcore_fs.Base.{
  ℕ, zero, suc, ◌+◌, ◌-◌, Bool, true, false, ◌||◌, Option, none, some, List, [], ◌∷◌, ◌++◌, ltb,
  ◌==◌, ◌%◌, ◌^◌, if◌then◌else◌, length,
}
use rcore_fs.Base.Names.{Name, name_eq, lookup, insert, remove, key_at}
use rcore_fs.Base.Outcome.{Outcome, ok, err, panic, hang, pure, fail, ◌>>=◌, ◌>>◌}
use rcore_fs.Vfs.{FsError, FileType, is_dir_type}
use rcore_fs.Ramfs.State.{Ram, RamFsInode, RamAction, upgrade, with_node, put_node, new_metadata}

abbrev pub dot : Name
dot = b'.' ∷ []

abbrev pub dot_dot : Name
dot_dot = b'.' ∷ b'.' ∷ []

abbrev pub contains_key : Name → List (Name × ℕ) → Bool
contains_key name m = elim (lookup name m) [ none ↦ false | some _ ↦ true ]

-- The inode that `create2` makes.
abbrev pub new_child : Ram → RamFsInode → FileType → (mode data_ : ℕ) → RamFsInode
new_child s file type_ mode data_ = record {
  parent = file.this;
  this = some (length s.nodes);
  children = [];
  content = [];
  extra = new_metadata s.next_id type_ (mode % 2 ^ 16) data_;
  fs = file.fs;
}

abbrev pub add_child : Ram → ℕ → RamFsInode → Name → RamFsInode → Ram
add_child s a file name child =
    let s' = put_node s a (record file { children = insert name (length s.nodes) file.children }) in
    record s' { nodes = s'.nodes ++ child ∷ []; next_id = s.next_id + 1 }

-- `create2` returns the address of the new inode.
unfoldable pub create2 : ℕ → Name → FileType → (mode data_ : ℕ) → RamAction ℕ
create2 a name type_ mode data_ = with_node a λ file s.
    if is_dir_type file.extra.type_
    then (if name_eq name dot || name_eq name dot_dot
        then (s, err FsError.entry_exist)
        else if contains_key name file.children
        then (s, err FsError.entry_exist)
        else (add_child s a file name (new_child s file type_ mode data_), ok (length s.nodes)))
    else (s, err FsError.not_dir)

-- `lock_multiple(&[&self.0, &other.0])`: the two addresses in the order of the inode numbers (the
-- sort is stable). The second lock of one and the same inode is waited for in vain.
unfoldable pub lock_multiple : (a b : ℕ) → RamAction (ℕ × ℕ)
lock_multiple a b = with_node a λ na. with_node b λ nb s.
    if a == b
    then (s, hang)
    else if ltb nb.extra.inode na.extra.inode
    then (s, ok (b, a))
    else (s, ok (a, b))

-- What `link` does with the two inodes that it has locked.
unfoldable pub link_locked : (file_at other_at : ℕ) → Name → RamAction (Unit {0})
link_locked file_at other_at name = with_node file_at λ file. with_node other_at λ other s.
    if is_dir_type file.extra.type_
    then (if is_dir_type other.extra.type_
        then (s, err FsError.is_dir)
        else if contains_key name file.children
        then (s, err FsError.entry_exist)
        else (elim (upgrade s other.this) [
          | none ↦ (s, panic)
          | some target ↦ (
            put_node
                (put_node s file_at (record file { children = insert name target file.children }))
                other_at
                (record other { extra = record (other.extra) { nlinks = other.extra.nlinks + 1 } }),
            ok tt,
          )
        ]))
    else (s, err FsError.not_dir)

-- `link`; `none` stands for an inode of another file system, to which the downcast fails.
unfoldable pub link : ℕ → Name → Option ℕ → RamAction (Unit {0})
unfolding lock_multiple link_locked
link a name none = fail FsError.not_same_fs
link a name (some b) = do (file_at, other_at) ← lock_multiple a b; link_locked file_at other_at name

-- `unlink` holds the lock of `self` while it locks the child.
unfoldable pub unlink : ℕ → Name → RamAction (Unit {0})
unlink a name = with_node a λ file s.
    if is_dir_type file.extra.type_
    then (if name_eq name dot || name_eq name dot_dot
        then (s, err FsError.dir_not_empty)
        else (elim (lookup name file.children) [
          | none ↦ (s, err FsError.entry_not_found)
          | some b ↦
              if b == a
              then (s, hang)
              else with_node b
                  (λ other s.
                    if ltb 0 (length other.children)
                    then (s, err FsError.dir_not_empty)
                    else if other.extra.nlinks == 0
                    then (s, panic)
                    else (
                      put_node
                          (put_node s b (record other {
                            extra = record (other.extra) { nlinks = other.extra.nlinks - 1 };
                          }))
                          a (record file { children = remove name file.children }),
                      ok tt,
                    ))
                  s
        ]))
    else (s, err FsError.not_dir)

abbrev pub found : Option ℕ → RamAction ℕ
found none = fail FsError.entry_not_found
found (some b) = pure b

unfoldable pub find : ℕ → Name → RamAction ℕ
find a name = with_node a λ file s.
    if is_dir_type file.extra.type_
    then (if name_eq name dot
        then found (upgrade s file.this) s
        else if name_eq name dot_dot
        then found (upgrade s file.parent) s
        else found (lookup name file.children) s)
    else (s, err FsError.not_dir)

-- What `move_` does when the old name has been unlinked, or could not be: it takes the new name back.
unfoldable pub recover :
    ℕ → Name → Ram × Outcome FsError (Unit {0}) → Ram × Outcome FsError (Unit {0})
unfolding unlink
recover target new_name (s, ok x) = (s, ok tt)
recover target new_name (s, err e) = (do unlink target new_name; fail e) s
recover target new_name (s, panic) = (s, panic)
recover target new_name (s, hang) = (s, hang)

-- `move_` to a directory of the same kind of file system.
unfoldable pub move_ : ℕ → Name → ℕ → Name → RamAction (Unit {0})
unfolding find link unlink recover
move_ a old_name target new_name = do
  elem ← find a old_name
  link target new_name (some elem)
  λ s. recover target new_name (unlink a old_name s)

unfoldable pub get_entry : ℕ → ℕ → RamAction Name
get_entry a id = with_node a λ file s.
    if is_dir_type file.extra.type_
    then (elim id [
      | zero ↦ (s, ok dot)
      | suc zero ↦ (s, ok dot_dot)
      | suc (suc i) ↦ (elim (key_at i file.children) [
        | none ↦ (s, err FsError.entry_not_found)
        | some name ↦ (s, ok name)
      ])
    ])
    else (s, err FsError.not_dir)

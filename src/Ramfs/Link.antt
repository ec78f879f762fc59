-- ===== src/Ramfs/Link.antt =====
-- Hard links of rcore-fs-ramfs/src/lib.rs: `link`, and what `find` sees of it.
use rcore_fs.Base.{
  ℕ, ◌+◌, ◌≤◌, ◌<◌, ◌≡◌, ◌≢◌, ◌∙◌, sym, true, false, arith, if◌then◌else◌, some, none, get_elem?,
  get_elem?-set_self, get_elem?-set_ne, lt_of_get_elem?, length-set, set,
}
use rcore_fs.Base.Names.{Name, name_eq, lookup, insert, lookup-insert}
use rcore_fs.Base.Outcome.{ok, err}
use rcore_fs.Vfs.{FsError, is_dir_type}
use rcore_fs.Ramfs.State.{Ram, RamFsInode, put_node, contains}
use rcore_fs.Ramfs.Dir.{dot, dot_dot, link, find, move_}

-- A directory `file` at `a` and an inode `other` at another place `b`.
module _ (s : Ram) (a b : ℕ) (file other : RamFsInode) (name : Name)
    (at_a : get_elem? s.nodes a ≡ some file) (at_b : get_elem? s.nodes b ≡ some other) where
  -- `link` takes the older of the two inodes for the directory. So the link of a file that is older
  -- than the directory and is no directory itself fails with `NotDir` and changes nothing.
  pub link_older :
      other.extra.inode < file.extra.inode
      → is_dir_type other.extra.type_ ≡ false
      → a ≢ b
      → link a name (some b) s ≡ (s, err FsError.not_dir)
  unfolding link
  link_older older plain apart = ground (arith, at_a, at_b)

  -- A file that is found in some directory, is no directory itself and is older than the target
  -- directory is not moved there: `move_` fails with `NotDir` and changes nothing.
  pub move_older :
      (from : ℕ) (old_name : Name)
      → find from old_name s ≡ (s, ok b)
      → other.extra.inode < file.extra.inode
      → is_dir_type other.extra.type_ ≡ false
      → a ≢ b
      → move_ from old_name a name s ≡ (s, err FsError.not_dir)
  unfolding move_
  move_older from old_name at_old older plain apart = rw (at_old, link_older older plain apart)

  module _ (newer : file.extra.inode ≤ other.extra.inode)
      (is_dir : is_dir_type file.extra.type_ ≡ true) (plain : is_dir_type other.extra.type_ ≡ false)
      (free : lookup name file.children ≡ none) (own : other.this ≡ some b)
      (alive : contains s.dropped b ≡ false) (apart : a ≢ b) where
    abbrev pub linked : Ram
    linked =
        put_node (put_node s a (record file { children = insert name b file.children })) b
          (record other { extra = record (other.extra) { nlinks = other.extra.nlinks + 1 } })

    link_ok : link a name (some b) s ≡ (linked, ok tt)
    unfolding link
    link_ok = ground (arith, at_a, at_b, own, alive)

    dir_after :
        get_elem? linked.nodes a ≡ some (record file { children = insert name b file.children })
    dir_after =
        get_elem?-set_ne (set s.nodes a (record file { children = insert name b file.children })) _
          (λ e. apart (sym e))
        ∙ get_elem?-set_self s.nodes a _ (lt_of_get_elem? s.nodes a at_a)

    names_after :
        (j : Name)
        → name_eq j dot ≡ false
        → name_eq j dot_dot ≡ false
        → (find a j linked).1 ≡ (if name_eq name j then ok b else (find a j s).1)
    unfolding find
    names_after j h k = ground (arith, dir_after, at_a, lookup-insert name j b file.children)

    file_after :
        get_elem? linked.nodes b
        ≡ some (record other { extra = record (other.extra) { nlinks = other.extra.nlinks + 1 } })
    file_after =
        get_elem?-set_self (set s.nodes a (record file { children = insert name b file.children }))
          b _
          (omega (
            arith,
            lt_of_get_elem? s.nodes b at_b,
            length-set s.nodes a (record file { children = insert name b file.children }),
          ))

    -- A live inode that is no directory and not older than the directory is linked under a free name:
    -- the name leads to it from then on, every other name leads where it led, and the inode counts
    -- one link more.
    pub link_newer :
        (link a name (some b) s ≡ (linked, ok tt))
        × ((j : Name)
            → name_eq j dot ≡ false
            → name_eq j dot_dot ≡ false
            → (find a j linked).1 ≡ (if name_eq name j then ok b else (find a j s).1))
        × (get_elem? linked.nodes b
            ≡ some
                (record other { extra = record (other.extra) { nlinks = other.extra.nlinks + 1 } }))
    link_newer = (link_ok, names_after, file_after)

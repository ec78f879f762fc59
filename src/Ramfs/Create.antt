-- ===== src/Ramfs/Create.antt =====
-- `create2` and `unlink` of rcore-fs-ramfs/src/lib.rs, and what `find` sees of them.
use mathlib.Core.Path.{subst}
use rcore_fs.Base.{
  ℕ, ◌-◌, ◌<◌, ◌≡◌, ◌≢◌, ◌∙◌, sym, true, false, [], ◌%◌, ◌^◌, ◌∷◌, ◌++◌, arith, if◌then◌else◌, some,
  none, length, get_elem?, get_elem?-set_self, get_elem?-set_ne, get_elem?-append_left,
  get_elem?-append_length, lt_of_get_elem?, length-set, set,
}
use rcore_fs.Base.Names.{Name, name_eq, lookup, insert, remove, lookup-insert, lookup-remove}
use rcore_fs.Base.Outcome.{ok, err}
use rcore_fs.Vfs.{FsError, FileType, Metadata, is_dir_type}
use rcore_fs.Ramfs.State.{Ram, RamFsInode, put_node}
use rcore_fs.Ramfs.Dir.{dot, dot_dot, new_child, add_child, create2, unlink, find}

-- A name that `find` looks up among the children.
abbrev pub Proper : Name → Type 0
Proper name = (name_eq name dot ≡ false) × (name_eq name dot_dot ≡ false)

-- The metadata of an inode that nothing was written to, with one link.
abbrev pub fresh_metadata : (inode : ℕ) → FileType → (mode rdev : ℕ) → Metadata
fresh_metadata inode type_ mode rdev = record {
  dev = 0;
  inode = inode;
  size = 0;
  blk_size = 0;
  blocks = 0;
  atime = record { sec = 0; nsec = 0 };
  mtime = record { sec = 0; nsec = 0 };
  ctime = record { sec = 0; nsec = 0 };
  type_ = type_;
  mode = mode;
  nlinks = 1;
  uid = 0;
  gid = 0;
  rdev = rdev;
}

module _ (s : Ram) (a : ℕ) (file : RamFsInode) (name : Name)
    (at_a : get_elem? s.nodes a ≡ some file) (is_dir : is_dir_type file.extra.type_ ≡ true)
    (proper : Proper name) where
  module _ (type_ : FileType) (mode data_ : ℕ) where
    abbrev pub child : RamFsInode
    child = new_child s file type_ mode data_

    abbrev pub created : Ram
    created = add_child s a file name child

    old_nodes :
        (b : ℕ)
        → b < length s.nodes
        → get_elem? created.nodes b
          ≡ get_elem?
              (set s.nodes a
                (record file { children = insert name (length s.nodes) file.children }))
              b
    old_nodes b h =
        get_elem?-append_left
          (set s.nodes a (record file { children = insert name (length s.nodes) file.children }))
          (child ∷ []) b
          (omega (
            arith,
            length-set s.nodes a
                (record file { children = insert name (length s.nodes) file.children }),
          ))

    dir_created :
        get_elem? created.nodes a
        ≡ some (record file { children = insert name (length s.nodes) file.children })
    dir_created =
        old_nodes a (lt_of_get_elem? s.nodes a at_a)
        ∙ get_elem?-set_self s.nodes a _ (lt_of_get_elem? s.nodes a at_a)

    create2_ok :
        lookup name file.children ≡ none
        → create2 a name type_ mode data_ s ≡ (created, ok (length s.nodes))
    unfolding create2
    create2_ok free = ground (arith, at_a)

    -- A name that exists is refused, and nothing changes.
    pub create2_exists :
        (b : ℕ)
        → lookup name file.children ≡ some b
        → create2 a name type_ mode data_ s ≡ (s, err FsError.entry_exist)
    unfolding create2
    create2_exists b taken = ground (arith, at_a)

    names_created :
        (j : Name)
        → Proper j
        → (find a j created).1 ≡ (if name_eq name j then ok (length s.nodes) else (find a j s).1)
    unfolding find
    names_created j p =
        ground (arith, dir_created, at_a, lookup-insert name j (length s.nodes) file.children)

    new_node : get_elem? created.nodes (length s.nodes) ≡ some child
    new_node =
        let nodes =
          set s.nodes a (record file { children = insert name (length s.nodes) file.children }) in
        subst (λ k. get_elem? (nodes ++ child ∷ []) k ≡ some child) (length-set s.nodes a _)
          (get_elem?-append_length nodes child)

    -- In a directory, `create2` of a free name that is neither `.` nor `..` succeeds. At an address
    -- of its own there is then an inode of the type, mode and device number asked for, without
    -- content and children and with one link, the next inode number and the directory as its parent;
    -- the name leads there from then on, every other name of the directory leads where it led, and
    -- no inode but the directory changes.
    pub create2_lem :
        lookup name file.children ≡ none
        → (create2 a name type_ mode data_ s ≡ (created, ok (length s.nodes)))
          × ((j : Name)
              → Proper j
              → (find a j created).1
                ≡ (if name_eq name j then ok (length s.nodes) else (find a j s).1))
          × (get_elem? created.nodes (length s.nodes)
              ≡ some (record {
                parent = file.this;
                this = some (length s.nodes);
                children = [];
                content = [];
                extra = fresh_metadata s.next_id type_ (mode % 2 ^ 16) data_;
                fs = file.fs;
              }))
          × ((b : ℕ) → b ≢ a → b < length s.nodes → get_elem? created.nodes b ≡ get_elem? s.nodes b)
    create2_lem free = (
      create2_ok free,
      names_created,
      new_node,
      λ b ne h. old_nodes b h ∙ get_elem?-set_ne s.nodes _ (λ e. ne (sym e)),
    )

  module _ (b : ℕ) (other : RamFsInode) (at_b : get_elem? s.nodes b ≡ some other) (apart : a ≢ b)
      (entry : lookup name file.children ≡ some b) where
    -- A directory that has entries is not removed, and nothing changes.
    pub unlink_not_empty :
        0 < length other.children → unlink a name s ≡ (s, err FsError.dir_not_empty)
    unfolding unlink
    unlink_not_empty full = ground (arith, at_a, at_b, proper)

    abbrev pub unlinked : Ram
    unlinked =
        put_node
          (put_node s b
            (record other { extra = record (other.extra) { nlinks = other.extra.nlinks - 1 } }))
          a (record file { children = remove name file.children })

    unlink_ok :
        length other.children ≡ 0 → 0 < other.extra.nlinks → unlink a name s ≡ (unlinked, ok tt)
    unfolding unlink
    unlink_ok empty linked = ground (arith, at_a, at_b, proper)

    dir_unlinked :
        get_elem? unlinked.nodes a ≡ some (record file { children = remove name file.children })
    dir_unlinked = get_elem?-set_self (set s.nodes b _) a _ (
        omega (
          arith,
          lt_of_get_elem? s.nodes a at_a,
          length-set s.nodes b
              (record other { extra = record (other.extra) { nlinks = other.extra.nlinks - 1 } }),
        ))

    names_unlinked :
        (j : Name)
        → Proper j
        → (find a j unlinked).1
          ≡ (if name_eq name j then err FsError.entry_not_found else (find a j s).1)
    unfolding find
    names_unlinked j p = ground (arith, dir_unlinked, at_a, lookup-remove name j file.children)

    file_unlinked :
        get_elem? unlinked.nodes b
        ≡ some (record other { extra = record (other.extra) { nlinks = other.extra.nlinks - 1 } })
    file_unlinked =
        get_elem?-set_ne (set s.nodes b _) _ apart
        ∙ get_elem?-set_self s.nodes b _ (lt_of_get_elem? s.nodes b at_b)

    -- In a directory, `unlink` of a name that leads to another inode, which has no entries and at
    -- least one link, succeeds: the name is not found any more, every other name of the directory
    -- leads where it led, and the inode counts one link less.
    pub unlink_lem :
        length other.children ≡ 0
        → 0 < other.extra.nlinks
        → (unlink a name s ≡ (unlinked, ok tt))
          × ((j : Name)
              → Proper j
              → (find a j unlinked).1
                ≡ (if name_eq name j then err FsError.entry_not_found else (find a j s).1))
          × (get_elem? unlinked.nodes b
              ≡ some (record other {
                extra = record (other.extra) { nlinks = other.extra.nlinks - 1 };
              }))
    unlink_lem empty linked = (unlink_ok empty linked, names_unlinked, file_unlinked)

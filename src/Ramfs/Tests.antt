-- ===== src/Ramfs/Tests.antt =====
-- A root with a file `a` and a younger directory `d`, and the theorems at it.
use rcore_fs.Base.{
  ℕ, ◌<◌, ◌≡◌, ◌≢◌, refl, true, false, ◌&&◌, List, [], ◌∷◌, arith, some, length, get_elem?, get_or,
  leb, ltb, if◌then◌else◌, max, ◌-◌,
}
use rcore_fs.Base.Names.{Name, name_eq, name_lt, lookup, insert, remove}
use rcore_fs.Base.Outcome.{ok, err, panic}
use rcore_fs.Vfs.{FsError, FileType}
use rcore_fs.Ramfs.State.{Ram, RamFsInode, new, new_metadata, put_node}
use rcore_fs.Ramfs.File.{read_at, write_at}
use rcore_fs.Ramfs.Dir.{dot, dot_dot, create2, link, unlink, find, move_}
use rcore_fs.Ramfs.Content.{write_at_lem, read_at-write_at}
use rcore_fs.Ramfs.Link.{link_older, move_older, link_newer}
use rcore_fs.Ramfs.Create.{Proper, child, created, create2_lem, unlink_lem}
use rcore_fs.Ramfs.Links.Invariant.{IsLinked}
use rcore_fs.Ramfs.Links.Run.{Call, create_call, link_call, unlink_call, run, run-IsLinked}

abbrev name_a : Name
name_a = b'a' ∷ []

abbrev name_b : Name
name_b = b'b' ∷ []

abbrev name_d : Name
name_d = b'd' ∷ []

abbrev leaf : ℕ → FileType → ℕ → RamFsInode
leaf this t id = record {
  parent = some 0;
  this = some this;
  children = [];
  content = [];
  extra = new_metadata id t 0o644 0;
  fs = true;
}

abbrev root : RamFsInode
root = record {
  parent = some 0;
  this = some 0;
  children = (name_a, 1) ∷ (name_d, 2) ∷ [];
  content = [];
  extra = new_metadata 4096 FileType.dir 0o777 0;
  fs = true;
}

abbrev start : Ram
start = record {
  nodes = root ∷ leaf 1 FileType.file 2 ∷ leaf 2 FileType.dir 3 ∷ [];
  next_id = 4;
  dropped = [];
}

-- `start` is what two calls make of a new file system.
start_made :
    (create2 0 name_d FileType.dir 0o644 0
      (create2 0 name_a FileType.file 0o644 0 (new 1 4096)).0).0
    ≡ start
unfolding create2 new lookup insert name_eq name_lt
start_made = refl

-- The file is older than `d`, and the root is older than nothing: neither takes a link to the file.
link_into_root : (link 0 name_b (some 1) start).1 ≡ err FsError.not_dir
unfolding link
link_into_root = refl

rename_in_root : (move_ 0 name_a 0 name_b start).1 ≡ err FsError.not_dir
unfolding move_ lookup name_eq
rename_in_root = refl

link_older_example : link 2 name_b (some 1) start ≡ (start, err FsError.not_dir)
link_older_example =
    link_older start 2 1 (leaf 2 FileType.dir 3) (leaf 1 FileType.file 2) name_b refl refl
      (omega arith) refl (omega arith)

find_a : find 0 name_a start ≡ (start, ok 1)
unfolding find lookup name_eq
find_a = refl

move_older_example : move_ 0 name_a 2 name_b start ≡ (start, err FsError.not_dir)
move_older_example =
    move_older start 2 1 (leaf 2 FileType.dir 3) (leaf 1 FileType.file 2) name_b refl refl 0 name_a
      find_a (omega arith) refl (omega arith)

abbrev young : RamFsInode
young = leaf 1 FileType.file 9

abbrev later : Ram
later = record start { nodes = root ∷ young ∷ leaf 2 FileType.dir 3 ∷ [] }

abbrev after_link : Ram
after_link =
    put_node (put_node later 2 (record (leaf 2 FileType.dir 3) { children = insert name_b 1 [] })) 1
      (record young { extra = record (young.extra) { nlinks = 2 } })

link_newer_example :
    (link 2 name_b (some 1) later ≡ (after_link, ok tt))
    × ((j : Name)
        → name_eq j dot ≡ false
        → name_eq j dot_dot ≡ false
        → (find 2 j after_link).1 ≡ (if name_eq name_b j then ok 1 else (find 2 j later).1))
    × (get_elem? after_link.nodes 1
        ≡ some (record young { extra = record (young.extra) { nlinks = 2 } }))
unfolding lookup
link_newer_example =
    link_newer later 2 1 (leaf 2 FileType.dir 3) young name_b refl refl (omega arith) refl refl refl
      refl refl (omega arith)

write_at_lem_example :
    (content : List ℕ) × (write_at 1 2 (7 ∷ 8 ∷ []) start
      ≡ (put_node start 1 (record (leaf 1 FileType.file 2) { content = content }), ok 2))
    × (length content ≡ max 0 4)
    × ((i : ℕ)
        → get_or content i 0
          ≡ (if leb 2 i && ltb i 4 then get_or (7 ∷ 8 ∷ []) (i - 2) 0 else get_or [] i 0))
write_at_lem_example = write_at_lem start 1 (leaf 1 FileType.file 2) refl refl 2 (7 ∷ 8 ∷ [])

read_at-write_at_example :
    read_at 1 2 2 (write_at 1 2 (7 ∷ 8 ∷ []) start).0
    ≡ ((write_at 1 2 (7 ∷ 8 ∷ []) start).0, ok (7 ∷ 8 ∷ []))
read_at-write_at_example =
    read_at-write_at start 1 (leaf 1 FileType.file 2) refl refl 2 (7 ∷ 8 ∷ [])

Proper-b : Proper name_b
unfolding name_eq
Proper-b = (refl, refl)

Proper-a : Proper name_a
unfolding name_eq
Proper-a = (refl, refl)

abbrev with_b : Ram
with_b = created start 0 root name_b refl refl Proper-b FileType.file 0o644 0

abbrev new_b : RamFsInode
new_b = child start 0 root name_b refl refl Proper-b FileType.file 0o644 0

create2_lem_example :
    (create2 0 name_b FileType.file 0o644 0 start ≡ (with_b, ok 3))
    × ((j : Name)
        → Proper j
        → (find 0 j with_b).1 ≡ (if name_eq name_b j then ok 3 else (find 0 j start).1))
    × (get_elem? with_b.nodes 3 ≡ some new_b)
    × ((b : ℕ) → b ≢ 0 → b < 3 → get_elem? with_b.nodes b ≡ get_elem? start.nodes b)
unfolding lookup name_eq
create2_lem_example = create2_lem start 0 root name_b refl refl Proper-b FileType.file 0o644 0 refl

abbrev without_a : Ram
without_a =
    put_node
      (put_node start 1 (record (leaf 1 FileType.file 2) {
        extra = record (new_metadata 2 FileType.file 0o644 0) { nlinks = 0 };
      }))
      0 (record root { children = remove name_a root.children })

unlink_lem_example :
    (unlink 0 name_a start ≡ (without_a, ok tt))
    × ((j : Name)
        → Proper j
        → (find 0 j without_a).1
          ≡ (if name_eq name_a j then err FsError.entry_not_found else (find 0 j start).1))
    × (get_elem? without_a.nodes 1
        ≡ some (record (leaf 1 FileType.file 2) {
          extra = record (new_metadata 2 FileType.file 0o644 0) { nlinks = 0 };
        }))
unfolding lookup name_eq
unlink_lem_example =
    unlink_lem start 0 root name_a refl refl Proper-a 1 (leaf 1 FileType.file 2) refl (omega arith)
      refl refl (omega arith)

abbrev calls : List Call
calls =
    create_call 0 name_d FileType.dir 0 0
    ∷ create_call 1 name_a FileType.file 0 0
    ∷ link_call 1 name_b (some 2)
    ∷ unlink_call 1 name_a
    ∷ []

run-IsLinked_example :
    IsLinked (run (new 1 4096) calls).nodes
    × ((a : ℕ) (name : Name) (f : RamFsInode)
        → get_elem? (run (new 1 4096) calls).nodes a ≡ some f
        → (unlink a name (run (new 1 4096) calls)).1 ≢ panic)
run-IsLinked_example = run-IsLinked 1 4096 calls

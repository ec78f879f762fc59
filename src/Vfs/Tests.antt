-- ===== src/Vfs/Tests.antt =====
-- Tests of the walk of a path, in a tree of a directory `a` with a file `b`, and a link `l` to `a`.
use rcore_fs.Base.{ℕ, ◌≡◌, refl, some, List, [], ◌∷◌, arith, length, ◌==◌, ◌&&◌, if◌then◌else◌}
use rcore_fs.Base.Names.{Name, name_eq}
use rcore_fs.Base.Outcome.{Outcome, Action, ok, err, ◌>>=◌}
use rcore_fs.Vfs.{FileType, FsError, Metadata, epoch}
use rcore_fs.Vfs.Path.{split_name}
use rcore_fs.Vfs.Walk.{
  NodeCalls, start, walk, step, follow_name, read_link, lookup_follow, lookup, list,
}
use rcore_fs.Vfs.Ends.{lookup_follow_lem}
use rcore_fs.Vfs.Descend.{descend, lookup_lem}
use rcore_fs.Vfs.Listing.{Entries, list_lem}

abbrev info_of : ℕ → FileType → Metadata
info_of i type_ = record {
  dev = 0;
  inode = i;
  size = 0;
  blk_size = 0;
  blocks = 0;
  atime = epoch;
  mtime = epoch;
  ctime = epoch;
  type_ = type_;
  mode = 0;
  nlinks = 1;
  uid = 0;
  gid = 0;
  rdev = 0;
}

abbrev type_of : ℕ → FileType
type_of i = if i == 2 then FileType.file else if i == 3 then FileType.sym_link else FileType.dir

-- The node 0 is the root, 1 is `a`, 2 is `b`, 3 is `l`.
abbrev find_in : ℕ → Name → Action (Unit {0}) FsError ℕ
find_in i name s =
    if name_eq name (46 ∷ [])
    then (s, ok i)
    else if (i == 0) && name_eq name (97 ∷ [])
    then (s, ok 1)
    else if (i == 0) && name_eq name (108 ∷ [])
    then (s, ok 3)
    else if (i == 1) && name_eq name (98 ∷ [])
    then (s, ok 2)
    else (s, err FsError.entry_not_found)

abbrev entry_in : ℕ → ℕ → Action (Unit {0}) FsError Name
entry_in i k s =
    if (i == 0) && (k == 0)
    then (s, ok (97 ∷ []))
    else if (i == 0) && (k == 1)
    then (s, ok (108 ∷ []))
    else (s, err FsError.entry_not_found)

abbrev put_first : ℕ → List ℕ → List ℕ
put_first b [] = []
put_first b (_ ∷ bs) = b ∷ bs

abbrev tree : NodeCalls (Unit {0}) ℕ
tree = record {
  metadata = λ i s. (s, ok (info_of i (type_of i)));
  find = find_in;
  root_inode = λ i s. (s, ok 0);
  read_at = λ i offset buf s. ((s, put_first 97 buf), ok 1);
  get_entry = entry_in;
}

length-put_first : (buf : List ℕ) → length (put_first 97 buf) ≡ length buf
length-put_first [] = refl
length-put_first (b ∷ bs) = refl

-- "l/b" through the link.
lookup_follow_lem_example :
    (r : Unit {0} × Outcome FsError ℕ) × (lookup_follow tree 300 0 (108 ∷ 47 ∷ 98 ∷ []) 1 tt
      ≡ some r)
lookup_follow_lem_example =
    lookup_follow_lem tree (λ i offset buf s. length-put_first buf) 0 (108 ∷ 47 ∷ 98 ∷ []) 1 tt 300
      (omega arith)

-- "a/b".
lookup_lem_example :
    lookup tree 2 0 (97 ∷ 47 ∷ 98 ∷ []) tt
    ≡ some ((start tree 0 >>= λ node. descend tree node ((97 ∷ []) ∷ (98 ∷ []) ∷ [])) tt)
lookup_lem_example = lookup_lem tree 0 ((97 ∷ []) ∷ (98 ∷ []) ∷ []) tt 2 refl (omega arith)

list_lem_example : list tree 3 0 tt ≡ some (tt, ok ((97 ∷ []) ∷ (108 ∷ []) ∷ []))
list_lem_example =
    list_lem tree 0 tt 3 ((97 ∷ []) ∷ (108 ∷ []) ∷ []) (info_of 0 FileType.dir) refl refl
      (Entries.entry _ _ _ refl
        (Entries.entry _ _ _ refl (Entries.no_more _ FsError.entry_not_found refl)))
      (omega arith)

-- "a//b" starts again at the root behind the second '/'.
double_slash : lookup tree 9 0 (97 ∷ 47 ∷ 47 ∷ 98 ∷ []) tt ≡ some (tt, err FsError.entry_not_found)
unfolding lookup lookup_follow walk step follow_name read_link split_name name_eq
double_slash = refl

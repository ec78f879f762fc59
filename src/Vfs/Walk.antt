-- ===== src/Vfs/Walk.antt =====
-- `impl dyn INode` of rcore-fs/src/vfs.rs: `list`, `lookup` and `lookup_follow`, for every file system.
use rcore_fs.Base.{
  ℕ, zero, suc, ◌+◌, ◌-◌, Bool, false, ◌&&◌, Option, none, some, List, [], ◌∷◌, leb, ltb, ◌==◌,
  if◌then◌else◌, length, take, drop, replicate,
}
use rcore_fs.Base.Names.{Name}
use rcore_fs.Base.Outcome.{Outcome, Action, ok, err, panic, hang, pure, fail, ◌>>=◌, ◌>>◌}
use rcore_fs.Vfs.{FileType, FsError, Metadata, is_dir_type, is_sym_link_type}
use rcore_fs.Vfs.Path.{slash, split_name, join, is_utf8}

-- The methods of a file system that the walk calls. A read takes the buffer and gives it back.
pub record NodeCalls (S I : Type 0) : Type 0 where
  pub metadata : I → Action S FsError Metadata
  pub find : I → Name → Action S FsError I
  pub root_inode : I → Action S FsError I
  pub read_at : I → (offset : ℕ) → List ℕ → S → (S × List ℕ) × Outcome FsError ℕ
  pub get_entry : I → ℕ → Action S FsError Name

abbrev map_ok : {E A B : Type 0} → (A → B) → Outcome E A → Outcome E B
map_ok f (ok a) = ok (f a)
map_ok f (err e) = err e
map_ok f panic = panic
map_ok f hang = hang

-- `chars().next()` is a '/'.
abbrev pub starts_with_slash : List ℕ → Bool
starts_with_slash [] = false
starts_with_slash (b ∷ bs) = b == slash

module _ {S I : Type 0} (calls : NodeCalls S I) where
  abbrev pub require_dir : FileType → Action S FsError (Unit {0})
  require_dir type_ = if is_dir_type type_ then pure tt else fail FsError.not_dir

  -- The target of a symbolic link, from at most 256 bytes. The slice panics behind the buffer.
  unfoldable pub read_link : I → Action S FsError (List ℕ)
  read_link inode s =
      let ((s', content), o) = calls.read_at inode 0 (replicate 256 0) s in
      elim o [
        | ok len ↦
            if leb len (length content)
            then (if is_utf8 (take len content)
                then (s', ok (take len content))
                else (s', err FsError.not_dir))
            else (s', panic)
        | err e ↦ (s', err e)
        | panic ↦ (s', panic)
        | hang ↦ (s', hang)
      ]

  -- A step into what the name leads to, or through it.
  unfoldable pub follow_name :
      I → Name → (rest : List ℕ) → (follow_times : ℕ) → Action S FsError (I × List ℕ × ℕ)
  unfolding read_link
  follow_name result name rest follow_times = do
    inode ← calls.find result name
    info ← calls.metadata inode
    if is_sym_link_type info.type_ && ltb 0 follow_times
        then (do path ← read_link inode; pure (result, join path rest, follow_times - 1))
        else pure (inode, rest, follow_times)

  -- The body of the loop, for a path that is not empty; `self` is where the walk started.
  unfoldable pub step :
      (self result : I) → (rest : List ℕ) → (follow_times : ℕ) → Action S FsError (I × List ℕ × ℕ)
  unfolding follow_name
  step self result rest follow_times = do
    info ← calls.metadata result
    require_dir info.type_
    if starts_with_slash rest
        then (do root ← calls.root_inode self; pure (root, drop 1 rest, follow_times))
        else (let (name, rest_path) = split_name rest in
            if length name == 0
            then pure (result, rest_path, follow_times)
            else follow_name result name rest_path follow_times)

  -- The loop; `none` when the fuel is used up.
  unfoldable pub walk :
      (fuel : ℕ) (self result : I)
      → (rest : List ℕ) → (follow_times : ℕ) → S
      → Option (S × Outcome FsError I)
  unfolding step
  walk fuel self result [] follow_times s = some (s, ok result)
  walk zero self result (b ∷ bs) follow_times s = none
  walk (suc fuel) self result (b ∷ bs) follow_times s =
      let (s', o) = step self result (b ∷ bs) follow_times s in
      elim o [
        | ok (next, rest, times) ↦ walk fuel self next rest times s'
        | err e ↦ some (s', err e)
        | panic ↦ some (s', panic)
        | hang ↦ some (s', hang)
      ]

  abbrev pub start : I → Action S FsError I
  start self = do info ← calls.metadata self; require_dir info.type_; calls.find self (b'.' ∷ [])

  unfoldable pub lookup_follow :
      (fuel : ℕ) → I → (path : List ℕ) → (follow_times : ℕ) → S → Option (S × Outcome FsError I)
  unfolding walk
  lookup_follow fuel self path follow_times s =
      let (s', o) = start self s in
      elim o [
        | ok result ↦ walk fuel self result path follow_times s'
        | err e ↦ some (s', err e)
        | panic ↦ some (s', panic)
        | hang ↦ some (s', hang)
      ]

  unfoldable pub lookup : (fuel : ℕ) → I → (path : List ℕ) → S → Option (S × Outcome FsError I)
  unfolding lookup_follow
  lookup fuel self path = lookup_follow fuel self path 0

  -- The entries from `i` on, up to the first that is not there.
  unfoldable pub list_from : (fuel : ℕ) → I → (i : ℕ) → S → Option (S × Outcome FsError (List Name))
  list_from zero self i s = none
  list_from (suc fuel) self i s =
      let (s', o) = calls.get_entry self i s in
      elim o [
        | ok name ↦ elim (list_from fuel self (i + 1) s') [
          | none ↦ none
          | some (t, names) ↦ some (t, map_ok (λ rest. name ∷ rest) names)
        ]
        | err e ↦ some (s', ok [])
        | panic ↦ some (s', panic)
        | hang ↦ some (s', hang)
      ]

  unfoldable pub list : (fuel : ℕ) → I → S → Option (S × Outcome FsError (List Name))
  unfolding list_from
  list fuel self s =
      let (s', o) = (do info ← calls.metadata self; require_dir info.type_) s in
      elim o [
        | ok x ↦ list_from fuel self 0 s'
        | err e ↦ some (s', err e)
        | panic ↦ some (s', panic)
        | hang ↦ some (s', hang)
      ]

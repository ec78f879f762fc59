-- ===== src/Ramfs/Links/Run.antt =====
-- Any sequence of calls to a file system of rcore-fs-ramfs/src/lib.rs.
use mathlib.Core.Path.{subst}
use rcore_fs.Base.{
  ℕ, zero, suc, ◌+◌, ◌<◌, ◌==◌, ◌≡◌, ◌≢◌, refl, sym, ◌⊎◌, inl, inr, List, [], ◌∷◌, arith, Option,
  some, get_elem?, set, Option-cases, Bool-cases,
}
use rcore_fs.Base.Names.{Name}
use rcore_fs.Vfs.{FileType, Metadata, is_dir_type, is_file_type}
use rcore_fs.Ramfs.State.{Ram, RamFsInode, new}
use rcore_fs.Ramfs.File.{written, resize_vec, merged, write_at, set_metadata, resize}
use rcore_fs.Ramfs.Dir.{create2, link, unlink, move_}
use rcore_fs.Ramfs.Links.Count.{one_if, count, refs, Unique}
use rcore_fs.Base.Outcome.{panic}
use rcore_fs.Ramfs.Links.Invariant.{IsLinked}
use rcore_fs.Ramfs.Links.Steps.{link-IsLinked}
use rcore_fs.Ramfs.Links.Moves.{unlink-IsLinked, unlink-ne-panic, move_-IsLinked}
use rcore_fs.Ramfs.Links.Fresh.{same-IsLinked, create2-IsLinked}

-- The calls that change something, and the moment when the last holder of an inode lets go of it.
pub data Call : Type 0 where
  create_call : (a : ℕ) → Name → FileType → (mode data_ : ℕ) → Call
  link_call : (a : ℕ) → Name → Option ℕ → Call
  unlink_call : (a : ℕ) → Name → Call
  move_call : (a : ℕ) → Name → (target : ℕ) → Name → Call
  write_call : (a offset : ℕ) → List ℕ → Call
  resize_call : (a len : ℕ) → Call
  metadata_call : (a : ℕ) → Metadata → Call
  dropped_call : (a : ℕ) → Call

-- A call that fails or panics leaves what it has done.
unfoldable pub step : Ram → Call → Ram
step s (create_call a name type_ mode data_) = (create2 a name type_ mode data_ s).0
step s (link_call a name other) = (link a name other s).0
step s (unlink_call a name) = (unlink a name s).0
step s (move_call a old_name target new_name) = (move_ a old_name target new_name s).0
step s (write_call a offset buf) = (write_at a offset buf s).0
step s (resize_call a len) = (resize a len s).0
step s (metadata_call a m) = (set_metadata a m s).0
step s (dropped_call a) = record s { dropped = a ∷ s.dropped }

unfoldable pub run : Ram → List Call → Ram
unfolding step
run s [] = s
run s (c ∷ cs) = run (step s c) cs

-- What a method on one inode does: nothing, or it replaces the inode by one with the same entries.
abbrev OneInode : Ram → ℕ → Ram → Type 0
OneInode s a t =
    (t.nodes ≡ s.nodes)
    ⊎ ((f f' : RamFsInode) × (get_elem? s.nodes a ≡ some f)
        × (t.nodes ≡ set s.nodes a f')
        × (f'.this ≡ f.this)
        × (f'.children ≡ f.children)
        × (f'.extra.nlinks ≡ f.extra.nlinks))

OneInode-IsLinked :
    (s : Ram) (a : ℕ) (t : Ram) → OneInode s a t → IsLinked s.nodes → IsLinked t.nodes
OneInode-IsLinked s a t (inl same) l = subst IsLinked (sym same) l
OneInode-IsLinked s a t (inr (f, f', at_a, e, this, kids, links)) l =
    subst IsLinked (sym e) (same-IsLinked s.nodes a f f' l at_a this kids links)

write_at-OneInode :
    (s : Ram) (a offset : ℕ) (buf : List ℕ) → OneInode s a (write_at a offset buf s).0
unfolding write_at
write_at-OneInode s a offset buf = elim (Option-cases (get_elem? s.nodes a)) [
  | inl gone ↦ inl (ground (arith, gone))
  | inr (f, at_a) ↦ elim (Bool-cases (is_dir_type f.extra.type_)) [
    | inl is_dir ↦ inl (ground (arith, at_a))
    | inr plain ↦ inr (
      f,
      record f { content = written f.content offset buf },
      at_a,
      ground (arith, at_a),
      refl,
      refl,
      refl,
    )
  ]
]

resize-OneInode : (s : Ram) (a len : ℕ) → OneInode s a (resize a len s).0
unfolding resize
resize-OneInode s a len = elim (Option-cases (get_elem? s.nodes a)) [
  | inl gone ↦ inl (ground (arith, gone))
  | inr (f, at_a) ↦ elim (Bool-cases (is_file_type f.extra.type_)) [
    | inr other ↦ inl (ground (arith, at_a))
    | inl is_file ↦ inr (
      f,
      record f { content = resize_vec f.content len },
      at_a,
      ground (arith, at_a),
      refl,
      refl,
      refl,
    )
  ]
]

set_metadata-OneInode : (s : Ram) (a : ℕ) (m : Metadata) → OneInode s a (set_metadata a m s).0
unfolding set_metadata
set_metadata-OneInode s a m = elim (Option-cases (get_elem? s.nodes a)) [
  | inl gone ↦ inl (ground (arith, gone))
  | inr (f, at_a) ↦
      inr (f, record f { extra = merged f.extra m }, at_a, ground (arith, at_a), refl, refl, refl)
]

step-IsLinked : (s : Ram) (c : Call) → IsLinked s.nodes → IsLinked (step s c).nodes
unfolding step
step-IsLinked s (create_call a name type_ mode data_) l =
    create2-IsLinked s a name type_ mode data_ l
step-IsLinked s (link_call a name other) l = link-IsLinked s a name other l
step-IsLinked s (unlink_call a name) l = unlink-IsLinked s a name l
step-IsLinked s (move_call a old_name target new_name) l =
    move_-IsLinked s a old_name target new_name l
step-IsLinked s (write_call a offset buf) l =
    OneInode-IsLinked s a (write_at a offset buf s).0 (write_at-OneInode s a offset buf) l
step-IsLinked s (resize_call a len) l =
    OneInode-IsLinked s a (resize a len s).0 (resize-OneInode s a len) l
step-IsLinked s (metadata_call a m) l =
    OneInode-IsLinked s a (set_metadata a m s).0 (set_metadata-OneInode s a m) l
step-IsLinked s (dropped_call a) l = l

only_root :
    (root : RamFsInode) (P : ℕ → RamFsInode → Type 0)
    → P 0 root
    → (a : ℕ) (n : RamFsInode) → get_elem? (root ∷ []) a ≡ some n
    → P a n
only_root root P h zero n e = let same : root ≡ n = cc in subst (P 0) same h
only_root root P h (suc a) n e = absurd (cc e)

new-IsLinked : (next_id root_ptr : ℕ) → IsLinked (new next_id root_ptr).nodes
unfolding new
new-IsLinked next_id root_ptr = record {
  own = only_root _ (λ a n. n.this ≡ some a) refl;
  inside = λ a n c e pos.
      only_root _ (λ a n. 0 < count c n.children → c < 1) (λ h. absurd (omega arith)) a n e pos;
  unique = only_root _ (λ a n. Unique n.children) tt;
  counted =
      only_root _ (λ a n. n.extra.nlinks ≡ refs a (new next_id root_ptr).nodes + one_if (a == 0))
        (omega arith);
}

run_keeps : (s : Ram) (calls : List Call) → IsLinked s.nodes → IsLinked (run s calls).nodes
unfolding run
run_keeps s [] l = l
run_keeps s (c ∷ cs) l = run_keeps (step s c) cs (step-IsLinked s c l)

-- Whatever calls are made to a new file system, and however they end: every inode counts as many
-- links as directory entries lead to it (the root one more), every entry leads to an inode, no
-- directory has a name twice, and `unlink` on an inode that is there does not panic.
pub run-IsLinked :
    (next_id root_ptr : ℕ) (calls : List Call)
    → let s = run (new next_id root_ptr) calls in
      IsLinked s.nodes
      × ((a : ℕ) (name : Name) (f : RamFsInode)
          → get_elem? s.nodes a ≡ some f
          → (unlink a name s).1 ≢ panic)
run-IsLinked next_id root_ptr calls =
    let l = run_keeps (new next_id root_ptr) calls (new-IsLinked next_id root_ptr) in
    (l, λ a name f e. unlink-ne-panic (run (new next_id root_ptr) calls) a name l e)

-- ===== src/Ramfs/Links/Moves.antt =====
-- `unlink` and `move_` of rcore-fs-ramfs/src/lib.rs keep the link counts.
use mathlib.Core.Path.{subst}
use rcore_fs.Base.{
  ℕ, zero, suc, ◌-◌, ◌<◌, ◌≡◌, ◌≢◌, sym, ◌⊎◌, inl, inr, true, false, ◌||◌, List, [], ◌∷◌, arith,
  ltb, ◌==◌, ==_iff, some, none, length, get_elem?, Option-cases, Bool-cases,
}
use rcore_fs.Base.Names.{Name, name_eq, lookup, remove}
use rcore_fs.Base.Outcome.{Outcome, ok, err, panic, hang}
use rcore_fs.Vfs.{FsError, is_dir_type}
use rcore_fs.Ramfs.State.{Ram, RamFsInode, put_node}
use rcore_fs.Ramfs.Dir.{dot, dot_dot, link, unlink, find, recover, move_}
use rcore_fs.Ramfs.Links.Count.{count_pos-lookup, count-le-refs}
use rcore_fs.Ramfs.Links.Invariant.{IsLinked}
use rcore_fs.Ramfs.Links.Steps.{unlinked-IsLinked, link-IsLinked, and_then-keeps}

-- The entry that a call of `unlink` removes, where it removes one.
abbrev Removed : Ram → (a b : ℕ) → Name → RamFsInode → RamFsInode → Type 0
Removed s a b name f o =
    (get_elem? s.nodes a ≡ some f)
    × (get_elem? s.nodes b ≡ some o)
    × (a ≢ b)
    × (lookup name f.children ≡ some b)

not_gone : (nodes : List RamFsInode) (b : ℕ) → b < length nodes → get_elem? nodes b ≢ none
not_gone [] b h = absurd (omega arith)
not_gone (x ∷ nodes) zero h = λ e. cc e
not_gone (x ∷ nodes) (suc b) h = not_gone nodes b (omega arith)

-- `unlink` removes an entry, or changes nothing and panics only where an address is dangling or a
-- count is 0.
module _ (s : Ram) (a : ℕ) (name : Name) where
  abbrev Dangling : Type 0
  Dangling =
      (get_elem? s.nodes a ≡ none)
      ⊎ ((f : RamFsInode) × (b : ℕ) × (get_elem? s.nodes a ≡ some f)
          × (lookup name f.children ≡ some b)
          × ((get_elem? s.nodes b ≡ none)
              ⊎ ((o : RamFsInode) × (get_elem? s.nodes b ≡ some o) × (o.extra.nlinks ≡ 0))))

  abbrev Outcomes : Type 0
  Outcomes =
      ((f o : RamFsInode) × (b : ℕ) × Removed s a b name f o
        × (unlink a name s ≡ (
          put_node
              (put_node s b (record o { extra = record (o.extra) { nlinks = o.extra.nlinks - 1 } }))
              a (record f { children = remove name f.children }),
          ok tt,
        )))
      ⊎ (((unlink a name s).0 ≡ s) × (((unlink a name s).1 ≢ panic) ⊎ Dangling))

  -- The part behind the lookup of the name.
  unlink_entry :
      (f : RamFsInode) (b : ℕ)
      → get_elem? s.nodes a ≡ some f
      → is_dir_type f.extra.type_ ≡ true
      → (name_eq name dot || name_eq name dot_dot) ≡ false
      → lookup name f.children ≡ some b
      → Outcomes
  unfolding unlink
  unlink_entry f b at_a is_dir proper entry = elim (Bool-cases (b == a)) [
    | inl self ↦ inr (ground (arith, at_a, entry, self), inl (ground (arith, at_a, entry, self)))
    | inr other ↦ elim (Option-cases (get_elem? s.nodes b)) [
      | inl gone ↦
          inr (ground (arith, at_a, entry, other, gone), inr (inr (f, b, at_a, entry, inl gone)))
      | inr (o, at_b) ↦ elim (Bool-cases (ltb 0 (length o.children))) [
        | inl full ↦ inr (
          ground (arith, at_a, entry, other, at_b, full),
          inl (ground (arith, at_a, entry, other, at_b, full)),
        )
        | inr empty ↦ elim (Bool-cases (o.extra.nlinks == 0)) [
          | inl uncounted ↦ inr (
            ground (arith, at_a, entry, other, at_b, empty, uncounted),
            inr (inr (f, b, at_a, entry, inr (o, at_b, (==_iff o.extra.nlinks 0).0 uncounted))),
          )
          | inr counted ↦ inl (
            f,
            o,
            b,
            (at_a, at_b, ground (arith, other), entry),
            ground (arith, at_a, entry, other, at_b, empty, counted),
          )
        ]
      ]
    ]
  ]

  unlink-cases : Outcomes
  unfolding unlink
  unlink-cases = elim (Option-cases (get_elem? s.nodes a)) [
    | inl gone ↦ inr (ground (arith, gone), inr (inl gone))
    | inr (f, at_a) ↦ elim (Bool-cases (is_dir_type f.extra.type_)) [
      | inr plain ↦ inr (ground (arith, at_a), inl (ground (arith, at_a)))
      | inl is_dir ↦ elim (Bool-cases (name_eq name dot || name_eq name dot_dot)) [
        | inl special ↦ inr (ground (arith, at_a), inl (ground (arith, at_a)))
        | inr proper ↦ elim (Option-cases (lookup name f.children)) [
          | inl missing ↦ inr (ground (arith, at_a, missing), inl (ground (arith, at_a, missing)))
          | inr (b, entry) ↦ unlink_entry f b at_a is_dir proper entry
        ]
      ]
    ]
  ]

pub unlink-IsLinked :
    (s : Ram) (a : ℕ) (name : Name) → IsLinked s.nodes → IsLinked (unlink a name s).0.nodes
unlink-IsLinked s a name l = elim (unlink-cases s a name) [
  | inr (same, _) ↦ subst (λ t. IsLinked (Ram.nodes t)) (sym same) l
  | inl (f, o, b, (at_a, at_b, apart, entry), e) ↦
      rw e (unlinked-IsLinked s.nodes a b name f o l at_a at_b apart entry)
]

-- Where the links are counted, `unlink` on an inode that is there never panics: the inode behind the
-- entry is there, and its count does not fall below 0.
pub unlink-ne-panic :
    (s : Ram) (a : ℕ) (name : Name) {f : RamFsInode}
    → IsLinked s.nodes
    → get_elem? s.nodes a ≡ some f
    → (unlink a name s).1 ≢ panic
unlink-ne-panic s a name {f} l at_a = elim (unlink-cases s a name) [
  | inl (_, _, _, _, e) ↦ rw e (λ h. cc h)
  | inr (_, inl fine) ↦ fine
  | inr (_, inr bad) ↦ absurd (impossible bad)
]
  where
    impossible : ¬ Dangling s a name
    impossible (inl gone) = cc (gone, at_a)
    impossible (inr (f', b, at_f, entry, inl gone)) =
        let room : b < length s.nodes =
          l.inside a f' b at_f (count_pos-lookup b name f'.children entry) in
        not_gone s.nodes b room gone
    impossible (inr (f', b, at_f, entry, inr (o, at_b, uncounted))) = omega (
      arith,
      l.counted b o at_b,
      count-le-refs b a s.nodes f' at_f,
      count_pos-lookup b name f'.children entry,
    )

find_keeps : (s : Ram) (a : ℕ) (name : Name) → (find a name s).0 ≡ s
unfolding find
find_keeps s a name = ground arith

-- `move_` keeps the link counts, whichever of its steps fails.
pub move_-IsLinked :
    (s : Ram) (a : ℕ) (old_name : Name) (target : ℕ) (new_name : Name)
    → IsLinked s.nodes
    → IsLinked (move_ a old_name target new_name s).0.nodes
unfolding move_
move_-IsLinked s a old_name target new_name l =
    and_then-keeps P (find a old_name s) _ (rw (find_keeps s a old_name) l) λ elem t h.
      and_then-keeps P (link target new_name (some elem) t) _
        (link-IsLinked t target new_name (some elem) h)
        λ _ u k. finish (unlink a old_name u) (unlink-IsLinked u a old_name k)
  where
    P : Ram → Type 0
    P t = IsLinked t.nodes

    finish : (m : Ram × Outcome FsError (Unit {0})) → P m.0 → P (recover target new_name m).0
    finish (t, ok x) h = h
    finish (t, panic) h = h
    finish (t, hang) h = h
    finish (t, err e) h =
        and_then-keeps P (unlink target new_name t) _ (unlink-IsLinked t target new_name h)
          (λ _ v k. k)

-- ===== src/Ramfs/Links/Steps.antt =====
-- `create2`, `link`, `unlink` and `move_` of rcore-fs-ramfs/src/lib.rs keep the link counts.
use mathlib.Core.Path.{subst}
use rcore_fs.Base.{
  ℕ, ◌+◌, ◌-◌, ◌<◌, ◌≡◌, ◌≢◌, refl, sym, ◌⊎◌, inl, inr, List, arith, ltb, ◌==◌, ==_iff, Option,
  some, none, length, get_elem?, lt_of_get_elem?, set, Option-cases, Bool-cases,
}
use rcore_fs.Base.Names.{Name, lookup, insert, remove}
use rcore_fs.Base.Outcome.{Outcome, ok, err, panic, hang, and_then}
use rcore_fs.Vfs.{FsError, is_dir_type}
use rcore_fs.Ramfs.State.{Ram, RamFsInode, put_node, upgrade}
use rcore_fs.Ramfs.Dir.{lock_multiple, link_locked, link}
use rcore_fs.Ramfs.Links.Count.{
  count, Unique, count-insert, Unique-insert, count-remove, Unique-remove, count_pos-lookup,
  count-le-refs,
}
use rcore_fs.Ramfs.Links.Invariant.{IsLinked, Changed-set, Changed-set_rev, Changed-IsLinked}

upgrade_own : (s : Ram) (w : Option ℕ) (c : ℕ) → upgrade s w ≡ some c → w ≡ some c
upgrade_own s none c h = absurd (cc h)
upgrade_own s (some b) c h = ground arith

-- What each operation does to the inodes: nothing, or one of the changes of `Invariant`.
module _ (s : Ram) (a : ℕ) (name : Name) where
  abbrev Linked : ℕ → RamFsInode → RamFsInode → Type 0
  Linked b f o =
      (get_elem? s.nodes a ≡ some f)
      × (get_elem? s.nodes b ≡ some o)
      × (lookup name f.children ≡ none)

  link_locked-cases :
      (b : ℕ)
      → a ≢ b
      → ((link_locked a b name s).0 ≡ s)
        ⊎ ((f o : RamFsInode) × (c : ℕ) × Linked b f o
            × (o.this ≡ some c)
            × ((link_locked a b name s).0
                ≡ put_node
                    (put_node s a (record f { children = insert name c f.children }))
                    b
                    (record o { extra = record (o.extra) { nlinks = o.extra.nlinks + 1 } })))
  unfolding link_locked
  link_locked-cases b apart = elim (Option-cases (get_elem? s.nodes a)) [
    | inl gone ↦ inl (ground (arith, gone))
    | inr (f, at_a) ↦ elim (Option-cases (get_elem? s.nodes b)) [
      | inl gone ↦ inl (ground (arith, at_a, gone))
      | inr (o, at_b) ↦ elim (Bool-cases (is_dir_type f.extra.type_)) [
        | inr plain ↦ inl (ground (arith, at_a, at_b))
        | inl is_dir ↦ elim (Bool-cases (is_dir_type o.extra.type_)) [
          | inl other_dir ↦ inl (ground (arith, at_a, at_b))
          | inr other_plain ↦ elim (Option-cases (lookup name f.children)) [
            | inr (c, taken) ↦ inl (ground (arith, at_a, at_b, taken))
            | inl free ↦ elim (Option-cases (upgrade s o.this)) [
              | inl dead ↦ inl (ground (arith, at_a, at_b, free, dead))
              | inr (c, alive) ↦ inr (
                f,
                o,
                c,
                (at_a, at_b, free),
                upgrade_own s o.this c alive,
                ground (arith, at_a, at_b, free, alive),
              )
            ]
          ]
        ]
      ]
    ]
  ]

-- The entry that a link adds, and the count that it adds to the file.
module _ (nodes : List RamFsInode) (a b : ℕ) (name : Name) (f o : RamFsInode) (l : IsLinked nodes)
    (at_a : get_elem? nodes a ≡ some f) (at_b : get_elem? nodes b ≡ some o) (apart : a ≢ b) where
  abbrev with_entry : RamFsInode
  with_entry = record f { children = insert name b f.children }

  abbrev one_more : RamFsInode
  one_more = record o { extra = record (o.extra) { nlinks = o.extra.nlinks + 1 } }

  added-IsLinked :
      lookup name f.children ≡ none → IsLinked (set (set nodes a with_entry) b one_more)
  added-IsLinked free =
      Changed-IsLinked (Changed-set with_entry one_more at_a at_b apart refl) l (refl, refl, refl)
        (Unique-insert name b f.children free (l.unique a f at_a)) inside
        (λ c ne. ground (arith, count-insert c b name f.children free)) apart refl
        (ground (arith, count-insert b b name f.children free))
    where
      inside : (c : ℕ) → 0 < count c (insert name b f.children) → c < length nodes
      inside c pos = elim (Bool-cases (b == c)) [
        | inl same ↦
            subst (λ k. k < length nodes) ((==_iff b c).0 same) (lt_of_get_elem? nodes b at_b)
        | inr other ↦
            l.inside a f c at_a (ground (arith, count-insert c b name f.children free, other))
      ]

  abbrev pub without_entry : RamFsInode
  without_entry = record f { children = remove name f.children }

  abbrev pub one_less : RamFsInode
  one_less = record o { extra = record (o.extra) { nlinks = o.extra.nlinks - 1 } }

  pub unlinked-IsLinked :
      lookup name f.children ≡ some b → IsLinked (set (set nodes b one_less) a without_entry)
  unlinked-IsLinked entry =
      Changed-IsLinked (Changed-set_rev without_entry one_less at_a at_b apart refl) l
        (refl, refl, refl) (Unique-remove name f.children uniq)
        (λ c pos. l.inside a f c at_a (omega (arith, count-remove c b name f.children entry uniq)))
        (λ c ne. ground (arith, count-remove c b name f.children entry uniq)) apart refl
        (ground (arith, count-remove b b name f.children entry uniq, linked))
    where
      uniq : Unique f.children
      uniq = l.unique a f at_a

      linked : 0 < o.extra.nlinks
      linked = omega (
        arith,
        l.counted b o at_b,
        count-le-refs b a nodes f at_a,
        count_pos-lookup b name f.children entry,
      )

link_locked-IsLinked :
    (s : Ram) (a b : ℕ) (name : Name)
    → a ≢ b
    → IsLinked s.nodes
    → IsLinked (link_locked a b name s).0.nodes
link_locked-IsLinked s a b name apart l = elim (link_locked-cases s a name b apart) [
  | inl same ↦ subst (λ t. IsLinked (Ram.nodes t)) (sym same) l
  | inr (f, o, c, (at_a, at_b, free), this_o, e) ↦
      let is_b : b ≡ c = ground (arith, l.own b o at_b, this_o) in
      subst (λ t. IsLinked (Ram.nodes t)) (sym e)
        (subst
          (λ k. IsLinked (
            set (set s.nodes a (record f { children = insert name k f.children })) b
              (one_more s.nodes a b name f o l at_a at_b apart)))
          is_b (added-IsLinked s.nodes a b name f o l at_a at_b apart free))
]

-- What a sequence of two calls keeps, if each of them does.
pub and_then-keeps :
    {A B : Type 0} (P : Ram → Type 0) (m : Ram × Outcome FsError A)
    (k : A → Ram → Ram × Outcome FsError B)
    → P m.0
    → ((x : A) (t : Ram) → P t → P (k x t).0)
    → P (and_then m k).0
and_then-keeps P (t, ok x) k h next = next x t h
and_then-keeps P (t, err e) k h next = h
and_then-keeps P (t, panic) k h next = h
and_then-keeps P (t, hang) k h next = h

-- The two locked inodes are different, and nothing has changed.
lock_multiple-cases :
    (s : Ram) (a b : ℕ)
    → ((x y : ℕ) × (x ≢ y) × (lock_multiple a b s ≡ (s, ok (x, y))))
      ⊎ ((lock_multiple a b s ≡ (s, panic)) ⊎ (lock_multiple a b s ≡ (s, hang)))
unfolding lock_multiple
lock_multiple-cases s a b = elim (Option-cases (get_elem? s.nodes a)) [
  | inl gone ↦ inr (inl (ground (arith, gone)))
  | inr (na, at_a) ↦ elim (Option-cases (get_elem? s.nodes b)) [
    | inl gone ↦ inr (inl (ground (arith, at_a, gone)))
    | inr (nb, at_b) ↦ elim (Bool-cases (a == b)) [
      | inl same ↦ inr (inr (ground (arith, at_a, at_b)))
      | inr apart ↦ elim (Bool-cases (ltb nb.extra.inode na.extra.inode)) [
        | inl older ↦ inl (b, a, ground arith, ground (arith, at_a, at_b))
        | inr newer ↦ inl (a, b, ground arith, ground (arith, at_a, at_b))
      ]
    ]
  ]
]

pub link-IsLinked :
    (s : Ram) (a : ℕ) (name : Name) (other : Option ℕ)
    → IsLinked s.nodes
    → IsLinked (link a name other s).0.nodes
unfolding link
link-IsLinked s a name none l = l
link-IsLinked s a name (some b) l = elim (lock_multiple-cases s a b) [
  | inl (x, y, apart, e) ↦ rw (link, e) (link_locked-IsLinked s x y name apart l)
  | inr (inl e) ↦ rw (link, e) l
  | inr (inr e) ↦ rw (link, e) l
]

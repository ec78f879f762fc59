-- ===== src/Ramfs/Links/Fresh.antt =====
-- `create2` of rcore-fs-ramfs/src/lib.rs, and the methods on one inode, keep the link counts.
use mathlib.Core.Path.{subst, subst₂}
use native.Mathlib.Decide.{ℕ_discrete}
use rcore_fs.Base.{
  ℕ, zero, suc, ◌+◌, ◌<◌, ◌≡◌, ◌≢◌, refl, ap, ◌∙◌, sym, ◌⊎◌, inl, inr, ◌||◌, List, [], ◌∷◌, ◌++◌,
  arith, ◌==◌, some, none, length, length-set, length-append, get_elem?, get_elem?-set_self,
  get_elem?-set_ne, get_elem?-snoc, lt_of_get_elem?, set, Option-cases, Bool-cases,
}
use rcore_fs.Base.Names.{Name, name_eq, lookup, insert}
use rcore_fs.Vfs.{FileType, is_dir_type}
use rcore_fs.Ramfs.State.{Ram, RamFsInode}
use rcore_fs.Ramfs.Dir.{dot, dot_dot, new_child, add_child, create2}
use rcore_fs.Ramfs.Links.Count.{
  one_if, count, refs, Unique, count-insert, Unique-insert, refs-set, refs-append, refs-zero,
}
use rcore_fs.Ramfs.Links.Invariant.{IsLinked, same_at}

Zero-cases : (n : ℕ) → (n ≡ 0) ⊎ (0 < n)
Zero-cases zero = inl refl
Zero-cases (suc n) = inr (omega arith)

-- One inode is replaced by one with the same entries, address and count.
module _ (nodes : List RamFsInode) (a : ℕ) (f f' : RamFsInode) (l : IsLinked nodes)
    (at_a : get_elem? nodes a ≡ some f) where
  replace_all :
      (P : ℕ → RamFsInode → Type 0)
      → P a f'
      → ((c : ℕ) (n : RamFsInode) → c ≢ a → get_elem? nodes c ≡ some n → P c n)
      → (c : ℕ) (n : RamFsInode) → get_elem? (set nodes a f') c ≡ some n
      → P c n
  replace_all P pa rest c n e = elim (ℕ_discrete c a) [
    | yes is_a ↦
        subst₂ P (sym is_a)
          (sym (
            same_at (set nodes a f') c a n f' is_a
              (get_elem?-set_self nodes a f' (lt_of_get_elem? nodes a at_a)) e))
          pa
    | no not_a ↦ rest c n not_a (sym (get_elem?-set_ne nodes f' (λ x. not_a (sym x))) ∙ e)
  ]

  pub same-IsLinked :
      f'.this ≡ f.this
      → f'.children ≡ f.children
      → f'.extra.nlinks ≡ f.extra.nlinks
      → IsLinked (set nodes a f')
  same-IsLinked this kids links = record {
    own = replace_all (λ c n. n.this ≡ some c) (this ∙ l.own a f at_a) (λ c n _ e. l.own c n e);
    inside = λ c n x e pos.
        subst (λ k. x < k) (sym (length-set nodes a f'))
          (replace_all (λ c n. (x : ℕ) → 0 < count x n.children → x < length nodes)
            (λ x pos. l.inside a f x at_a (omega (arith, ap (count x) kids)))
            (λ c n _ e x pos. l.inside c n x e pos) c n e x pos);
    unique =
        replace_all (λ c n. Unique n.children) (subst Unique (sym kids) (l.unique a f at_a))
          (λ c n _ e. l.unique c n e);
    counted =
        replace_all (λ c n. n.extra.nlinks ≡ refs c (set nodes a f') + one_if (c == 0))
          (omega
            (arith, l.counted a f at_a, refs-set a a nodes f f' at_a, ap (count a) kids, links))
          (λ c n _ e.
            omega (arith, l.counted c n e, refs-set c a nodes f f' at_a, ap (count c) kids));
  }

  -- One inode gets an entry for a new inode behind the others.
  module _ (name : Name) (free : lookup name f.children ≡ none) (child : RamFsInode)
      (entry : f'.children ≡ insert name (length nodes) f.children) (this : f'.this ≡ f.this)
      (links : f'.extra.nlinks ≡ f.extra.nlinks) (child_this : child.this ≡ some (length nodes))
      (childless : child.children ≡ []) (child_links : child.extra.nlinks ≡ 1) where
    abbrev grown : List RamFsInode
    grown = set nodes a f' ++ child ∷ []

    grown_all :
        (P : ℕ → RamFsInode → Type 0)
        → P a f'
        → P (length nodes) child
        → ((c : ℕ) (n : RamFsInode) → c ≢ a → get_elem? nodes c ≡ some n → P c n)
        → (c : ℕ) (n : RamFsInode) → get_elem? grown c ≡ some n
        → P c n
    grown_all P pa pc rest c n e = elim (get_elem?-snoc (set nodes a f') child c n e) [
      | inl old ↦ replace_all P pa rest c n old
      | inr (last, same) ↦ subst₂ P (sym (last ∙ length-set nodes a f')) (sym same) pc
    ]

    entries : (c : ℕ) → count c f'.children ≡ count c f.children + one_if (length nodes == c)
    entries c = ap (count c) entry ∙ count-insert c (length nodes) name f.children free

    refs-grown : (c : ℕ) → refs c grown ≡ refs c nodes + one_if (length nodes == c)
    refs-grown c = omega (
      arith,
      refs-append c (set nodes a f') child,
      ap (count c) childless,
      refs-set c a nodes f f' at_a,
      entries c,
    )

    -- Nothing leads to the address of the new inode yet.
    unreferenced : refs (length nodes) nodes ≡ 0
    unreferenced = refs-zero (length nodes) nodes λ b n e.
        elim (Zero-cases (count (length nodes) n.children)) [
          | inl none_yet ↦ none_yet
          | inr some_entry ↦ absurd (omega (arith, l.inside b n (length nodes) e some_entry))
        ]

    grown_len : length grown ≡ length nodes + 1
    grown_len = omega (arith, length-append (set nodes a f') (child ∷ []), length-set nodes a f')

    counted_old :
        (c k : ℕ)
        → c < length nodes
        → k ≡ refs c nodes + one_if (c == 0)
        → k ≡ refs c grown + one_if (c == 0)
    counted_old c k h e = ground (arith, refs-grown c)

    pub grown-IsLinked : IsLinked grown
    grown-IsLinked = record {
      own =
          grown_all (λ c n. n.this ≡ some c) (this ∙ l.own a f at_a) child_this
            (λ c n _ e. l.own c n e);
      inside = λ c n x e pos.
          subst (λ k. x < k) (sym grown_len)
            (grown_all (λ c n. (x : ℕ) → 0 < count x n.children → x < length nodes + 1)
              (λ x pos. entry_inside x pos)
              (λ x pos. absurd (omega (arith, ap (count x) childless)))
              (λ c n _ e x pos. omega (arith, l.inside c n x e pos)) c n e x pos);
      unique =
          grown_all (λ c n. Unique n.children)
            (subst Unique (sym entry)
              (Unique-insert name (length nodes) f.children free (l.unique a f at_a)))
            (subst Unique (sym childless) tt) (λ c n _ e. l.unique c n e);
      counted =
          grown_all (λ c n. n.extra.nlinks ≡ refs c grown + one_if (c == 0))
            (counted_old a f'.extra.nlinks (lt_of_get_elem? nodes a at_a)
              (links ∙ l.counted a f at_a))
            (ground (arith, refs-grown (length nodes), unreferenced, lt_of_get_elem? nodes a at_a))
            (λ c n _ e. counted_old c n.extra.nlinks (lt_of_get_elem? nodes c e) (l.counted c n e));
    }
      where
        entry_inside : (x : ℕ) → 0 < count x f'.children → x < length nodes + 1
        entry_inside x pos = elim (Bool-cases (length nodes == x)) [
          | inl new ↦ ground arith
          | inr old ↦
              let kept : 0 < count x f.children = ground (arith, entries x, old) in
              omega (arith, l.inside a f x at_a kept)
        ]

create2-cases :
    (s : Ram) (a : ℕ) (name : Name) (type_ : FileType) (mode data_ : ℕ)
    → ((create2 a name type_ mode data_ s).0 ≡ s)
      ⊎ ((f : RamFsInode) × (get_elem? s.nodes a ≡ some f)
          × (lookup name f.children ≡ none)
          × ((create2 a name type_ mode data_ s).0
              ≡ add_child s a f name (new_child s f type_ mode data_)))
unfolding create2
create2-cases s a name type_ mode data_ = elim (Option-cases (get_elem? s.nodes a)) [
  | inl gone ↦ inl (ground (arith, gone))
  | inr (f, at_a) ↦ elim (Bool-cases (is_dir_type f.extra.type_)) [
    | inr plain ↦ inl (ground (arith, at_a))
    | inl is_dir ↦ elim (Bool-cases (name_eq name dot || name_eq name dot_dot)) [
      | inl special ↦ inl (ground (arith, at_a))
      | inr proper ↦ elim (Option-cases (lookup name f.children)) [
        | inr (b, taken) ↦ inl (ground (arith, at_a, taken))
        | inl free ↦ inr (f, at_a, free, ground (arith, at_a, free))
      ]
    ]
  ]
]

pub create2-IsLinked :
    (s : Ram) (a : ℕ) (name : Name) (type_ : FileType) (mode data_ : ℕ)
    → IsLinked s.nodes
    → IsLinked (create2 a name type_ mode data_ s).0.nodes
create2-IsLinked s a name type_ mode data_ l = elim (create2-cases s a name type_ mode data_) [
  | inl same ↦ subst (λ t. IsLinked (Ram.nodes t)) (sym same) l
  | inr (f, at_a, free, e) ↦ rw e (
      grown-IsLinked s.nodes a f (record f { children = insert name (length s.nodes) f.children }) l
        at_a name free (new_child s f type_ mode data_) refl refl refl refl refl refl)
]

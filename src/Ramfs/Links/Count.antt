-- ===== src/Ramfs/Links/Count.antt =====
-- How many directory entries of rcore-fs-ramfs/src/lib.rs lead to an inode.
use rcore_fs.Base.{
  Bool-cases, ℕ, zero, suc, ◌+◌, ◌≤◌, ◌<◌, ◌≡◌, refl, ap, inl, inr, Bool, true, false, List, [],
  ◌∷◌, ◌++◌, arith, ◌==◌, some, none, get_elem?, set,
}
use rcore_fs.Base.Names.{
  Name, name_eq, name_lt, name_eq_iff, lookup, insert, remove, lookup-insert, lookup-remove,
}
use rcore_fs.Ramfs.State.{RamFsInode}

abbrev pub one_if : Bool → ℕ
one_if true = 1
one_if false = 0

abbrev pub count : ℕ → List (Name × ℕ) → ℕ
count c [] = 0
count c ((j, v) ∷ m) = one_if (v == c) + count c m

abbrev pub refs : ℕ → List RamFsInode → ℕ
refs c [] = 0
refs c (n ∷ ns) = count c n.children + refs c ns

-- No name stands twice.
abbrev pub Unique : List (Name × ℕ) → Type 0
Unique [] = Unit
Unique ((j, v) ∷ m) = (lookup j m ≡ none) × Unique m

pub count-insert :
    (c v : ℕ) (k : Name) (m : List (Name × ℕ))
    → lookup k m ≡ none
    → count c (insert k v m) ≡ count c m + one_if (v == c)
unfolding lookup insert
count-insert c v k [] h = omega arith
count-insert c v k ((j, w) ∷ m) h = ground (arith, count-insert c v k m)

pub Unique-insert :
    (k : Name) (v : ℕ) (m : List (Name × ℕ)) → lookup k m ≡ none → Unique m → Unique (insert k v m)
unfolding lookup insert
Unique-insert k v [] h u = (refl, tt)
Unique-insert k v ((j, w) ∷ m) h u = elim (Bool-cases (name_eq j k)) [
  | inl same ↦ absurd (ground (arith, same))
  | inr other ↦
      let rest : lookup k m ≡ none = ground (arith, other) in
      elim (Bool-cases (name_lt k j)) [
        | inl before ↦ rw (other, before) (h, u)
        | inr behind ↦
            rw (other, behind)
              (
                ground (arith, lookup-insert k j v m, name_eq_iff k j, name_eq_iff j k, other),
                Unique-insert k v m rest u.1,
              )
      ]
]

count-remove-none : (c : ℕ) (k : Name) (m : List (Name × ℕ)) → lookup k m ≡ none → remove k m ≡ m
unfolding lookup remove
count-remove-none c k [] h = refl
count-remove-none c k ((j, w) ∷ m) h = ground (arith, count-remove-none c k m)

pub count-remove :
    (c b : ℕ) (k : Name) (m : List (Name × ℕ))
    → lookup k m ≡ some b
    → Unique m
    → count c (remove k m) + one_if (b == c) ≡ count c m
unfolding lookup remove
count-remove c b k [] h u = absurd (cc h)
count-remove c b k ((j, w) ∷ m) h u =
    ground (arith, count-remove c b k m, name_eq_iff j k, count-remove-none c k m)

pub Unique-remove : (k : Name) (m : List (Name × ℕ)) → Unique m → Unique (remove k m)
unfolding remove
Unique-remove k [] u = tt
Unique-remove k ((j, w) ∷ m) u = elim (Bool-cases (name_eq j k)) [
  | inl same ↦ rw same (Unique-remove k m u.1)
  | inr other ↦ rw other (ground (arith, lookup-remove k j m), Unique-remove k m u.1)
]

pub refs-set :
    (c a : ℕ) (nodes : List RamFsInode) (n n' : RamFsInode)
    → get_elem? nodes a ≡ some n
    → refs c (set nodes a n') + count c n.children ≡ refs c nodes + count c n'.children
refs-set c a [] n n' h = absurd (cc h)
refs-set c zero (x ∷ nodes) n n' h =
    let e : x ≡ n = cc in omega (arith, ap (λ y. count c (RamFsInode.children y)) e)
refs-set c (suc a) (x ∷ nodes) n n' h = omega (arith, refs-set c a nodes n n' h)

pub refs-append :
    (c : ℕ) (nodes : List RamFsInode) (n : RamFsInode)
    → refs c (nodes ++ n ∷ []) ≡ refs c nodes + count c n.children
refs-append c [] n = omega arith
refs-append c (x ∷ nodes) n = omega (arith, refs-append c nodes n)

pub refs-zero :
    (c : ℕ) (nodes : List RamFsInode)
    → ((a : ℕ) (n : RamFsInode) → get_elem? nodes a ≡ some n → count c n.children ≡ 0)
    → refs c nodes ≡ 0
refs-zero c [] h = refl
refs-zero c (x ∷ nodes) h = omega (arith, h 0 x refl, refs-zero c nodes (λ a n e. h (suc a) n e))

-- An entry shows that something leads to the inode.
pub count_pos-lookup :
    (b : ℕ) (k : Name) (m : List (Name × ℕ)) → lookup k m ≡ some b → 0 < count b m
unfolding lookup
count_pos-lookup b k [] h = absurd (cc h)
count_pos-lookup b k ((j, w) ∷ m) h = ground (arith, count_pos-lookup b k m)

pub count-le-refs :
    (c a : ℕ) (nodes : List RamFsInode) (n : RamFsInode)
    → get_elem? nodes a ≡ some n
    → count c n.children ≤ refs c nodes
count-le-refs c a [] n h = absurd (cc h)
count-le-refs c zero (x ∷ nodes) n h =
    let e : x ≡ n = cc in omega (arith, ap (λ y. count c (RamFsInode.children y)) e)
count-le-refs c (suc a) (x ∷ nodes) n h = omega (arith, count-le-refs c a nodes n h)

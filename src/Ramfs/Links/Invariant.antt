-- ===== src/Ramfs/Links/Invariant.antt =====
-- The link counts of rcore-fs-ramfs/src/lib.rs are those of the entries: the invariant, and changes
-- of the inodes that keep it.
use mathlib.Core.Path.{subst, subst₂}
use native.Mathlib.Decide.{ℕ_discrete}
use rcore_fs.Base.{
  ℕ, ◌+◌, ◌<◌, ◌≡◌, ◌≢◌, ap, ◌∙◌, sym, List, arith, ◌==◌, some, length, length-set, get_elem?,
  get_elem?-set_self, get_elem?-set_ne, lt_of_get_elem?, set,
}
use rcore_fs.Ramfs.State.{RamFsInode}
use rcore_fs.Ramfs.Links.Count.{one_if, count, refs, Unique, refs-set}

-- Every inode knows its own address and counts the entries that lead to it, the root one more. Every
-- entry leads to an inode, and no directory has a name twice.
pub record IsLinked (nodes : List RamFsInode) : Type 0 where
  pub own : (a : ℕ) (n : RamFsInode) → get_elem? nodes a ≡ some n → n.this ≡ some a
  pub inside :
      (a : ℕ) (n : RamFsInode) (c : ℕ)
      → get_elem? nodes a ≡ some n
      → 0 < count c n.children
      → c < length nodes
  pub unique : (a : ℕ) (n : RamFsInode) → get_elem? nodes a ≡ some n → Unique n.children
  pub counted :
      (a : ℕ) (n : RamFsInode)
      → get_elem? nodes a ≡ some n
      → n.extra.nlinks ≡ refs a nodes + one_if (a == 0)

-- `f` at `a` and `o` at `b` are replaced; only `f` gets other entries.
pub record Changed (nodes nodes' : List RamFsInode) (a b : ℕ) (f f' o o' : RamFsInode)
    : Type 0 where
  pub at_a : get_elem? nodes a ≡ some f
  pub at_b : get_elem? nodes b ≡ some o
  pub len : length nodes' ≡ length nodes
  pub new_a : get_elem? nodes' a ≡ some f'
  pub new_b : get_elem? nodes' b ≡ some o'
  pub others : (c : ℕ) → c ≢ a → c ≢ b → get_elem? nodes' c ≡ get_elem? nodes c
  pub total : (c : ℕ) → refs c nodes' + count c f.children ≡ refs c nodes + count c f'.children

module _ {nodes : List RamFsInode} {a b : ℕ} {f o : RamFsInode} (f' o' : RamFsInode)
    (at_a : get_elem? nodes a ≡ some f) (at_b : get_elem? nodes b ≡ some o) (apart : a ≢ b)
    (same : o'.children ≡ o.children) where
  pub Changed-set : Changed nodes (set (set nodes a f') b o') a b f f' o o'
  Changed-set =
      let still_b : get_elem? (set nodes a f') b ≡ some o =
        get_elem?-set_ne nodes f' apart ∙ at_b in
      record {
        at_a = at_a;
        at_b = at_b;
        len = length-set (set nodes a f') b o' ∙ length-set nodes a f';
        new_a =
            get_elem?-set_ne (set nodes a f') o' (λ e. apart (sym e))
            ∙ get_elem?-set_self nodes a f' (lt_of_get_elem? nodes a at_a);
        new_b =
            get_elem?-set_self (set nodes a f') b o' (lt_of_get_elem? (set nodes a f') b still_b);
        others = λ c ne ne'.
            get_elem?-set_ne (set nodes a f') o' (λ e. ne' (sym e))
            ∙ get_elem?-set_ne nodes f' (λ e. ne (sym e));
        total = λ c. omega (
          arith,
          refs-set c a nodes f f' at_a,
          refs-set c b (set nodes a f') o o' still_b,
          ap (count c) same,
        );
      }

  pub Changed-set_rev : Changed nodes (set (set nodes b o') a f') a b f f' o o'
  Changed-set_rev =
      let still_a : get_elem? (set nodes b o') a ≡ some f =
        get_elem?-set_ne nodes o' (λ e. apart (sym e)) ∙ at_a in
      record {
        at_a = at_a;
        at_b = at_b;
        len = length-set (set nodes b o') a f' ∙ length-set nodes b o';
        new_b =
            get_elem?-set_ne (set nodes b o') f' apart
            ∙ get_elem?-set_self nodes b o' (lt_of_get_elem? nodes b at_b);
        new_a =
            get_elem?-set_self (set nodes b o') a f' (lt_of_get_elem? (set nodes b o') a still_a);
        others = λ c ne ne'.
            get_elem?-set_ne (set nodes b o') f' (λ e. ne (sym e))
            ∙ get_elem?-set_ne nodes o' (λ e. ne' (sym e));
        total = λ c. omega (
          arith,
          refs-set c b nodes o o' at_b,
          refs-set c a (set nodes b o') f f' still_a,
          ap (count c) same,
        );
      }

pub same_at :
    (nodes : List RamFsInode) (c a : ℕ) (n f : RamFsInode)
    → c ≡ a
    → get_elem? nodes a ≡ some f
    → get_elem? nodes c ≡ some n
    → n ≡ f
same_at nodes c a n f e h k = cc (ap (get_elem? nodes) e, h, k)

-- What holds of the new inodes and of every other one holds of all.
Changed-all :
    {nodes nodes' : List RamFsInode} {a b : ℕ} {f f' o o' : RamFsInode}
    → Changed nodes nodes' a b f f' o o'
    → (P : ℕ → RamFsInode → Type 0) → P a f'
    → P b o'
    → ((c : ℕ) (n : RamFsInode) → c ≢ a → c ≢ b → get_elem? nodes c ≡ some n → P c n)
    → (c : ℕ) (n : RamFsInode) → get_elem? nodes' c ≡ some n
    → P c n
Changed-all {nodes' = nodes'} {a} {b} {f' = f'} {o' = o'} ch P pa pb rest c n e =
    elim (ℕ_discrete c a) [
      | yes is_a ↦ subst₂ P (sym is_a) (sym (same_at nodes' c a n f' is_a ch.new_a e)) pa
      | no not_a ↦ elim (ℕ_discrete c b) [
        | yes is_b ↦ subst₂ P (sym is_b) (sym (same_at nodes' c b n o' is_b ch.new_b e)) pb
        | no not_b ↦ rest c n not_a not_b (sym (ch.others c not_a not_b) ∙ e)
      ]
    ]

-- A change that moves the count of `b` with the entries that lead to it keeps the invariant.
pub Changed-IsLinked :
    {nodes nodes' : List RamFsInode} {a b : ℕ} {f f' o o' : RamFsInode}
    → Changed nodes nodes' a b f f' o o'
    → IsLinked nodes
    → (f'.this ≡ f.this) × (o'.this ≡ o.this) × (o'.children ≡ o.children)
    → Unique f'.children
    → ((c : ℕ) → 0 < count c f'.children → c < length nodes)
    → ((c : ℕ) → c ≢ b → count c f'.children ≡ count c f.children)
    → a ≢ b
    → f'.extra.nlinks ≡ f.extra.nlinks
    → o'.extra.nlinks + count b f.children ≡ o.extra.nlinks + count b f'.children
    → IsLinked nodes'
Changed-IsLinked {nodes} {nodes'} {a} {b} {f} {f'} {o} {o'} ch l (this_f, this_o, kids) uniq into
      steady apart links_f links_o =
    record {
      own =
          Changed-all ch (λ c n. n.this ≡ some c) (this_f ∙ l.own a f ch.at_a)
            (this_o ∙ l.own b o ch.at_b) (λ c n _ _ e. l.own c n e);
      inside = λ c n x e pos.
          subst (λ k. x < k) (sym ch.len)
            (Changed-all ch (λ c n. (x : ℕ) → 0 < count x n.children → x < length nodes) into
              (λ x pos. l.inside b o x ch.at_b (omega (arith, ap (count x) kids, pos)))
              (λ c n _ _ e x pos. l.inside c n x e pos) c n e x pos);
      unique =
          Changed-all ch (λ c n. Unique n.children) uniq
            (subst Unique (sym kids) (l.unique b o ch.at_b)) (λ c n _ _ e. l.unique c n e);
      counted =
          Changed-all ch (λ c n. n.extra.nlinks ≡ refs c nodes' + one_if (c == 0))
            (omega (arith, l.counted a f ch.at_a, ch.total a, steady a apart, links_f))
            (omega (arith, l.counted b o ch.at_b, ch.total b, links_o))
            (λ c n _ not_b e. omega (arith, l.counted c n e, ch.total c, steady c not_b));
    }

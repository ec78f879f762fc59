-- ===== src/Dev/Lru/Bounds.antt =====
-- No index of `LRU` (rcore-fs/src/dev/block_cache.rs) leaves its lists.
use rcore_fs.Base.{
  ℕ, ◌<◌, ◌≡◌, ◌≢◌, ◌∙◌, sym, ap, refl, some, List, arith, leb, ◌==◌, get_elem?, get_elem?-set_self,
  get_elem?-set_ne, set, length, length-set, inl, inr, Bool-cases, ◌||◌,
}
use rcore_fs.Base.Outcome.{ok}
use rcore_fs.Dev.Lru.{Lru, list_remove, list_insert_head, visit, victim, at}

-- A list of `n` numbers below `n`.
pub record IsBelow (n : ℕ) (xs : List ℕ) : Type 0 where
  pub full : length xs ≡ n
  pub entry : (i : ℕ) → i < n → (v : ℕ) × (get_elem? xs i ≡ some v) × (v < n)

pub IsBelow-set :
    (n : ℕ) (xs : List ℕ) (i v : ℕ) → IsBelow n xs → i < n → v < n → IsBelow n (set xs i v)
IsBelow-set n xs i v b inside small = record {
  full = length-set xs i v ∙ b.full;
  entry = λ j h. elim (Bool-cases (i == j)) [
    | inl same ↦
        let e : i ≡ j = ground (arith, same) in
        (
          v,
          ap (λ k. get_elem? (set xs i v) k) (sym e)
              ∙ get_elem?-set_self xs i v (omega (arith, b.full)),
          small,
        )
    | inr other ↦
        let ne : i ≢ j = λ e. ground (arith, other, e) in
        let (w, found, below) = b.entry j h in (w, get_elem?-set_ne xs v ne ∙ found, below)
  ];
}

pub record IsRing (n : ℕ) (l : Lru) : Type 0 where
  pub prevs : IsBelow n l.prev
  pub nexts : IsBelow n l.next

pub at-IsBelow :
    (n : ℕ) (xs : List ℕ) (i : ℕ) → IsBelow n xs → i < n → (v : ℕ) × (at xs i ≡ ok v) × (v < n)
at-IsBelow n xs i b h = let (v, e, small) = b.entry i h in (v, rw e refl, small)

list_remove-IsRing :
    (n id : ℕ) (l : Lru)
    → IsRing n l
    → id < n
    → (l' : Lru) × (list_remove id l ≡ ok l') × IsRing n l'
unfolding list_remove
list_remove-IsRing n id l ring h =
    let (p, at_p, small_p) = at-IsBelow n l.prev id ring.prevs h in
    let (q, at_q, small_q) = at-IsBelow n l.next id ring.nexts h in
    (
      record { prev = set l.prev q p; next = set l.next p q },
      ground (arith, at_p, at_q, ring.prevs.full, ring.nexts.full),
      record {
        prevs = IsBelow-set n l.prev q p ring.prevs small_q small_p;
        nexts = IsBelow-set n l.next p q ring.nexts small_p small_q;
      },
    )

list_insert_head-IsRing :
    (n id : ℕ) (l : Lru)
    → IsRing n l
    → id < n
    → (l' : Lru) × (list_insert_head id l ≡ ok l') × IsRing n l'
unfolding list_insert_head
list_insert_head-IsRing n id l ring h =
    let (head, at_0, small) = at-IsBelow n l.next 0 ring.nexts (omega arith) in
    let prevs = IsBelow-set n l.prev id 0 ring.prevs h (omega arith) in
    let nexts = IsBelow-set n l.next id head ring.nexts h small in
    (
      record { prev = set (set l.prev id 0) head id; next = set (set l.next id head) 0 id },
      ground (arith, at_0, ring.prevs.full, ring.nexts.full, prevs.full, nexts.full),
      record {
        prevs = IsBelow-set n (set l.prev id 0) head id prevs small h;
        nexts = IsBelow-set n (set l.next id head) 0 id nexts (omega arith) h;
      },
    )

-- `visit` of any buffer returns, and all links stay inside the lists.
pub visit-IsRing :
    (n id : ℕ) (l : Lru) → IsRing n l → id < n → (l' : Lru) × (visit id l ≡ ok l') × IsRing n l'
unfolding visit
visit-IsRing n id l ring h = elim (Bool-cases ((id == 0) || leb (length l.prev) id)) [
  | inl skip ↦ (l, rw skip refl, ring)
  | inr moved ↦
      let (l1, e1, ring1) = list_remove-IsRing n id l ring h in
      let (l2, e2, ring2) = list_insert_head-IsRing n id l1 ring1 h in
      (l2, ground (arith, moved, e1, e2), ring2)
]

pub victim-IsRing : (n : ℕ) (l : Lru) → IsRing n l → 0 < n → (v : ℕ) × (victim l ≡ ok v) × (v < n)
unfolding victim
victim-IsRing n l ring h = at-IsBelow n l.prev 0 ring.prevs h

-- ===== src/Dev/Lru/Start.antt =====
-- The links of a new `LRU` (rcore-fs/src/dev/block_cache.rs).
use native.Mathlib.Decide.{dec_lt}
use rcore_fs.Base.{
  ℕ, zero, suc, ◌+◌, ◌<◌, ◌≡◌, refl, ap, ◌∙◌, some, [], ◌∷◌, ◌++◌, arith, get_elem?,
  get_elem?-append_left, get_elem?-append_length, length, length-append,
}
use rcore_fs.Base.Outcome.{ok}
use rcore_fs.Dev.Lru.{Lru, range, new_lru}
use rcore_fs.Dev.Lru.Bounds.{IsBelow, IsRing}

length-range : (a n : ℕ) → length (range a n) ≡ n
unfolding range
length-range a zero = refl
length-range a (suc n) = ap suc (length-range (a + 1) n)

get_elem?-range : (a n i : ℕ) → i < n → get_elem? (range a n) i ≡ some (a + i)
unfolding range
get_elem?-range a zero i h = absurd (omega arith)
get_elem?-range a (suc n) zero h = let e : a ≡ a + 0 = omega arith in ap some e
get_elem?-range a (suc n) (suc i) h =
    let e : a + 1 + i ≡ a + suc i = omega arith in
    get_elem?-range (a + 1) n i (omega arith) ∙ ap some e

prev-IsBelow : (n : ℕ) → IsBelow (suc n) (n ∷ range 0 n)
prev-IsBelow n = record { full = ap suc (length-range 0 n); entry = entry }
  where
    entry : (i : ℕ) → i < suc n → (v : ℕ) × (get_elem? (n ∷ range 0 n) i ≡ some v) × (v < suc n)
    entry zero h = (n, refl, omega arith)
    entry (suc i) h = (0 + i, get_elem?-range 0 n i (omega arith), omega arith)

next-IsBelow : (n : ℕ) → IsBelow (suc n) (range 1 n ++ 0 ∷ [])
next-IsBelow n = record {
  full = omega (arith, length-append (range 1 n) (0 ∷ []), length-range 1 n);
  entry = λ i h. elim (dec_lt i n) [
    | yes p ↦ (
      1 + i,
      get_elem?-append_left (range 1 n) (0 ∷ []) i (omega (arith, length-range 1 n))
          ∙ get_elem?-range 1 n i p,
      omega arith,
    )
    | no p ↦
        let e : i ≡ length (range 1 n) = omega (arith, length-range 1 n) in
        (
          0,
          ap (λ k. get_elem? (range 1 n ++ 0 ∷ []) k) e ∙ get_elem?-append_length (range 1 n) 0,
          omega arith,
        )
  ];
}

abbrev pub fresh_lru : ℕ → Lru
fresh_lru n = record { prev = n ∷ range 0 n; next = range 1 n ++ 0 ∷ [] }

pub new_lru-IsRing : (n : ℕ) → (new_lru (suc n) ≡ ok (fresh_lru n)) × IsRing (suc n) (fresh_lru n)
unfolding new_lru
new_lru-IsRing n = (refl, record { prevs = prev-IsBelow n; nexts = next-IsBelow n })

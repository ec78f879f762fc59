-- ===== src/Sfs/FreeMap/Bits.antt =====
-- Facts on the bit set of rcore-fs-sfs/src/lib.rs.
use rcore_fs.Base.{
  ℕ, zero, suc, ◌+◌, ◌≤◌, ◌<◌, ◌≡◌, refl, ap, ◌⊎◌, inl, inr, Bool, true, false, Option, none, some,
  List, [], ◌∷◌, arith, length, get_elem?, set,
}
use rcore_fs.Sfs.FreeMap.{find_free, alloc}

-- The number of free blocks.
abbrev pub count_true : List Bool → ℕ
count_true [] = 0
count_true (true ∷ bits) = suc (count_true bits)
count_true (false ∷ bits) = count_true bits

pub count_true-set-false :
    (bits : List Bool) (i : ℕ)
    → get_elem? bits i ≡ some true
    → count_true (set bits i false) + 1 ≡ count_true bits
count_true-set-false [] i h = cc
count_true-set-false (true ∷ bits) zero h = omega arith
count_true-set-false (false ∷ bits) zero h = cc
count_true-set-false (true ∷ bits) (suc i) h = omega (arith, count_true-set-false bits i h)
count_true-set-false (false ∷ bits) (suc i) h = omega (arith, count_true-set-false bits i h)

pub count_true-set-true :
    (bits : List Bool) (i : ℕ)
    → get_elem? bits i ≡ some false
    → count_true (set bits i true) ≡ count_true bits + 1
count_true-set-true [] i h = cc
count_true-set-true (false ∷ bits) zero h = omega arith
count_true-set-true (true ∷ bits) zero h = cc
count_true-set-true (true ∷ bits) (suc i) h = omega (arith, count_true-set-true bits i h)
count_true-set-true (false ∷ bits) (suc i) h = omega (arith, count_true-set-true bits i h)

pub count_true-le-length : (bits : List Bool) → count_true bits ≤ length bits
count_true-le-length [] = omega arith
count_true-le-length (true ∷ bits) = omega (arith, count_true-le-length bits)
count_true-le-length (false ∷ bits) = omega (arith, count_true-le-length bits)

-- What the search from the number `i` on finds: the first free block, or that there is none.
abbrev Found : List Bool → ℕ → Option ℕ → Type 0
Found bits i none = count_true bits ≡ 0
Found bits i (some k) =
    (d : ℕ) × (k ≡ i + d)
    × (get_elem? bits d ≡ some true)
    × ((j : ℕ) → j < d → get_elem? bits j ≡ some false)

Found-cons :
    (bits : List Bool) (i : ℕ) (r : Option ℕ) → Found bits (i + 1) r → Found (false ∷ bits) i r
Found-cons bits i none f = f
Found-cons bits i (some k) (d, e, hit, below) = (suc d, omega arith, hit, lower)
  where
    lower : (j : ℕ) → j < suc d → get_elem? (false ∷ bits) j ≡ some false
    lower zero h = refl
    lower (suc j) h = below j (omega arith)

find_free-Found : (bits : List Bool) (i : ℕ) → Found bits i (find_free bits i)
unfolding find_free
find_free-Found [] i = refl
find_free-Found (true ∷ bits) i = (0, omega arith, refl, λ j h. absurd (omega arith))
find_free-Found (false ∷ bits) i =
    Found-cons bits i (find_free bits (i + 1)) (find_free-Found bits (i + 1))

-- `k` is the first free block.
pub record IsFirstFree (bits : List Bool) (k : ℕ) : Type 0 where
  pub free : get_elem? bits k ≡ some true
  pub first : (j : ℕ) → j < k → get_elem? bits j ≡ some false

-- `alloc` takes the first free block, and changes nothing where no block is free.
pub alloc-cases :
    (bits : List Bool)
    → ((count_true bits ≡ 0) × (alloc bits ≡ (none, bits)))
      ⊎ ((k : ℕ) × IsFirstFree bits k × (alloc bits ≡ (some k, set bits k false)))
unfolding alloc
alloc-cases bits = go (find_free bits 0) refl (find_free-Found bits 0)
  where
    go :
        (r : Option ℕ)
        → find_free bits 0 ≡ r
        → Found bits 0 r
        → ((count_true bits ≡ 0) × (alloc bits ≡ (none, bits)))
          ⊎ ((k : ℕ) × IsFirstFree bits k × (alloc bits ≡ (some k, set bits k false)))
    go none e f = inl (f, rw (e, alloc))
    go (some k) e (d, p, hit, below) =
        let same : d ≡ k = omega arith in
        inr
          (k, record { free = rw same at hit; first = λ j h. below j (omega arith) }, rw (e, alloc))

pub get_elem?-lt-length :
    (bits : List Bool) (k : ℕ) (b : Bool) → get_elem? bits k ≡ some b → k < length bits
get_elem?-lt-length [] k b h = cc
get_elem?-lt-length (x ∷ bits) zero b h = omega arith
get_elem?-lt-length (x ∷ bits) (suc k) b h = omega (arith, get_elem?-lt-length bits k b h)

-- Putting a bit back gives the map from before.
pub set-set :
    (bits : List Bool) (k : ℕ) (b c : Bool)
    → get_elem? bits k ≡ some b
    → set (set bits k c) k b ≡ bits
set-set [] k b c h = refl
set-set (x ∷ bits) zero b c h = ap (λ y. y ∷ bits) (cc)
set-set (x ∷ bits) (suc k) b c h = ap (λ r. x ∷ r) (set-set bits k b c h)

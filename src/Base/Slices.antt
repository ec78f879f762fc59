-- ===== src/Base/Slices.antt =====
-- Parts of byte lists, read at an index; a byte behind the end counts as 0.
use rcore_fs.Base.{
  ◌≤◌, length-append, length-take, length-drop, leb, ◌&&◌, ℕ, zero, suc, ◌+◌, ◌-◌, ◌<◌, ◌≡◌, refl,
  ap, ap₂, ◌∙◌, List, [], ◌∷◌, ◌++◌, arith, ltb, if◌then◌else◌, length, get_or, take, drop,
  replicate,
}

pub get_or-append :
    (xs ys : List ℕ) (i : ℕ)
    → get_or (xs ++ ys) i 0
      ≡ (if ltb i (length xs) then get_or xs i 0 else get_or ys (i - length xs) 0)
get_or-append [] ys i = let e : i - 0 ≡ i = omega arith in ground (arith, ap (λ k. get_or ys k 0) e)
get_or-append (x ∷ xs) ys zero = ground arith
get_or-append (x ∷ xs) ys (suc i) =
    let e : suc i - suc (length xs) ≡ i - length xs = omega arith in
    ground (arith, ap (λ k. get_or ys k 0) e, get_or-append xs ys i)

pub get_or-take :
    (n : ℕ) (xs : List ℕ) (i : ℕ) → get_or (take n xs) i 0 ≡ (if ltb i n then get_or xs i 0 else 0)
get_or-take zero xs i = ground arith
get_or-take (suc n) [] i = ground arith
get_or-take (suc n) (x ∷ xs) zero = ground arith
get_or-take (suc n) (x ∷ xs) (suc i) = ground (arith, get_or-take n xs i)

pub get_or-drop : (n : ℕ) (xs : List ℕ) (i : ℕ) → get_or (drop n xs) i 0 ≡ get_or xs (n + i) 0
get_or-drop zero xs i = let e : i ≡ 0 + i = omega arith in ap (λ k. get_or xs k 0) e
get_or-drop (suc n) [] i = refl
get_or-drop (suc n) (x ∷ xs) i =
    let e : suc (n + i) ≡ suc n + i = omega arith in
    get_or-drop n xs i ∙ ap (λ k. get_or (x ∷ xs) k 0) e

pub get_or-replicate : (n i : ℕ) → get_or {A = ℕ} (replicate n 0) i 0 ≡ 0
get_or-replicate zero i = refl
get_or-replicate (suc n) zero = refl
get_or-replicate (suc n) (suc i) = get_or-replicate n i

-- Two lists of one length that agree at every index.
pub eq_of_get_or :
    (xs ys : List ℕ)
    → length xs ≡ length ys
    → ((i : ℕ) → i < length xs → get_or xs i 0 ≡ get_or ys i 0)
    → xs ≡ ys
eq_of_get_or [] [] e h = refl
eq_of_get_or (x ∷ xs) (y ∷ ys) e h =
    ap₂ ◌∷◌ (h 0 (omega arith)) (eq_of_get_or xs ys (omega arith) (λ i p. h (suc i) (omega arith)))
eq_of_get_or [] (y ∷ ys) e h = absurd (omega arith)
eq_of_get_or (x ∷ xs) [] e h = absurd (omega arith)

-- `xs[offset..offset + buf.len()].copy_from_slice(buf)`.
abbrev pub copy_into : List ℕ → ℕ → List ℕ → List ℕ
copy_into xs offset buf = take offset xs ++ (buf ++ drop (offset + length buf) xs)

pub length-copy_into :
    (xs : List ℕ) (offset : ℕ) (buf : List ℕ)
    → offset + length buf ≤ length xs
    → length (copy_into xs offset buf) ≡ length xs
length-copy_into xs offset buf h = omega (
  arith,
  length-append (take offset xs) (buf ++ drop (offset + length buf) xs),
  length-append buf (drop (offset + length buf) xs),
  length-take offset xs,
  length-drop (offset + length buf) xs,
)

-- The byte at `i` where `buf` covers `xs` from `offset` on.
abbrev pub overlay : List ℕ → ℕ → List ℕ → ℕ → ℕ
overlay xs offset buf i =
    if leb offset i && ltb i (offset + length buf) then get_or buf (i - offset) 0 else get_or xs i 0

pub get_or-copy_into :
    (xs : List ℕ) (offset : ℕ) (buf : List ℕ) (i : ℕ)
    → offset + length buf ≤ length xs
    → get_or (copy_into xs offset buf) i 0 ≡ overlay xs offset buf i
get_or-copy_into xs offset buf i h = ground (
  arith,
  get_or-append (take offset xs) (buf ++ drop (offset + length buf) xs) i,
  get_or-append buf (drop (offset + length buf) xs) (i - length (take offset xs)),
  length-take offset xs,
  get_or-take offset xs i,
  get_or-drop (offset + length buf) xs (i - length (take offset xs) - length buf),
  back,
)
  where
    back :
        offset + length buf ≤ i
        → offset + length buf + (i - length (take offset xs) - length buf) ≡ i
    back p = omega (arith, length-take offset xs)

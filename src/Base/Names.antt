-- ===== src/Base/Names.antt =====
-- File names as their bytes, and `BTreeMap`s from names as lists in the order of the names.
use rcore_fs.Base.{
  ℕ, zero, suc, ◌≡◌, ◌↔◌, refl, ap₂, Bool, true, false, ◌&&◌, Option, none, some, List, [], ◌∷◌,
  arith, ltb, ◌==◌, if◌then◌else◌,
}

abbrev pub Name : Type 0
Name = List ℕ

unfoldable pub name_eq : Name → Name → Bool
name_eq [] [] = true
name_eq (a ∷ xs) (b ∷ ys) = (a == b) && name_eq xs ys
name_eq [] (b ∷ ys) = false
name_eq (a ∷ xs) [] = false

-- The order of the bytes.
unfoldable pub name_lt : Name → Name → Bool
name_lt [] [] = false
name_lt [] (b ∷ ys) = true
name_lt (a ∷ xs) [] = false
name_lt (a ∷ xs) (b ∷ ys) = let rest = name_lt xs ys in if a == b then rest else ltb a b

name_eq_refl : (a : Name) → name_eq a a ≡ true
unfolding name_eq
name_eq_refl [] = refl
name_eq_refl (a ∷ xs) = ground (arith, name_eq_refl xs)

name_eq_sound : (a b : Name) → name_eq a b ≡ true → a ≡ b
unfolding name_eq
name_eq_sound [] [] h = refl
name_eq_sound (a ∷ xs) (b ∷ ys) h = ap₂ ◌∷◌ (ground arith) (name_eq_sound xs ys (ground arith))
name_eq_sound [] (b ∷ ys) h = absurd (cc h)
name_eq_sound (a ∷ xs) [] h = absurd (cc h)

pub name_eq_iff : (a b : Name) → (name_eq a b ≡ true) ↔ (a ≡ b)
name_eq_iff a b = (name_eq_sound a b, λ e. rw e (name_eq_refl b))

module _ {V : Type 0} where
  unfoldable pub lookup : Name → List (Name × V) → Option V
  unfolding name_eq
  lookup name [] = none
  lookup name ((key, value) ∷ rest) = if name_eq key name then some value else lookup name rest

  unfoldable pub insert : Name → V → List (Name × V) → List (Name × V)
  unfolding name_eq name_lt
  insert name new [] = (name, new) ∷ []
  insert name new ((key, value) ∷ rest) =
      let behind = insert name new rest in
      if name_eq key name
      then (name, new) ∷ rest
      else if name_lt name key
      then (name, new) ∷ (key, value) ∷ rest
      else (key, value) ∷ behind

  unfoldable pub remove : Name → List (Name × V) → List (Name × V)
  unfolding name_eq
  remove k [] = []
  remove k ((j, v) ∷ m) = let rest = remove k m in if name_eq j k then rest else (j, v) ∷ rest

  -- The key at a position, `keys().nth(i)`.
  unfoldable pub key_at : ℕ → List (Name × V) → Option Name
  key_at i [] = none
  key_at zero ((j, v) ∷ m) = some j
  key_at (suc i) ((j, v) ∷ m) = key_at i m

  pub lookup-insert :
      (new other : Name) (value : V) (map : List (Name × V))
      → lookup other (insert new value map)
        ≡ (if name_eq new other then some value else lookup other map)
  unfolding lookup insert
  lookup-insert new other value [] = refl
  lookup-insert new other value ((key, _) ∷ rest) = ground (
    arith,
    name_eq_iff new other,
    name_eq_iff key new,
    name_eq_iff key other,
    lookup-insert new other value rest,
  )

  pub lookup-remove :
      (k j : Name) (m : List (Name × V))
      → lookup j (remove k m) ≡ (if name_eq k j then none else lookup j m)
  unfolding lookup remove
  lookup-remove k j [] = ground arith
  lookup-remove k j ((i, w) ∷ m) =
      ground (arith, name_eq_iff k j, name_eq_iff i k, name_eq_iff i j, lookup-remove k j m)

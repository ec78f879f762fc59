-- ===== src/Sfs/FreeMap/History.antt =====
-- Blocks handed out and given back over time (rcore-fs-sfs/src/lib.rs, `alloc_block`, `free_block`).
use mathlib.Core.Path.{subst}
use rcore_fs.Base.{
  ℕ, ◌<◌, ◌≡◌, ◌≢◌, sym, ap, ◌∙◌, inl, inr, Bool, true, false, some, List, [], ◌∷◌, ◌++◌, arith,
  length, get_elem?, set, get_elem?-set_self, get_elem?-set_ne,
}
use rcore_fs.Base.Outcome.{ok}
use rcore_fs.Sfs.State.{Sfs}
use rcore_fs.Sfs.FreeMap.{alloc_block, free_block}
use rcore_fs.Sfs.FreeMap.Bits.{get_elem?-lt-length}
use rcore_fs.Sfs.FreeMap.Invariant.{
  bits, IsConsistent, alloc_block-taken, alloc_block-IsConsistent, free_block_lem,
  free_block-IsConsistent, released,
}

-- A state with the blocks that the callers hold. Any of them may be given back.
pub data Step : Sfs → List ℕ → Sfs → List ℕ → Type 0 where
  allocate :
      {s t : Sfs} {held : List ℕ} (k : ℕ)
      → alloc_block s ≡ (t, ok (some k))
      → Step s held t (k ∷ held)
  release :
      {s t : Sfs} (before after : List ℕ) {held : List ℕ} (k : ℕ)
      → held ≡ before ++ k ∷ after
      → free_block k s ≡ (t, ok tt)
      → Step s held t (before ++ after)

pub data Reach (s : Sfs) : Sfs → List ℕ → Type 0 where
  here : Reach s s []
  next : {t u : Sfs} {held held' : List ℕ} → Reach s t held → Step t held u held' → Reach s u held'

abbrev pub NotIn : ℕ → List ℕ → Type 0
NotIn k [] = Unit
NotIn k (j ∷ js) = (j ≢ k) × NotIn k js

-- Every block of the list is marked as in use, and stands in it once.
abbrev pub Exclusive : List Bool → List ℕ → Type 0
Exclusive map [] = Unit
Exclusive map (k ∷ ks) = (get_elem? map k ≡ some false) × NotIn k ks × Exclusive map ks

NotIn-middle : (j k : ℕ) (before after : List ℕ) → NotIn j (before ++ k ∷ after) → j ≢ k
NotIn-middle j k [] after n = λ e. n.0 (sym e)
NotIn-middle j k (i ∷ before) after n = NotIn-middle j k before after n.1

NotIn-drop :
    (j k : ℕ) (before after : List ℕ) → NotIn j (before ++ k ∷ after) → NotIn j (before ++ after)
NotIn-drop j k [] after n = n.1
NotIn-drop j k (i ∷ before) after n = (n.0, NotIn-drop j k before after n.1)

-- A block that is in use is not the free one that is taken.
Exclusive-take :
    (map : List Bool) (k : ℕ) (ks : List ℕ)
    → get_elem? map k ≡ some true
    → Exclusive map ks
    → NotIn k ks × Exclusive (set map k false) ks
Exclusive-take map k [] free x = (tt, tt)
Exclusive-take map k (j ∷ js) free x =
    let (out, rest) = Exclusive-take map k js free x.2 in
    let ne : j ≢ k = λ e. cc (x.0, ap (get_elem? map) e, free) in
    ((ne, out), (get_elem?-set_ne map false (λ e. ne (sym e)) ∙ x.0, x.1, rest))

Exclusive-release_other :
    (map : List Bool) (k : ℕ) (ks : List ℕ)
    → NotIn k ks
    → Exclusive map ks
    → Exclusive (set map k true) ks
Exclusive-release_other map k [] n x = tt
Exclusive-release_other map k (j ∷ js) n x = (
  get_elem?-set_ne map true (λ e. n.0 (sym e)) ∙ x.0,
  x.1,
  Exclusive-release_other map k js n.1 x.2,
)

-- Taking a block out of the list and marking it free leaves the others held.
Exclusive-release :
    (map : List Bool) (before after : List ℕ) (k : ℕ)
    → Exclusive map (before ++ k ∷ after)
    → Exclusive (set map k true) (before ++ after)
Exclusive-release map [] after k x = Exclusive-release_other map k after x.1 x.2
Exclusive-release map (j ∷ before) after k x =
    let ne : j ≢ k = NotIn-middle j k before after x.1 in
    (
      get_elem?-set_ne map true (λ e. ne (sym e)) ∙ x.0,
      NotIn-drop j k before after x.1,
      Exclusive-release map before after k x.2,
    )

free_block-Exclusive :
    (s t : Sfs) (before after : List ℕ) (k : ℕ)
    → IsConsistent s
    → Exclusive (bits s) (before ++ k ∷ after)
    → free_block k s ≡ (t, ok tt)
    → Exclusive (bits t) (before ++ after)
free_block-Exclusive s t before after k c x e = elim (free_block_lem s k c) [
  | inr (_, e') ↦ absurd (cc e')
  | inl (_, e') ↦
      let same : t ≡ released s k = ground arith in
      rw same (Exclusive-release (bits s) before after k x)
]

-- From consistent books, whatever was allocated and given back since, in whatever order: the books
-- are consistent, no block is held twice, and every held block is marked as in use.
pub Reach-Exclusive :
    {s t : Sfs} {held : List ℕ}
    → IsConsistent s
    → Reach s t held
    → IsConsistent t × Exclusive (bits t) held
Reach-Exclusive c here = (c, tt)
Reach-Exclusive c (next r (allocate {s = s} {t = t} {held = held} k e)) =
    let (inv, x) = Reach-Exclusive c r in
    let (first, same) = alloc_block-taken s t k inv e in
    let (out, rest) = Exclusive-take (bits s) k held first.free x in
    let k_lt : k < length (bits s) = get_elem?-lt-length (bits s) k true first.free in
    (
      rw e at (alloc_block-IsConsistent s inv),
      subst (λ u. Exclusive (bits u) (k ∷ held)) (sym same)
          (get_elem?-set_self (bits s) k false k_lt, out, rest),
    )
Reach-Exclusive c (next r (release {s = s} {t = t} before after {held = held} k split e)) =
    let (inv, x) = Reach-Exclusive c r in
    (
      rw e at (free_block-IsConsistent s k inv),
      free_block-Exclusive s t before after k inv (subst (Exclusive (bits s)) split x) e,
    )

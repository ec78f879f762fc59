-- ===== src/Mountfs/Synced.antt =====
-- `sync` of rcore-fs-mountfs/src/lib.rs goes through the tree of file systems.
use rcore_fs.Base.{
  ℕ, zero, suc, ◌+◌, ◌<◌, ◌≤◌, ◌≡◌, refl, ap, ◌∙◌, Option, none, some, List, [], ◌∷◌, arith, length,
  get_elem?, map, sym, ◌++◌,
}
use rcore_fs.Base.Outcome.{Outcome, Action, ok, err, panic, hang, pure, crash, and_then, ◌>>◌}
use rcore_fs.Vfs.{FsError}
use rcore_fs.Mountfs.{InnerCalls, MountFs, sync_list, sync_mountfs}
use rcore_fs.Mountfs.Overlay.{get_elem?-in}

-- All numbers are above `low` and below `high`.
abbrev pub Between : (low high : ℕ) → List ℕ → Type 0
Between low high [] = Unit {0}
Between low high (v ∷ vs) = (low < v) × (v < high) × Between low high vs

-- What is mounted in a file system was made after it.
pub record IsOrdered {F I : Type 0} (ms : List (MountFs F I)) : Type 0 where
  pub newer :
      (k : ℕ) (m : MountFs F I)
      → get_elem? ms k ≡ some m
      → Between k (length ms) (map (λ entry. entry.1) m.mountpoints)

-- The inner file systems in the order of their sync: each one, then all below it in the order of its
-- table, then its later siblings.
pub data Order {F I : Type 0} (ms : List (MountFs F I)) : List ℕ → List F → Type 0 where
  nothing : Order ms [] []
  visit :
      (v : ℕ) (rest : List ℕ) (m : MountFs F I) (below behind : List F)
      → get_elem? ms v ≡ some m
      → Order ms (map (λ entry. entry.1) m.mountpoints) below
      → Order ms rest behind
      → Order ms (v ∷ rest) (m.inner ∷ (below ++ behind))

-- The syncs of inner file systems one after the other, up to the first that fails.
abbrev pub sync_each : {S F I : Type 0} → InnerCalls S F I → List F → Action S FsError (Unit {0})
sync_each calls [] = pure tt
sync_each calls (f ∷ fs) = calls.sync f >> sync_each calls fs

-- Fuel is there for all of them.
abbrev Fueled : (high fuel : ℕ) → List ℕ → Type 0
Fueled high fuel [] = Unit {0}
Fueled high fuel (v ∷ vs) = (v < high) × (high ≤ v + fuel) × Fueled high fuel vs

Between-Fueled :
    (low high fuel : ℕ) (vs : List ℕ)
    → high ≤ low + suc fuel
    → Between low high vs
    → Fueled high fuel vs
Between-Fueled low high fuel [] h b = tt
Between-Fueled low high fuel (v ∷ vs) h (above, below, rest) =
    (below, omega (arith, h, above), Between-Fueled low high fuel vs h rest)

module _ {S F I : Type 0} (calls : InnerCalls S F I) where
  sync_each-append :
      (fs gs : List F) (s : S)
      → sync_each calls (fs ++ gs) s ≡ and_then (sync_each calls fs s) (λ _. sync_each calls gs)
  sync_each-append [] gs s = refl
  sync_each-append (f ∷ fs) gs s = go (calls.sync f s) (λ t. sync_each-append fs gs t)
    where
      go :
          (p : S × Outcome FsError (Unit {0}))
          → ((t : S)
              → sync_each calls (fs ++ gs) t
                ≡ and_then (sync_each calls fs t) (λ _. sync_each calls gs))
          → and_then p (λ _. sync_each calls (fs ++ gs))
            ≡ and_then (and_then p (λ _. sync_each calls fs)) (λ _. sync_each calls gs)
      go (t, ok x) again = again t
      go (t, err e) again = refl
      go (t, panic) again = refl
      go (t, hang) again = refl

  module _ (ms : List (MountFs F I)) where
    -- One file system, with what is below it and what comes behind it.
    sync_list-step :
        (fuel v : ℕ) (vs : List ℕ) (m : MountFs F I) (below behind : List F)
        → get_elem? ms v ≡ some m
        → ((s : S)
            → sync_list calls fuel ms (map (λ entry. entry.1) m.mountpoints) s
              ≡ some (sync_each calls below s))
        → ((s : S) → sync_list calls (suc fuel) ms vs s ≡ some (sync_each calls behind s))
        → (s : S)
        → sync_list calls (suc fuel) ms (v ∷ vs) s
          ≡ some (sync_each calls (m.inner ∷ (below ++ behind)) s)
    unfolding sync_list
    sync_list-step fuel v vs m below behind e inside later s =
        ap (λ o. body o s) e ∙ go (calls.sync m.inner s)
      where
        finish : Option (S × Outcome FsError (Unit {0})) → Option (S × Outcome FsError (Unit {0}))
        finish none = none
        finish (some (t, ok x)) = sync_list calls (suc fuel) ms vs t
        finish (some (t, err e)) = some (t, err e)
        finish (some (t, panic)) = some (t, panic)
        finish (some (t, hang)) = some (t, hang)

        finished :
            (p : S × Outcome FsError (Unit {0}))
            → finish (some p) ≡ some (and_then p (λ _. sync_each calls behind))
        finished (t, ok x) = later t
        finished (t, err e) = refl
        finished (t, panic) = refl
        finished (t, hang) = refl

        after : List ℕ → S × Outcome FsError (Unit {0}) → Option (S × Outcome FsError (Unit {0}))
        after children (s', ok x) = finish (sync_list calls fuel ms children s')
        after children (s', err e) = some (s', err e)
        after children (s', panic) = some (s', panic)
        after children (s', hang) = some (s', hang)

        body : Option (MountFs F I) → S → Option (S × Outcome FsError (Unit {0}))
        body o s =
            after
              (elim o as (λ _. List ℕ) [
                | none ↦ []
                | some m ↦ map (λ entry. entry.1) m.mountpoints
              ])
              ((elim o as (λ _. Action S FsError (Unit {0})) [
                | none ↦ crash
                | some m ↦ calls.sync m.inner
              ])
                s)

        go :
            (p : S × Outcome FsError (Unit {0}))
            → after (map (λ entry. entry.1) m.mountpoints) p
              ≡ some (and_then p (λ _. sync_each calls (below ++ behind)))
        go (t, ok x) =
            ap finish (inside t)
            ∙ finished (sync_each calls below t)
            ∙ ap some (sym (sync_each-append below behind t))
        go (t, err e) = refl
        go (t, panic) = refl
        go (t, hang) = refl

    module _ (ordered : IsOrdered ms) where
      sync_list-Order :
          (fuel : ℕ) (vs : List ℕ)
          → Fueled (length ms) fuel vs
          → (fs : List F) × Order ms vs fs
            × ((s : S) → sync_list calls fuel ms vs s ≡ some (sync_each calls fs s))
      unfolding sync_list
      sync_list-Order fuel [] h = ([], Order.nothing, λ s. refl)
      sync_list-Order zero (v ∷ vs) (below, h, _) = absurd (omega (arith, below, h))
      sync_list-Order (suc fuel) (v ∷ vs) (below, h, rest) =
          let (m, e) = get_elem?-in ms v below in
          let (inside, order, run) =
            sync_list-Order fuel (map (λ entry. entry.1) m.mountpoints)
              (Between-Fueled v (length ms) fuel _ h (ordered.newer v m e)) in
          let (behind, order', run') = sync_list-Order (suc fuel) vs rest in
          (
            m.inner ∷ (inside ++ behind),
            Order.visit v vs m inside behind e order order',
            sync_list-step fuel v vs m inside behind e run run',
          )

      -- Where every mounted file system was made after the one that it is mounted in, and the fuel
      -- is at least the number of those made from the first one on, `sync` is the sync of the inner
      -- file systems one after the other: that of the file system itself, then those of all that are
      -- mounted below it, each before those that are mounted in it, in the order of the tables. The
      -- first that fails ends it.
      pub sync_mountfs_lem :
          (fuel vfs : ℕ)
          → vfs < length ms
          → length ms ≤ vfs + fuel
          → (fs : List F) × Order ms (vfs ∷ []) fs
            × ((s : S) → sync_mountfs calls fuel ms vfs s ≡ some (sync_each calls fs s))
      unfolding sync_mountfs
      sync_mountfs_lem fuel vfs below h = sync_list-Order fuel (vfs ∷ []) (below, h, tt)

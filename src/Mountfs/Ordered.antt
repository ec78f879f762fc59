-- ===== src/Mountfs/Ordered.antt =====
-- `mount` of rcore-fs-mountfs/src/lib.rs enters newer file systems in older ones.
use mathlib.Core.Path.{subst}
use rcore_fs.Base.{
  ℕ, zero, suc, ◌<◌, ◌≤◌, ◌≡◌, ◌≢◌, sym, ap, ◌∙◌, Bool, true, false, none, some, List, [], ◌∷◌,
  ◌++◌, arith, ◌==◌, ltb, if◌then◌else◌, length, map, get_elem?, set, length-set, length-append,
  get_elem?-set_self, get_elem?-set_ne, get_elem?-snoc, inl, inr, Bool-cases,
}
use rcore_fs.Base.Outcome.{Outcome, ok, err, panic, hang}
use rcore_fs.Vfs.{FsError, Metadata}
use rcore_fs.Mountfs.{InnerCalls, MNode, MountFs, insert_mount, new_mountfs, add_mountpoint, mount}
use rcore_fs.Mountfs.Overlay.{get_elem?-in}
use rcore_fs.Mountfs.Synced.{Between, IsOrdered}

weaken :
    (low high high' : ℕ) (vs : List ℕ) → high ≤ high' → Between low high vs → Between low high' vs
weaken low high high' [] h b = tt
weaken low high high' (v ∷ vs) h (above, below, rest) =
    (above, omega (arith, below, h), weaken low high high' vs h rest)

abbrev numbers : List (ℕ × ℕ) → List ℕ
numbers mounts = map (λ entry. entry.1) mounts

insert_mount-Between :
    (low high : ℕ) (mounts : List (ℕ × ℕ)) (id new : ℕ)
    → low < new
    → new < high
    → Between low high (numbers mounts)
    → Between low high (numbers (insert_mount mounts id new))
unfolding insert_mount
insert_mount-Between low high [] id new h h' b = (h, h', tt)
insert_mount-Between low high ((key, old) ∷ mounts) id new h h' (above, below, rest) =
    go (key == id) (ltb id key) (insert_mount-Between low high mounts id new h h' rest)
  where
    go :
        (same lower : Bool)
        → Between low high (numbers (insert_mount mounts id new))
        → Between low high (
            numbers (
              if same
              then (id, new) ∷ mounts
              else if lower
              then (id, new) ∷ (key, old) ∷ mounts
              else (key, old) ∷ insert_mount mounts id new))
    go true lower again = (h, h', rest)
    go false true again = (h, h', (above, below, rest))
    go false false again = (above, below, again)

-- Nothing is mounted in the first one yet.
pub first-IsOrdered : {F I : Type 0} (fs : F) → IsOrdered {F = F} {I = I} (new_mountfs fs none ∷ [])
first-IsOrdered {F} {I} fs = record { newer = newer }
  where
    newer :
        (k : ℕ) (m : MountFs F I)
        → get_elem? (new_mountfs fs none ∷ []) k ≡ some m
        → Between k 1 (numbers m.mountpoints)
    newer zero m at =
        let same : new_mountfs fs none ≡ m = cc at in
        subst (λ (m : MountFs F I). Between 0 1 (numbers m.mountpoints)) same tt
    newer (suc k) m at = absurd cc

module _ {F I : Type 0} (ms : List (MountFs F I)) (ordered : IsOrdered ms) (node : MNode I) (fs : F)
    (there : node.vfs < length ms) (id : ℕ) where
  abbrev entered : MountFs F I → List (MountFs F I)
  entered m = set ms node.vfs (record m { mountpoints = insert_mount m.mountpoints id (length ms) })

  abbrev newest : MountFs F I
  newest = new_mountfs fs (some node)

  abbrev all : MountFs F I → List (MountFs F I)
  all m = entered m ++ (newest ∷ [])

  entered-IsOrdered : (m : MountFs F I) → get_elem? ms node.vfs ≡ some m → IsOrdered (all m)
  entered-IsOrdered m e = record { newer = newer }
    where
      into : MountFs F I
      into = record m { mountpoints = insert_mount m.mountpoints id (length ms) }

      grown : length ms < length (all m)
      grown = omega (arith, length-append (entered m) (newest ∷ []), length-set ms node.vfs into)

      newer :
          (k : ℕ) (m' : MountFs F I)
          → get_elem? (all m) k ≡ some m'
          → Between k (length (all m)) (numbers m'.mountpoints)
      newer k m' at = elim (get_elem?-snoc (entered m) newest k m' at) [
        | inr (last, same) ↦
            subst (λ (n : MountFs F I). Between k (length (all m)) (numbers n.mountpoints))
              (sym same) tt
        | inl old ↦ elim (Bool-cases (node.vfs == k)) [
          | inl same ↦
              let e' : node.vfs ≡ k = ground (arith, same) in
              let found : some into ≡ some m' =
                sym (get_elem?-set_self ms node.vfs into there)
                ∙ ap (get_elem? (entered m)) e'
                ∙ old in
              let is : into ≡ m' = cc found in
              subst (λ k. Between k (length (all m)) (numbers m'.mountpoints)) e'
                (subst
                  (λ (n : MountFs F I). Between node.vfs (length (all m)) (numbers n.mountpoints))
                  is
                  (insert_mount-Between node.vfs (length (all m)) m.mountpoints id (length ms) there
                    grown
                    (weaken node.vfs (length ms) (length (all m)) (numbers m.mountpoints)
                      (omega (arith, grown)) (ordered.newer node.vfs m e))))
          | inr other ↦
              let e' : node.vfs ≢ k = ground (arith, other) in
              weaken k (length ms) (length (all m)) (numbers m'.mountpoints) (omega (arith, grown))
                (ordered.newer k m' (sym (get_elem?-set_ne ms into e') ∙ old))
        ]
      ]

module _ {S F I : Type 0} (calls : InnerCalls S F I) (ms : List (MountFs F I))
    (ordered : IsOrdered ms) (node : MNode I) (fs : F) (s : S) (there : node.vfs < length ms) where
  -- What is mounted in a file system was made after it: `mount` at a node of one of the file systems
  -- made so far keeps this, whether it succeeds or not.
  pub mount-IsOrdered : IsOrdered (mount calls node fs (s, ms)).0.1
  unfolding mount
  mount-IsOrdered = go (calls.metadata node.inode s)
    where
      behind : S × Outcome FsError Metadata → List (MountFs F I)
      behind p =
          (let (s', o) = p in
            elim o as (λ _. (S × List (MountFs F I)) × Outcome FsError ℕ) [
              | ok info ↦ (
                (
                  s',
                  add_mountpoint calls ms node.vfs info.inode (length ms)
                      ++ (new_mountfs fs (some node) ∷ []),
                ),
                ok (length ms),
              )
              | err e ↦ ((s', ms), err e)
              | panic ↦ ((s', ms), panic)
              | hang ↦ ((s', ms), hang)
            ]).0.1

      go : (p : S × Outcome FsError Metadata) → IsOrdered (behind p)
      go (t, ok info) =
          let (m, e) = get_elem?-in ms node.vfs there in
          subst
            (λ o. IsOrdered (
              (elim o as (λ _. List (MountFs F I)) [
                | none ↦ ms
                | some m ↦
                    set ms node.vfs
                      (record m { mountpoints = insert_mount m.mountpoints info.inode (length ms) })
              ])
              ++ (new_mountfs fs (some node) ∷ [])))
            (sym e) (entered-IsOrdered ms ordered node fs there info.inode m e)
      go (t, err e) = ordered
      go (t, panic) = ordered
      go (t, hang) = ordered

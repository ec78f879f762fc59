-- ===== src/Mountfs/Tree.antt =====
-- The mounted file systems of rcore-fs-mountfs/src/lib.rs form a tree, so ".." comes to an end.
use rcore_fs.Base.{
  ℕ, zero, suc, ◌<◌, ◌≡◌, refl, Bool, true, false, ◌||◌, Option, none, some, List, [], ◌∷◌, arith,
  ◌==◌, ltb, get_elem?, inl, inr, Bool-cases,
}
use rcore_fs.Base.Names.{Name, name_eq}
use rcore_fs.Base.Outcome.{Outcome, ok, err, panic, hang, pure, ◌>>=◌}
use rcore_fs.Vfs.{FsError}
use rcore_fs.Mountfs.{
  InnerCalls, MNode, MountFs, get_mount, insert_mount, is_root, find_up, find_down, find_node,
}

-- A mounted file system was made after the one that it is mounted in.
pub record IsTree {F I : Type 0} (ms : List (MountFs F I)) : Type 0 where
  pub older :
      (k : ℕ) (m : MountFs F I) (up : MNode I)
      → get_elem? ms k ≡ some m
      → m.self_mountpoint ≡ some up
      → up.vfs < k

module _ {S F I : Type 0} (calls : InnerCalls S F I) where
  up_ends :
      (ms : List (MountFs F I)) (fuel : ℕ) (node : MNode I) (s : S) (o : Option (MNode I))
      → ((up : MNode I)
          → o ≡ some up
          → (r : S × Outcome FsError (MNode I)) × (find_up calls fuel ms up s ≡ some r))
      → (r : S × Outcome FsError (MNode I)) × ((elim o
            as (λ _. Option (S × Outcome FsError (MNode I))) [
              | some up ↦ find_up calls fuel ms up s
              | none ↦ some (s, ok node)
            ])
          ≡ some r)
  up_ends ms fuel node s none later = ((s, ok node), refl)
  up_ends ms fuel node s (some up) later = later up refl

  find_up_ends :
      (ms : List (MountFs F I))
      → IsTree ms
      → (fuel : ℕ) (node : MNode I) (s : S) → node.vfs < fuel
      → (r : S × Outcome FsError (MNode I)) × (find_up calls fuel ms node s ≡ some r)
  unfolding find_up
  find_up_ends ms tree zero node s h = absurd (omega arith)
  find_up_ends ms tree (suc fuel) node s h =
      go (is_root calls node s) (get_elem? ms node.vfs) refl
        (λ up s' lower. find_up_ends ms tree fuel up s' (omega (arith, h, lower)))
    where
      go :
          (p : S × Outcome FsError Bool) (o : Option (MountFs F I))
          → get_elem? ms node.vfs ≡ o
          → ((up : MNode I) (s' : S)
              → up.vfs < node.vfs
              → (r : S × Outcome FsError (MNode I)) × (find_up calls fuel ms up s' ≡ some r))
          → (r : S × Outcome FsError (MNode I)) × ((elim p.1
                as (λ _. Option (S × Outcome FsError (MNode I))) [
                  | ok true ↦ elim o [
                    | none ↦ some (p.0, panic)
                    | some m ↦ elim m.self_mountpoint [
                      | some up ↦ find_up calls fuel ms up p.0
                      | none ↦ some (p.0, ok node)
                    ]
                  ]
                  | ok false ↦ some (
                      (do
                        inode ← calls.find node.inode (b'.' ∷ b'.' ∷ [])
                        pure (record { inode = inode; vfs = node.vfs }))
                        p.0)
                  | err e ↦ some (p.0, err e)
                  | panic ↦ some (p.0, panic)
                  | hang ↦ some (p.0, hang)
                ])
              ≡ some r)
      go (s', ok true) none e later = ((s', panic), refl)
      go (s', ok true) (some m) e later =
          up_ends ms fuel node s' m.self_mountpoint
            (λ up at. later up s' (tree.older node.vfs m up e at))
      go (s', ok false) o e later = (_, refl)
      go (s', err x) o e later = ((s', err x), refl)
      go (s', panic) o e later = ((s', panic), refl)
      go (s', hang) o e later = ((s', hang), refl)

  -- Where every file system is mounted in an older one, `find` has a result for every node and name,
  -- with more fuel than the place of the node's file system.
  pub find_node_lem :
      (ms : List (MountFs F I))
      → IsTree ms
      → (fuel : ℕ) (node : MNode I) (root : Bool) (name : Name) (s : S) → node.vfs < fuel
      → (r : S × Outcome FsError (MNode I)) × (find_node calls fuel ms node root name s ≡ some r)
  unfolding find_node
  find_node_lem ms tree fuel node root name s h =
      elim (Bool-cases (name_eq name [] || name_eq name (b'.' ∷ []))) [
        | inl here ↦ ((s, ok node), ground (arith, here))
        | inr elsewhere ↦ elim (Bool-cases (name_eq name (b'.' ∷ b'.' ∷ []))) [
          | inr down ↦ (find_down calls ms node name s, ground (arith, elsewhere, down))
          | inl up ↦
              let (r, e) = find_up_ends ms tree fuel node s h in
              elim (Bool-cases root) [
                | inl at_root ↦ ((s, ok node), ground (arith, elsewhere, up, at_root))
                | inr free ↦ (r, ground (arith, elsewhere, up, free, e))
              ]
        ]
      ]

-- The table of a file system with a new mount point.
pub get_mount-insert_mount :
    (mounts : List (ℕ × ℕ)) (id vfs : ℕ) → get_mount (insert_mount mounts id vfs) id ≡ some vfs
unfolding get_mount insert_mount
get_mount-insert_mount [] id vfs = ground arith
get_mount-insert_mount ((key, old) ∷ mounts) id vfs =
    let rest = get_mount-insert_mount mounts id vfs in
    elim (Bool-cases (key == id)) [
      | inl same ↦ ground (arith, same)
      | inr other ↦ elim (Bool-cases (ltb id key)) [
        | inl before ↦ ground (arith, other, before)
        | inr behind ↦ ground (arith, other, behind, rest)
      ]
    ]

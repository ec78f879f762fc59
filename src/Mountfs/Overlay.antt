-- ===== src/Mountfs/Overlay.antt =====
-- What a `mount` of rcore-fs-mountfs/src/lib.rs changes.
use mathlib.Core.Path.{subst}
use rcore_fs.Base.{
  ℕ, zero, suc, ◌<◌, ◌≡◌, ◌≢◌, refl, sym, ap, ◌∙◌, some, List, [], ◌∷◌, ◌++◌, arith, ◌==◌, length,
  get_elem?, set, length-set, get_elem?-set_self, get_elem?-set_ne, get_elem?-snoc,
  get_elem?-append_left, get_elem?-append_length, inl, inr, Bool-cases,
}
use rcore_fs.Base.Outcome.{ok, pure, ◌>>=◌}
use rcore_fs.Vfs.{Metadata}
use rcore_fs.Mountfs.{
  InnerCalls, MNode, MountFs, insert_mount, new_mountfs, mount, overlaid_inode, root_node,
}
use rcore_fs.Mountfs.Tree.{IsTree, get_mount-insert_mount}

pub get_elem?-in :
    {A : Type 0} (xs : List A) (i : ℕ) → i < length xs → (x : A) × (get_elem? xs i ≡ some x)
get_elem?-in [] i h = absurd (omega arith)
get_elem?-in (x ∷ xs) zero h = (x, refl)
get_elem?-in (x ∷ xs) (suc i) h = get_elem?-in xs i (omega arith)

module _ {S F I : Type 0} (calls : InnerCalls S F I) (ms : List (MountFs F I)) (tree : IsTree ms)
    (node : MNode I) (fs : F) (s : S) (info : Metadata) (there : node.vfs < length ms)
    (known : calls.metadata node.inode s ≡ (s, ok info)) where
  abbrev added : MountFs F I → MountFs F I
  added m = record m { mountpoints = insert_mount m.mountpoints info.inode (length ms) }

  abbrev mounted : MountFs F I
  mounted = new_mountfs fs (some node)

  -- The list behind the call.
  abbrev after : MountFs F I → List (MountFs F I)
  after m = set ms node.vfs (added m) ++ (mounted ∷ [])

  mount-after :
      (m : MountFs F I)
      → get_elem? ms node.vfs ≡ some m
      → mount calls node fs (s, ms) ≡ ((s, after m), ok (length ms))
  unfolding mount
  mount-after m e = ground (arith, known, e)

  after-IsTree : (m : MountFs F I) → get_elem? ms node.vfs ≡ some m → IsTree (after m)
  after-IsTree m e = record {
    older = λ k m' up at under. elim (get_elem?-snoc (set ms node.vfs (added m)) mounted k m' at) [
      | inr (last, same) ↦
          let place : k ≡ length ms = last ∙ length-set ms node.vfs (added m) in
          let here : some node ≡ some up = ap MountFs.self_mountpoint (sym same) ∙ under in
          let vfs : node.vfs ≡ up.vfs = ap MNode.vfs (let e' : node ≡ up = cc here in e') in
          omega (arith, there, place, vfs)
      | inl old ↦ elim (Bool-cases (node.vfs == k)) [
        | inl same ↦
            let e' : node.vfs ≡ k = ground (arith, same) in
            let found : some (added m) ≡ some m' =
              sym (get_elem?-set_self ms node.vfs (added m) there)
              ∙ ap (get_elem? (set ms node.vfs (added m))) e'
              ∙ old in
            let is : added m ≡ m' = cc found in
            subst (λ k. up.vfs < k) e'
              (tree.older node.vfs m up e (ap MountFs.self_mountpoint is ∙ under))
        | inr other ↦
            let e' : node.vfs ≢ k = ground (arith, other) in
            tree.older k m' up (sym (get_elem?-set_ne ms (added m) e') ∙ old) under
      ]
    ];
  }

  after-node :
      (m : MountFs F I)
      → get_elem? ms node.vfs ≡ some m
      → get_elem? (after m) node.vfs ≡ some (added m)
  after-node m e =
      get_elem?-append_left (set ms node.vfs (added m)) (mounted ∷ []) node.vfs
        (omega (arith, there, length-set ms node.vfs (added m)))
      ∙ get_elem?-set_self ms node.vfs (added m) there

  after-new : (m : MountFs F I) → get_elem? (after m) (length ms) ≡ some mounted
  after-new m =
      ap (get_elem? (after m)) (sym (length-set ms node.vfs (added m)))
      ∙ get_elem?-append_length (set ms node.vfs (added m)) mounted

  overlaid-after :
      (m : MountFs F I)
      → get_elem? ms node.vfs ≡ some m
      → overlaid_inode calls (after m) node s ≡ root_node calls (after m) (length ms) s
  unfolding overlaid_inode
  overlaid-after m e =
      let found = get_mount-insert_mount m.mountpoints info.inode (length ms) in
      ground (arith, known, after-node m e, found)

  new_root :
      (m : MountFs F I)
      → root_node calls (after m) (length ms) s
        ≡ (calls.root_inode fs >>= λ root. pure (record { inode = root; vfs = length ms })) s
  new_root m = ground (arith, after-new m)

  -- `mount` at a node whose metadata can be read succeeds, and keeps the order in which every file
  -- system is mounted in an older one. The node is then covered by the root of the new file system.
  pub mount_lem :
      (ms' : List (MountFs F I)) × (mount calls node fs (s, ms) ≡ ((s, ms'), ok (length ms)))
      × IsTree ms'
      × (overlaid_inode calls ms' node s
          ≡ (calls.root_inode fs >>= λ root. pure (record { inode = root; vfs = length ms })) s)
  mount_lem =
      let (m, e) = get_elem?-in ms node.vfs there in
      (after m, mount-after m e, after-IsTree m e, overlaid-after m e ∙ new_root m)

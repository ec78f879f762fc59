-- ===== src/Mountfs.antt =====
-- rcore-fs-mountfs/src/lib.rs: file systems mounted on the inodes of others. The file systems below are
-- parameters, as is their state. A `MountFS` is its place in the list of those that were made, and
-- `self_ref` is the node or the file system itself.
pub mod Tree
pub mod Overlay
pub mod Synced
pub mod Ordered
mod Tests
use rcore_fs.Base.{
  ℕ, zero, suc, ◌+◌, Bool, true, false, ◌||◌, ◌&&◌, Option, none, some, List, [], ◌∷◌, ◌++◌, ◌==◌,
  ltb, if◌then◌else◌, length, get_elem?, set, map,
}
use rcore_fs.Base.Names.{Name, name_eq}
use rcore_fs.Base.Outcome.{
  Outcome, Action, ok, err, panic, hang, pure, fail, crash, must, and_then, on_first, ◌>>=◌, ◌>>◌,
}
use rcore_fs.Vfs.{FileType, FsError, Metadata, FsInfo}

-- The calls of the file systems `F` and their inodes `I` that this one makes.
pub record InnerCalls (S F I : Type 0) : Type 0 where
  pub root_inode : F → Action S FsError I
  pub sync : F → Action S FsError (Unit {0})
  pub info : F → FsInfo
  pub fs : I → F
  pub metadata : I → Action S FsError Metadata
  pub find : I → Name → Action S FsError I
  pub get_entry : I → ℕ → Action S FsError Name
  pub create : I → Name → FileType → (mode : ℕ) → Action S FsError I
  pub link : I → Name → I → Action S FsError (Unit {0})
  pub unlink : I → Name → Action S FsError (Unit {0})
  pub move_ : I → Name → I → Name → Action S FsError (Unit {0})

pub record MNode (I : Type 0) : Type 0 where
  pub inode : I
  pub vfs : ℕ

pub record MountFs (F I : Type 0) : Type 0 where
  pub inner : F
  pub mountpoints : List (ℕ × ℕ)
  pub self_mountpoint : Option (MNode I)

-- A `BTreeMap` in the order of its keys.
unfoldable pub get_mount : List (ℕ × ℕ) → ℕ → Option ℕ
get_mount [] id = none
get_mount ((key, vfs) ∷ mounts) id =
    let rest = get_mount mounts id in if key == id then some vfs else rest

unfoldable pub insert_mount : List (ℕ × ℕ) → (id vfs : ℕ) → List (ℕ × ℕ)
insert_mount [] id vfs = (id, vfs) ∷ []
insert_mount ((key, old) ∷ mounts) id vfs =
    let rest = insert_mount mounts id vfs in
    if key == id
    then (id, vfs) ∷ mounts
    else if ltb id key
    then (id, vfs) ∷ (key, old) ∷ mounts
    else (key, old) ∷ rest

abbrev pub new_mountfs : {F I : Type 0} → F → Option (MNode I) → MountFs F I
new_mountfs fs self_mountpoint = record {
  inner = fs;
  mountpoints = [];
  self_mountpoint = self_mountpoint;
}

module _ {S F I : Type 0} (calls : InnerCalls S F I) where
  abbrev pub Mounts : Type 0
  Mounts = List (MountFs F I)

  -- `self.vfs`, which an `Arc` keeps.
  abbrev pub with_vfs :
      {A : Type 0} → Mounts → ℕ → (MountFs F I → Action S FsError A) → Action S FsError A
  with_vfs ms vfs k = elim (get_elem? ms vfs) [ none ↦ crash | some m ↦ k m ]

  abbrev pub root_node : Mounts → ℕ → Action S FsError (MNode I)
  root_node ms vfs =
      with_vfs ms vfs
        (λ m. do inode ← calls.root_inode m.inner; pure (record { inode = inode; vfs = vfs }))

  abbrev pub add_mountpoint : Mounts → (vfs id new : ℕ) → Mounts
  add_mountpoint ms vfs id new = elim (get_elem? ms vfs) [
    | none ↦ ms
    | some m ↦ set ms vfs (record m { mountpoints = insert_mount m.mountpoints id new })
  ]

  -- The values of the table of a file system.
  abbrev pub mounted_in : Mounts → ℕ → List ℕ
  mounted_in ms vfs = elim (get_elem? ms vfs) [
    | none ↦ []
    | some m ↦ map (λ entry. entry.1) m.mountpoints
  ]

  -- The new file system stays where its number is entered.
  unfoldable pub mount : MNode I → F → Action (S × Mounts) FsError ℕ
  mount node fs (s, ms) =
      let (s', o) = calls.metadata node.inode s in
      elim o [
        | ok info ↦ (
          (
            s',
            add_mountpoint ms node.vfs info.inode (length ms) ++ (new_mountfs fs (some node) ∷ []),
          ),
          ok (length ms),
        )
        | err e ↦ ((s', ms), err e)
        | panic ↦ ((s', ms), panic)
        | hang ↦ ((s', ms), hang)
      ]

  unfoldable pub overlaid_inode : Mounts → MNode I → Action S FsError (MNode I)
  overlaid_inode ms node = do
    info ← must (calls.metadata node.inode)
    with_vfs ms node.vfs (λ m. elim (get_mount m.mountpoints info.inode) [
      | some sub_vfs ↦ root_node ms sub_vfs
      | none ↦ pure node
    ])

  pub is_root : MNode I → Action S FsError Bool
  is_root node = do
    root ← calls.root_inode (calls.fs node.inode)
    root_info ← must (calls.metadata root)
    info ← must (calls.metadata node.inode)
    pure (root_info.inode == info.inode)

  -- `find` of "..", where `root` does not forbid it; `none` when the fuel is used up.
  unfoldable pub find_up :
      (fuel : ℕ) → Mounts → MNode I → S → Option (S × Outcome FsError (MNode I))
  unfolding is_root
  find_up zero ms node s = none
  find_up (suc fuel) ms node s =
      let (s', o) = is_root node s in
      elim o [
        | ok true ↦ elim (get_elem? ms node.vfs) [
          | none ↦ some (s', panic)
          | some m ↦ elim m.self_mountpoint [
            | some up ↦ find_up fuel ms up s'
            | none ↦ some (s', ok node)
          ]
        ]
        | ok false ↦ some (
            (do
              inode ← calls.find node.inode (b'.' ∷ b'.' ∷ [])
              pure (record { inode = inode; vfs = node.vfs }))
              s')
        | err e ↦ some (s', err e)
        | panic ↦ some (s', panic)
        | hang ↦ some (s', hang)
      ]

  -- `find` of a name that goes down.
  unfoldable pub find_down : Mounts → MNode I → Name → Action S FsError (MNode I)
  unfolding overlaid_inode
  find_down ms node name = do
    over ← overlaid_inode ms node
    inode ← calls.find over.inode name
    overlaid_inode ms (record { inode = inode; vfs = node.vfs })

  unfoldable pub find_node :
      (fuel : ℕ)
      → Mounts
      → MNode I
      → (root : Bool) → Name
      → S
      → Option (S × Outcome FsError (MNode I))
  unfolding find_up find_down
  find_node fuel ms node root name s =
      if name_eq name [] || name_eq name (b'.' ∷ [])
      then some (s, ok node)
      else if name_eq name (b'.' ∷ b'.' ∷ [])
      then (if root then some (s, ok node) else find_up fuel ms node s)
      else some (find_down ms node name s)

  unfoldable pub create_node : MNode I → Name → FileType → (mode : ℕ) → Action S FsError (MNode I)
  create_node node name type_ mode = do
    inode ← calls.create node.inode name type_ mode
    pure (record { inode = inode; vfs = node.vfs })

  -- The downcast of `other` succeeds where it is a node of this crate.
  unfoldable pub link_node : MNode I → Name → Option (MNode I) → Action S FsError (Unit {0})
  link_node node name none = fail FsError.not_same_fs
  link_node node name (some other) = calls.link node.inode name other.inode

  unfoldable pub unlink_node : Mounts → MNode I → Name → Action S FsError (Unit {0})
  unlink_node ms node name = do
    inode ← calls.find node.inode name
    info ← calls.metadata inode
    with_vfs ms node.vfs (λ m. elim (get_mount m.mountpoints info.inode) [
      | some vfs ↦ fail FsError.busy
      | none ↦ calls.unlink node.inode name
    ])

  unfoldable pub move_node : MNode I → Name → Option (MNode I) → Name → Action S FsError (Unit {0})
  move_node node old_name none new_name = fail FsError.not_same_fs
  move_node node old_name (some target) new_name =
      calls.move_ node.inode old_name target.inode new_name

  -- `sync` of a file system and then of those that are mounted in it, in the order of the table.
  unfoldable pub sync_list :
      (fuel : ℕ) → Mounts → List ℕ → S → Option (S × Outcome FsError (Unit {0}))
  sync_list fuel ms [] s = some (s, ok tt)
  sync_list zero ms (vfs ∷ rest) s = none
  sync_list (suc fuel) ms (vfs ∷ rest) s =
      let (s', o) = with_vfs ms vfs (λ m. calls.sync m.inner) s in
      elim o [
        | ok x ↦ elim (sync_list fuel ms (mounted_in ms vfs) s') [
          | none ↦ none
          | some (t, result) ↦ elim result [
            | ok x ↦ sync_list (suc fuel) ms rest t
            | err e ↦ some (t, err e)
            | panic ↦ some (t, panic)
            | hang ↦ some (t, hang)
          ]
        ]
        | err e ↦ some (s', err e)
        | panic ↦ some (s', panic)
        | hang ↦ some (s', hang)
      ]

  unfoldable pub sync_mountfs :
      (fuel : ℕ) → Mounts → (vfs : ℕ) → S → Option (S × Outcome FsError (Unit {0}))
  unfolding sync_list
  sync_mountfs fuel ms vfs = sync_list fuel ms (vfs ∷ [])

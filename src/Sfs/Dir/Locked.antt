-- ===== src/Sfs/Dir/Locked.antt =====
-- `link_inodeimpl` of rcore-fs-sfs/src/lib.rs, which waits for a lock that it holds.
use rcore_fs.Base.{ℕ, ◌+◌, ◌≡◌, ap, ◌∙◌, arith, Option, none, some, ltb, ◌≤◌, Bool-cases, inl, inr}
use rcore_fs.Base.Names.{Name}
use rcore_fs.Base.Outcome.{Outcome, ok, panic, hang, and_then, ◌>>=◌, ◌>>◌, on_first, must}
use rcore_fs.Util.Dirty.{Dirty}
use rcore_fs.Vfs.{FsError}
use rcore_fs.Sfs.Layout.{DiskINode, blksize, max_file_size, max_nblock_double_indirect}
use rcore_fs.Sfs.State.{Sfs, SfsAction}
use rcore_fs.Sfs.Resize.{resize, blocks_for}
use rcore_fs.Sfs.Dirent.{DiskEntry, entry_bytes, new_entry}
use rcore_fs.Sfs.Dir.{linkable, link_inodeimpl, resize_locking, link_locking, LockedAction, locking}
use rcore_fs.Sfs.Content.{write_content}
use rcore_fs.Sfs.Inode.{nlinks_inc}

-- `_resize` waits for a lock that its caller holds.
resize_locking-held :
    (id len : ℕ) (s : Sfs)
    → len ≤ max_file_size
    → blocks_for len ≤ max_nblock_double_indirect
    → resize_locking id len (s, some id) ≡ ((s, some id), hang)
unfolding resize_locking
resize_locking-held id len s h h' = ground (arith, h, h')

-- Where no lock is held it is `_resize` itself.
resize_locking-free :
    (id len : ℕ) (s : Sfs) → resize_locking id len (s, none) ≡ on_first (resize id len) (s, none)
unfolding resize_locking resize
resize_locking-free id len s = elim (Bool-cases (ltb max_file_size len)) [
  | inl e ↦ ground (arith, e)
  | inr e ↦ elim (Bool-cases (ltb max_nblock_double_indirect (blocks_for len))) [
    | inl e' ↦ ground (arith, e, e')
    | inr e' ↦ ground (arith, e, e')
  ]
]

link_locking-hang :
    (dir child : ℕ) (entry : DiskEntry) (s : Sfs) (n : Dirty DiskINode)
    → s.inodes dir ≡ some n
    → n.value.size + blksize ≤ max_file_size
    → blocks_for (n.value.size + blksize) ≤ max_nblock_double_indirect
    → link_locking dir child entry (s, none) ≡ ((s, some dir), hang)
unfolding link_locking
link_locking-hang dir child entry s n e h h' =
    ap (λ o. and_then (on_first (sized o) (s, some dir)) behind) e
    ∙ ap (λ p. and_then p (λ _. written n.value.size))
        (resize_locking-held dir (n.value.size + blksize) s h h')
  where
    sized : Option (Dirty DiskINode) → SfsAction ℕ
    sized o s = elim o as (λ _. Sfs × Outcome FsError ℕ) [
      | none ↦ (s, panic)
      | some n ↦ (s, ok n.value.size)
    ]

    written : ℕ → LockedAction (Unit {0})
    written old_size = do
      bytes ← must (locking dir (write_content dir old_size (entry_bytes entry)))
      locking child (nlinks_inc child)

    behind : ℕ → LockedAction (Unit {0})
    behind old_size = resize_locking dir (old_size + blksize) >> written old_size

-- Wherever the tests of `link_inodeimpl` let the link pass, the name fits an entry, and the directory
-- could be a block longer, the call waits for ever: `_resize` waits for the lock of the directory,
-- which the call holds. No entry is added: the state is the one behind the tests.
pub link_inodeimpl_lem :
    (dir child : ℕ) (name : Name) (other : Option ℕ) (s s' : Sfs) (entry : DiskEntry)
    (n : Dirty DiskINode)
    → linkable dir name other s ≡ (s', ok child)
    → new_entry child name ≡ ok entry
    → s'.inodes dir ≡ some n
    → n.value.size + blksize ≤ max_file_size
    → blocks_for (n.value.size + blksize) ≤ max_nblock_double_indirect
    → link_inodeimpl dir name other s ≡ (s', hang)
unfolding link_inodeimpl
link_inodeimpl_lem dir child name other s s' entry n pass fits here h h' =
    rw (pass, fits)
      (ap (λ p. let ((t, held), o) = p in (t, o))
        (link_locking-hang dir child entry s' n here h h'))

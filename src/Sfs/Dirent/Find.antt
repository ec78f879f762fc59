-- ===== src/Sfs/Dirent/Find.antt =====
-- The search of a directory by name in rcore-fs-sfs/src/lib.rs.
use rcore_fs.Base.{
  ℕ, zero, suc, ◌+◌, ◌/◌, ◌<◌, ◌≤◌, ◌≡◌, refl, sym, ap, ◌∙◌, true, false, arith, ◌==◌, none, some,
  inl, inr, Bool-cases, Option, if◌then◌else◌,
}
use rcore_fs.Base.Names.{Name, name_eq}
use rcore_fs.Base.Outcome.{ok}
use rcore_fs.Util.Dirty.{Dirty}
use rcore_fs.Sfs.Layout.{DiskINode, dirent_size}
use rcore_fs.Sfs.State.{Sfs}
use rcore_fs.Sfs.Str.{as_str}
use rcore_fs.Sfs.Content.File.{IsFile, content}
use rcore_fs.Sfs.Dirent.{DiskEntry, read_direntry, find_entry, get_file_inode_and_entry_id}
use rcore_fs.Sfs.Dirent.Slots.{slot, read_direntry_lem}

-- What the search of a directory says of the slots from `i` to `end`, whose names are `text`.
pub data Search (text : ℕ → Name) (name : Name) (ids : ℕ → ℕ) (i end : ℕ)
    : Option (ℕ × ℕ) → Type 0 where
  not_there :
      ((k : ℕ) → i ≤ k → k < end → name_eq (text k) name ≡ false) → Search text name ids i end none
  first_at :
      (k : ℕ)
      → i ≤ k
      → k < end
      → name_eq (text k) name ≡ true
      → ((j : ℕ) → i ≤ j → j < k → name_eq (text j) name ≡ false)
      → Search text name ids i end (some (ids k, k))

Search-later :
    (text : ℕ → Name) (name : Name) (ids : ℕ → ℕ) (i end : ℕ) (o : Option (ℕ × ℕ))
    → name_eq (text i) name ≡ false
    → Search text name ids (i + 1) end o
    → Search text name ids i end o
Search-later text name ids i end none other (Search.not_there h) = Search.not_there (λ k p q.
    elim (Bool-cases (i == k)) [
      | inl same ↦
          let e : i ≡ k = ground (arith, same) in ap (λ k. name_eq (text k) name) (sym e) ∙ other
      | inr next ↦ h k (ground (arith, next, p)) q
    ])
Search-later text name ids i end (some _) other (Search.first_at k p q found h) =
    Search.first_at k (omega arith) q found (λ j p' q'. elim (Bool-cases (i == j)) [
      | inl same ↦
          let e : i ≡ j = ground (arith, same) in ap (λ k. name_eq (text k) name) (sym e) ∙ other
      | inr next ↦ h j (ground (arith, next, p')) q'
    ])

-- One round of the loop.
find_entry-step :
    (s : Sfs) (id : ℕ) (name text : Name) (i n : ℕ) (e : DiskEntry) (o : Option (ℕ × ℕ))
    → read_direntry id i s ≡ (s, ok e)
    → as_str e.name ≡ ok text
    → find_entry id name (i + 1) n s ≡ (s, ok o)
    → find_entry id name i (suc n) s ≡ (s, ok (if name_eq text name then some (e.id, i) else o))
unfolding find_entry
find_entry-step s id name text i n e o read named rest = elim (Bool-cases (name_eq text name)) [
  | inl same ↦ ground (arith, read, named, rest, same)
  | inr other ↦ ground (arith, read, named, rest, other)
]

module _ (s : Sfs) (id : ℕ) (n : Dirty DiskINode) (map : ℕ → ℕ) (here : s.inodes id ≡ some n)
    (file : IsFile n.value map s.device) (text : ℕ → Name)
    (named : (k : ℕ)
      → k < n.value.size / dirent_size
      → as_str (slot (content map s.device) k).name ≡ ok (text k))
    (name : Name) where
  abbrev ids : ℕ → ℕ
  ids k = (slot (content map s.device) k).id

  find_entry_lem :
      (i count : ℕ)
      → i + count ≡ n.value.size / dirent_size
      → (o : Option (ℕ × ℕ)) × (find_entry id name i count s ≡ (s, ok o))
        × Search text name ids i (n.value.size / dirent_size) o
  unfolding find_entry
  find_entry_lem i zero h =
      (none, refl, Search.not_there (λ k p q. absurd (omega (arith, h, p, q))))
  find_entry_lem i (suc count) h =
      let (o, run, search) = find_entry_lem (i + 1) count (omega (arith, h)) in
      let read = read_direntry_lem s id n map here file i (omega (arith, h)) in
      let step =
        find_entry-step s id name (text i) i count (slot (content map s.device) i) o read
          (named i (omega (arith, h))) run in
      elim (Bool-cases (name_eq (text i) name)) [
        | inl same ↦ (
          some (ids i, i),
          step ∙ ap (λ b. (s, ok (if b then some (ids i, i) else o))) same,
          Search.first_at i (omega arith) (omega (arith, h)) same
              (λ j p q. absurd (omega (arith, p, q))),
        )
        | inr other ↦ (
          o,
          step ∙ ap (λ b. (s, ok (if b then some (ids i, i) else o))) other,
          Search-later text name ids i (n.value.size / dirent_size) o other search,
        )
      ]

  -- In a directory whose blocks are in place and apart and whose entries all have a name in UTF-8 that
  -- a zero ends, the lookup of a name returns, changes nothing, and gives the inode and the number of
  -- the first entry with that name, or nothing when no entry has it.
  pub get_file_inode_and_entry_id_lem :
      (o : Option (ℕ × ℕ)) × (get_file_inode_and_entry_id id name s ≡ (s, ok o))
      × Search text name ids 0 (n.value.size / dirent_size) o
  unfolding get_file_inode_and_entry_id
  get_file_inode_and_entry_id_lem =
      let (o, run, search) = find_entry_lem 0 (n.value.size / dirent_size) (omega arith) in
      (o, ground (arith, here, run), search)

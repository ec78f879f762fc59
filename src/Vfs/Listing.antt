-- ===== src/Vfs/Listing.antt =====
-- `list` of rcore-fs/src/vfs.rs.
use rcore_fs.Base.{ℕ, zero, suc, ◌+◌, ◌<◌, ◌≡◌, true, some, List, [], ◌∷◌, arith, length}
use rcore_fs.Base.Names.{Name}
use rcore_fs.Base.Outcome.{ok, err}
use rcore_fs.Vfs.{FsError, Metadata, is_dir_type}
use rcore_fs.Vfs.Walk.{NodeCalls, list_from, list}

module _ {S I : Type 0} (calls : NodeCalls S I) (self : I) (s : S) where
  -- The calls of `get_entry` from the number `i` on give these names, and then an error.
  pub data Entries : ℕ → List Name → Type 0 where
    no_more : (i : ℕ) (e : FsError) → calls.get_entry self i s ≡ (s, err e) → Entries i []
    entry :
        (i : ℕ) (name : Name) (names : List Name)
        → calls.get_entry self i s ≡ (s, ok name)
        → Entries (i + 1) names
        → Entries i (name ∷ names)

  list_from_lem :
      (fuel i : ℕ) (names : List Name)
      → Entries i names
      → length names < fuel
      → list_from calls fuel self i s ≡ some (s, ok names)
  unfolding list_from
  list_from_lem zero i names h k = absurd (omega arith)
  list_from_lem (suc fuel) i [] (Entries.no_more _ e end) k = ground (arith, end)
  list_from_lem (suc fuel) i (name ∷ names) (Entries.entry _ _ _ here later) k =
      let rest = list_from_lem fuel (i + 1) names later (omega arith) in ground (arith, here, rest)

  -- Where `get_entry` gives a directory's names one by one and then an error, without a change of the
  -- file system, `list` collects just these names, in that order: the error is the end of the list.
  pub list_lem :
      (fuel : ℕ) (names : List Name) (info : Metadata)
      → calls.metadata self s ≡ (s, ok info)
      → is_dir_type info.type_ ≡ true
      → Entries 0 names
      → length names < fuel
      → list calls fuel self s ≡ some (s, ok names)
  unfolding list
  list_lem fuel names info known dir entries k =
      ground (arith, known, dir, list_from_lem fuel 0 names entries k)

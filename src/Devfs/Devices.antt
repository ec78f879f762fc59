-- ===== src/Devfs/Devices.antt =====
-- The devices that are found in rcore-fs-devfs/src/lib.rs.
use rcore_fs.Base.{
  ◌≡◌, ◌||◌, Bool, false, Option, none, some, List, [], ◌∷◌, arith, if◌then◌else◌, inl, inr,
  Bool-cases, refl, ap, sym, ◌∙◌,
}
use rcore_fs.Base.Names.{
  Name, name_eq, lookup, insert, remove, lookup-insert, lookup-remove, name_eq_iff,
}
use rcore_fs.Base.Outcome.{ok, err}
use rcore_fs.Vfs.{FsError, Result}
use rcore_fs.Devfs.{DevNode, add_dev, remove_dev, find_dev}

abbrev is_dots : Name → Bool
is_dots name = name_eq name (b'.' ∷ []) || name_eq name (b'.' ∷ b'.' ∷ [])

module _ {D : Type 0} (devs : List (Name × D)) where
  not_there :
      (name : Name) → find_dev devs name ≡ err FsError.entry_not_found → lookup name devs ≡ none
  unfolding find_dev
  not_there name e = elim (Bool-cases (is_dots name)) [
    | inl dots ↦ ground (arith, e, dots)
    | inr plain ↦ go (lookup name devs) (step plain ∙ e)
  ]
    where
      seen : Option D → Result (DevNode D)
      seen (some d) = ok (DevNode.device d)
      seen none = err FsError.entry_not_found

      step : is_dots name ≡ false → seen (lookup name devs) ≡ find_dev devs name
      step plain = ground (arith, plain)

      go : (o : Option D) → seen o ≡ err FsError.entry_not_found → o ≡ none
      go none e = refl
      go (some d) e = absurd cc

  not_dots : (name : Name) → find_dev devs name ≡ err FsError.entry_not_found → is_dots name ≡ false
  unfolding find_dev
  not_dots name e = elim (Bool-cases (is_dots name)) [
    | inl dots ↦ ground (arith, e, dots)
    | inr plain ↦ plain
  ]

  found_after :
      (name : Name) (dev : D) (other : Name)
      → is_dots name ≡ false
      → find_dev (insert name dev devs) other
        ≡ (if name_eq name other then ok (DevNode.device dev) else find_dev devs other)
  unfolding find_dev
  found_after name dev other plain = elim (Bool-cases (name_eq name other)) [
    | inl same ↦
        let e : name ≡ other = (name_eq_iff name other).0 same in
        let here : is_dots other ≡ false = ap is_dots (sym e) ∙ plain in
        ground (arith, lookup-insert name other dev devs, here, same)
    | inr different ↦ ground (arith, lookup-insert name other dev devs, different)
  ]

  lookup_back :
      (name : Name) (dev : D)
      → lookup name devs ≡ none
      → (other : Name) → lookup other (remove name (insert name dev devs)) ≡ lookup other devs
  lookup_back name dev free other = elim (Bool-cases (name_eq name other)) [
    | inl same ↦
        let e : name ≡ other = (name_eq_iff name other).0 same in
        let gone : lookup other devs ≡ none = ap (λ k. lookup k devs) (sym e) ∙ free in
        ground (arith, lookup-remove name other (insert name dev devs), same, gone)
    | inr different ↦ ground (
      arith,
      lookup-remove name other (insert name dev devs),
      lookup-insert name other dev devs,
      different,
    )
  ]

  found_back :
      (devs' : List (Name × D)) (other : Name)
      → lookup other devs' ≡ lookup other devs
      → find_dev devs' other ≡ find_dev devs other
  unfolding find_dev
  found_back devs' other e = ground (arith, e)

  -- A device added under a name that is not taken and is neither `.` nor `..` is found under it; every
  -- other name leads where it led, and once the device is removed, every name does.
  pub add_dev_lem :
      (name : Name) (dev : D)
      → find_dev devs name ≡ err FsError.entry_not_found
      → (devs' : List (Name × D)) × (devs'' : List (Name × D)) × (add_dev name dev devs
          ≡ (devs', ok tt))
        × ((other : Name)
            → find_dev devs' other
              ≡ (if name_eq name other then ok (DevNode.device dev) else find_dev devs other))
        × (remove_dev name devs' ≡ (devs'', ok tt))
        × ((other : Name) → find_dev devs'' other ≡ find_dev devs other)
  unfolding find_dev add_dev remove_dev
  add_dev_lem name dev missing =
      let free : lookup name devs ≡ none = not_there name missing in
      let taken : lookup name (insert name dev devs) ≡ some dev =
        ground (arith, lookup-insert name name dev devs, name_eq_iff name name) in
      (
        insert name dev devs,
        remove name (insert name dev devs),
        ground (arith, free),
        λ other. found_after name dev other (not_dots name missing),
        ground (arith, taken),
        λ other.
            found_back (remove name (insert name dev devs)) other (lookup_back name dev free other),
      )

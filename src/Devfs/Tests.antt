-- ===== src/Devfs/Tests.antt =====
-- Tests of rcore-fs-devfs/src/lib.rs.
use rcore_fs.Base.{ℕ, ◌≡◌, refl, List, [], ◌∷◌, if◌then◌else◌}
use rcore_fs.Base.Names.{Name, name_eq, lookup}
use rcore_fs.Base.Outcome.{ok, err}
use rcore_fs.Vfs.{FsError}
use rcore_fs.Devfs.{DevNode, add_dev, remove_dev, find_dev}
use rcore_fs.Devfs.Devices.{add_dev_lem}

-- "null" stands for the device 3.
abbrev one : List (Name × ℕ)
one = (110 ∷ 117 ∷ 108 ∷ 108 ∷ [], 3) ∷ []

abbrev zero_name : Name
zero_name = 122 ∷ 101 ∷ 114 ∷ 111 ∷ []

missing : find_dev one zero_name ≡ err FsError.entry_not_found
unfolding find_dev name_eq lookup
missing = refl

add_dev_lem_example :
    (devs' : List (Name × ℕ)) × (devs'' : List (Name × ℕ)) × (add_dev zero_name 5 one
      ≡ (devs', ok tt))
    × ((other : Name)
        → find_dev devs' other
          ≡ (if name_eq zero_name other then ok (DevNode.device 5) else find_dev one other))
    × (remove_dev zero_name devs' ≡ (devs'', ok tt))
    × ((other : Name) → find_dev devs'' other ≡ find_dev one other)
add_dev_lem_example = add_dev_lem one zero_name 5 missing

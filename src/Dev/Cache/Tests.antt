-- ===== src/Dev/Cache/Tests.antt =====
-- A cache of two buffers over the device of four blocks of the unit tests of rcore-fs/src/dev/mod.rs.
use rcore_fs.Base.{ℕ, ◌≡◌, refl, List, [], ◌∷◌, arith}
use rcore_fs.Base.Outcome.{ok, panic}
use rcore_fs.Dev.Lru.{range, visit, victim}
use rcore_fs.Dev.Cache.{BlockCache, read_at, write_at}
use rcore_fs.Dev.Cache.Coherence.{IsCached}
use rcore_fs.Dev.Cache.Start.{fresh, new_cache-IsCached}
use rcore_fs.Dev.Cache.Calls.{read_at-IsCached}
use rcore_fs.Dev.Cache.Writes.{updated, write_at-IsCached}
use rcore_fs.Dev.Bytes.Tests.{array, block, numbers, numbers-Good, store}

abbrev cache : BlockCache (List (List ℕ))
cache = fresh array store numbers 1

start-IsCached : IsCached array store (block numbers) cache
start-IsCached = (new_cache-IsCached array store numbers 1 numbers-Good).1

read_at-IsCached_example :
    (c' : BlockCache (List (List ℕ))) × (read_at array 2 cache ≡ (c', ok (8 ∷ 9 ∷ 10 ∷ 11 ∷ [])))
    × IsCached array store (block numbers) c'
read_at-IsCached_example =
    read_at-IsCached array store (block numbers) cache 2 start-IsCached (omega arith)

write_at-IsCached_example :
    (c' : BlockCache (List (List ℕ))) × (write_at array 2 (1 ∷ 2 ∷ 3 ∷ 4 ∷ []) cache ≡ (c', ok tt))
    × IsCached array store (updated array store (block numbers) 2 (1 ∷ 2 ∷ 3 ∷ 4 ∷ [])) c'
write_at-IsCached_example =
    write_at-IsCached array store (block numbers) cache 2 (1 ∷ 2 ∷ 3 ∷ 4 ∷ []) start-IsCached
      (omega arith) refl

-- A written block is read back after two others.
thrice :
    (let c1 = (write_at array 0 (9 ∷ 9 ∷ 9 ∷ 9 ∷ []) cache).0 in
      let c2 = (read_at array 1 c1).0 in let c3 = (read_at array 2 c2).0 in (read_at array 0 c3).1)
    ≡ ok (9 ∷ 9 ∷ 9 ∷ 9 ∷ [])
unfolding read_at write_at range visit victim
thrice = refl

-- Writes to blocks outside the device succeed, and the eviction of such a buffer panics.
outside :
    (let c1 = (write_at array 7 (9 ∷ 9 ∷ 9 ∷ 9 ∷ []) cache).0 in
      let c2 = (write_at array 8 (9 ∷ 9 ∷ 9 ∷ 9 ∷ []) c1).0 in (read_at array 2 c2).1)
    ≡ panic
unfolding read_at write_at range visit victim
outside = refl

-- ===== src/Dev/Cache/Calls.antt =====
-- The calls of `BlockCache` (rcore-fs/src/dev/block_cache.rs) as the caller sees them.
use mathlib.Core.Path.{subst}
use rcore_fs.Base.{
  ℕ, zero, suc, ◌+◌, ◌<◌, ◌≡◌, ◌≢◌, ◌⊎◌, inl, inr, refl, sym, ap, ◌∙◌, true, false, some, List, [],
  ◌∷◌, arith, ◌==◌, get_elem?, lt_of_get_elem?, set, length,
}
use rcore_fs.Base.Outcome.{ok}
use rcore_fs.Dev.Interface.{BlockDevice, BlockStore}
use rcore_fs.Dev.Lru.Bounds.{visit-IsRing, victim-IsRing}
use rcore_fs.Dev.Cache.{
  Buf, BufStatus, BlockCache, holds, is_unused, get_unused, locate_buf, touch, get_buf, fill,
  read_at,
}
use rcore_fs.Dev.Cache.Coherence.{IsCached, IsCached-replaced}
use rcore_fs.Dev.Cache.Buffers.{NoBuf, held_by, find_buf-cases, evict_lem}

get_elem?-inside :
    {A : Type 0} (xs : List A) (i : ℕ) → i < length xs → (x : A) × (get_elem? xs i ≡ some x)
get_elem?-inside [] i h = absurd (omega arith)
get_elem?-inside (x ∷ xs) zero h = (x, refl)
get_elem?-inside (x ∷ xs) (suc i) h = get_elem?-inside xs i (omega arith)

module _ {S : Type 0} (dev : BlockDevice S) (store : BlockStore dev) (view : ℕ → List ℕ) where
  -- A buffer for the block `id`: it holds the block, or it is unused and no buffer holds the block.
  abbrev pub ForBlock : (id i : ℕ) → BlockCache S → Type 0
  ForBlock id i c =
      (b : Buf) × (get_elem? c.bufs i ≡ some b)
      × ((holds b.status id ≡ true) ⊎ ((b.status ≡ BufStatus.unused) × NoBuf (held_by id) c.bufs))

  is_unused_sound : (status : BufStatus) → is_unused status ≡ true → status ≡ BufStatus.unused
  is_unused_sound BufStatus.unused h = refl
  is_unused_sound (BufStatus.valid id) h = absurd (cc h)
  is_unused_sound (BufStatus.dirty id) h = absurd (cc h)

  get_unused_lem :
      (c : BlockCache S) (id : ℕ)
      → IsCached dev store view c
      → NoBuf (held_by id) c.bufs
      → (c' : BlockCache S) × (i : ℕ) × (get_unused dev c ≡ (c', ok i))
        × IsCached dev store view c'
        × ForBlock id i c'
  unfolding get_unused
  get_unused_lem c id cached none_holds = elim (find_buf-cases is_unused c.bufs 0) [
    | inl (i, b, found, at_i, free) ↦
        let place : 0 + i ≡ i = omega arith in
        (
          c,
          i,
          ground (arith, found, place),
          cached,
          (b, at_i, inr (is_unused_sound b.status free, none_holds)),
        )
    | inr (found, all) ↦
        let (v, is_victim, inside) =
          victim-IsRing (length c.bufs) c.lru cached.ring cached.nonempty in
        let (b, at_v) = get_elem?-inside c.bufs v inside in
        let (c', b', e, cached', at', free, (no_new, n)) =
          evict_lem dev store view c v b cached at_v in
        (
          c',
          v,
          ground (arith, found, is_victim, e),
          cached',
          (b', at', inr (free, no_new id none_holds)),
        )
  ]

  locate_buf_lem :
      (c : BlockCache S) (id : ℕ)
      → IsCached dev store view c
      → (c' : BlockCache S) × (i : ℕ) × (locate_buf dev id c ≡ (c', ok i))
        × IsCached dev store view c'
        × ForBlock id i c'
  unfolding locate_buf
  locate_buf_lem c id cached = elim (find_buf-cases (λ status. holds status id) c.bufs 0) [
    | inl (i, b, found, at_i, h) ↦ (c, i, ground (arith, found), cached, (b, at_i, inl h))
    | inr (found, all) ↦
        let (c', i, e, cached', for_block) = get_unused_lem c id cached all in
        (c', i, ground (arith, found, e), cached', for_block)
  ]

  pub get_buf_lem :
      (c : BlockCache S) (id : ℕ)
      → IsCached dev store view c
      → (c' : BlockCache S) × (i : ℕ) × (get_buf dev id c ≡ (c', ok i))
        × IsCached dev store view c'
        × ForBlock id i c'
  unfolding get_buf touch
  get_buf_lem c id cached =
      let (c1, i, e1, cached1, (b, at_i, for_block)) = locate_buf_lem c id cached in
      let (lru, e2, ring) =
        visit-IsRing (length c1.bufs) i c1.lru cached1.ring (lt_of_get_elem? c1.bufs i at_i) in
      (
        record c1 { lru = lru },
        i,
        ground (arith, e1, e2),
        record {
          good = cached1.good;
          nonempty = cached1.nonempty;
          ring = ring;
          sized = cached1.sized;
          shown = cached1.shown;
          alone = cached1.alone;
          backed = cached1.backed;
        },
        (b, at_i, for_block),
      )

  -- A block that no buffer holds is on the device as it looks.
  clean_block :
      (c : BlockCache S) (id : ℕ)
      → IsCached dev store view c
      → id < store.blocks
      → NoBuf (held_by id) c.bufs
      → store.block c.device id ≡ view id
  clean_block c id cached inside none_holds = elim (cached.backed id inside) [
    | inl e ↦ e
    | inr (j, b, found, dirty) ↦
        let self : (id == id) ≡ true = ground arith in
        let held : holds b.status id ≡ true = ap (λ x. holds x id) dirty ∙ self in
        absurd (cc (held, none_holds j b found))
  ]

  -- A buffer that is dirty with the block `k` is not the one at `i`.
  pub apart :
      (c : BlockCache S) (k i j : ℕ) (b b' : Buf)
      → get_elem? c.bufs i ≡ some b
      → get_elem? c.bufs j ≡ some b'
      → b'.status ≡ BufStatus.dirty k
      → (holds b.status k ≡ false) ⊎ (b.status ≡ BufStatus.unused)
      → j ≢ i
  apart c k i j b b' at_i found dirty other same =
      let at_j : get_elem? c.bufs j ≡ some b = ap (λ x. get_elem? c.bufs x) same ∙ at_i in
      let equal : b' ≡ b = cc (found, at_j) in
      let is_dirty : b.status ≡ BufStatus.dirty k = ap (λ y. y.status) (sym equal) ∙ dirty in
      let self : (k == k) ≡ true = ground arith in
      let held : holds b.status k ≡ true = ap (λ x. holds x k) is_dirty ∙ self in
      elim other [ inl h ↦ absurd (cc (h, held)) | inr h ↦ absurd (cc (h, is_dirty)) ]

  fill_lem :
      (c : BlockCache S) (id i : ℕ)
      → IsCached dev store view c
      → id < store.blocks
      → ForBlock id i c
      → (c' : BlockCache S) × (fill dev id i c ≡ (c', ok (view id))) × IsCached dev store view c'
  unfolding fill
  fill_lem c id i cached inside (b, at_i, inl h) = go b.status refl
    where
      data_is : b.data_ ≡ view id
      data_is = (cached.shown i b id at_i h).1

      go :
          (status : BufStatus)
          → b.status ≡ status
          → (c' : BlockCache S) × (fill dev id i c ≡ (c', ok (view id)))
            × IsCached dev store view c'
      go BufStatus.unused is = absurd (cc (is, h, ap (λ x. holds x id) is))
      go (BufStatus.valid k) is = (c, ground (arith, at_i, is, data_is), cached)
      go (BufStatus.dirty k) is = (c, ground (arith, at_i, is, data_is), cached)
  fill_lem c id i cached inside (b, at_i, inr (free, none_holds)) =
      let (s, e, good, same) = store.read_in c.device id cached.good inside in
      let xs = store.block c.device id in
      let new : Buf = record { status = BufStatus.valid id; data_ = xs } in
      (
        record c { device = s; bufs = set c.bufs i new },
        ground (arith, at_i, free, e, clean_block c id cached inside none_holds),
        IsCached-replaced dev store c i b new s view view cached at_i good
            (store.length-block c.device id cached.good inside)
            (λ k h.
              let same_id : id ≡ k = ground (arith, h) in
              subst (λ k. (k < store.blocks) × (xs ≡ view k)) same_id
                (inside, clean_block c id cached inside none_holds))
            (λ k. inl refl)
            (λ k j b' h found h'.
              let same_id : id ≡ k = ground (arith, h) in
              let not_held : holds b'.status id ≡ false = none_holds j b' found in
              absurd (cc (not_held, h', ap (λ x. holds b'.status x) same_id)))
            (λ k h. elim (cached.backed k h) [
              | inl e ↦ inl (same k h ∙ e)
              | inr (j, b', found, dirty) ↦
                  inr (inr (j, b', apart c k i j b b' at_i found dirty (inr free), found, dirty))
            ]),
      )

  -- A read of a block of the device through a cache with at least one buffer, whose buffers agree
  -- with `view`, succeeds. It returns the block as it looks through the cache, and leaves the look of
  -- all blocks as it was.
  pub read_at-IsCached :
      (c : BlockCache S) (id : ℕ)
      → IsCached dev store view c
      → id < store.blocks
      → (c' : BlockCache S) × (read_at dev id c ≡ (c', ok (view id))) × IsCached dev store view c'
  unfolding read_at
  read_at-IsCached c id cached inside =
      let (c1, i, e1, cached1, for_block) = get_buf_lem c id cached in
      let (c2, e2, cached2) = fill_lem c1 id i cached1 inside for_block in
      (c2, ground (arith, e1, e2), cached2)

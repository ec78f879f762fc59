-- ===== src/Dev/Cache/Writes.antt =====
-- Writes through `BlockCache` (rcore-fs/src/dev/block_cache.rs).
use rcore_fs.Base.{
  ℕ, zero, suc, ◌^◌, ◌<◌, ◌≡◌, ◌≢◌, ◌⊎◌, inl, inr, refl, ap, ◌∙◌, true, false, some, List, [], ◌∷◌,
  arith, ◌==◌, if◌then◌else◌, get_elem?, set, length, take, Bool-cases,
}
use rcore_fs.Base.Outcome.{ok}
use rcore_fs.Dev.Interface.{BlockDevice, BlockStore}
use rcore_fs.Dev.Cache.{Buf, BufStatus, BlockCache, holds, overwrite, write_at}
use rcore_fs.Dev.Cache.Coherence.{IsCached, IsCached-replaced}
use rcore_fs.Dev.Cache.Buffers.{NoBuf, held_by}
use rcore_fs.Dev.Cache.Calls.{apart, get_buf_lem}

take_all : (n : ℕ) (xs : List ℕ) → length xs ≡ n → take n xs ≡ xs
take_all zero [] e = refl
take_all (suc n) (x ∷ xs) e = ap (λ ys. x ∷ ys) (take_all n xs (omega arith))
take_all zero (x ∷ xs) e = absurd (omega arith)
take_all (suc n) [] e = absurd (omega arith)

holds_other :
    (status : BufStatus) (id k : ℕ)
    → holds status id ≡ true
    → (id == k) ≡ false
    → holds status k ≡ false
holds_other BufStatus.unused id k h other = refl
holds_other (BufStatus.valid m) id k h other = ground (arith, h, other)
holds_other (BufStatus.dirty m) id k h other = ground (arith, h, other)

module _ {S : Type 0} (dev : BlockDevice S) (store : BlockStore dev) (view : ℕ → List ℕ) where
  -- The look of the blocks after a write of `xs` to the block `id`.
  abbrev pub updated : ℕ → List ℕ → ℕ → List ℕ
  updated id xs j = if id == j then xs else view j

  module _ (c : BlockCache S) (id i : ℕ) (xs : List ℕ) (cached : IsCached dev store view c)
      (inside : id < store.blocks) (whole : length xs ≡ 2 ^ dev.block_size_log2) (b : Buf)
      (at_i : get_elem? c.bufs i ≡ some b)
      (for_block : (holds b.status id ≡ true)
        ⊎ ((b.status ≡ BufStatus.unused) × NoBuf (held_by id) c.bufs)) where
    abbrev new : Buf
    new = record { status = BufStatus.dirty id; data_ = xs }

    only_holder :
        (k j : ℕ) (b' : Buf)
        → (id == k) ≡ true
        → get_elem? c.bufs j ≡ some b'
        → holds b'.status k ≡ true
        → j ≡ i
    only_holder k j b' h found h' =
        let same_id : id ≡ k = ground (arith, h) in
        let held : holds b'.status id ≡ true = ap (λ x. holds b'.status x) same_id ∙ h' in
        elim for_block [
          | inl mine ↦ cached.alone j i b' b id found at_i held mine
          | inr (free, none_holds) ↦ absurd (cc (none_holds j b' found, held))
        ]

    not_dirty_with :
        (k : ℕ) → (id == k) ≡ false → (holds b.status k ≡ false) ⊎ (b.status ≡ BufStatus.unused)
    not_dirty_with k other = elim for_block [
      | inl mine ↦ inl (holds_other b.status id k mine other)
      | inr (free, none_holds) ↦ inr free
    ]

    backed_after :
        (k : ℕ)
        → k < store.blocks
        → (store.block c.device k ≡ updated id xs k)
          ⊎ (new.status ≡ BufStatus.dirty k)
          ⊎ ((j : ℕ) × (b' : Buf) × (j ≢ i)
              × (get_elem? c.bufs j ≡ some b')
              × (b'.status ≡ BufStatus.dirty k))
    backed_after k h = elim (Bool-cases (id == k)) [
      | inl same ↦
          let same_id : id ≡ k = ground (arith, same) in inr (inl (ap BufStatus.dirty same_id))
      | inr other ↦ elim (cached.backed k h) [
        | inl e ↦ inl (ground (arith, other, e))
        | inr (j, b', found, dirty) ↦ inr (
            inr (
              j,
              b',
              apart dev store view c k i j b b' at_i found dirty (not_dirty_with k other),
              found,
              dirty,
            ))
      ]
    ]

    same_look : (k : ℕ) → (updated id xs k ≡ view k) ⊎ (holds new.status k ≡ true)
    same_look k = elim (Bool-cases (id == k)) [
      | inl same ↦ inr same
      | inr other ↦ inl (ground (arith, other))
    ]

    shown_after : (k : ℕ) → (id == k) ≡ true → (k < store.blocks) × (xs ≡ updated id xs k)
    shown_after k h = (ground (arith, h), ground (arith, h))

    overwrite_lem :
        (c' : BlockCache S) × (overwrite dev id xs i c ≡ (c', ok tt))
        × IsCached dev store (updated id xs) c'
    unfolding overwrite
    overwrite_lem = (
      record c { bufs = set c.bufs i new },
      ground (arith, at_i, whole, take_all (2 ^ dev.block_size_log2) xs whole),
      IsCached-replaced dev store c i b new c.device view (updated id xs) cached at_i cached.good
          whole shown_after same_look (λ k j b' h found h'. only_holder k j b' h found h')
          backed_after,
    )

  -- A write of a whole block of the device through a cache with at least one buffer, whose buffers
  -- agree with `view`, succeeds. The block then looks as written, all other blocks look as before,
  -- and the buffers agree with that.
  pub write_at-IsCached :
      (c : BlockCache S) (id : ℕ) (xs : List ℕ)
      → IsCached dev store view c
      → id < store.blocks
      → length xs ≡ 2 ^ dev.block_size_log2
      → (c' : BlockCache S) × (write_at dev id xs c ≡ (c', ok tt))
        × IsCached dev store (updated id xs) c'
  unfolding write_at
  write_at-IsCached c id xs cached inside whole =
      let (c1, i, e1, cached1, (b, at_i, for_block)) = get_buf_lem dev store view c id cached in
      let (c2, e2, cached2) = overwrite_lem c1 id i xs cached1 inside whole b at_i for_block in
      (c2, ground (arith, e1, e2), cached2)

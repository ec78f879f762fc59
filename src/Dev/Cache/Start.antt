-- ===== src/Dev/Cache/Start.antt =====
-- A new `BlockCache` (rcore-fs/src/dev/block_cache.rs).
use mathlib.Core.Path.{subst}
use rcore_fs.Base.{
  true, false, ℕ, zero, suc, ◌^◌, ◌≡◌, inl, refl, sym, ap, ◌∙◌, some, arith, get_elem?, length,
  length-replicate, replicate,
}
use rcore_fs.Base.Outcome.{ok}
use rcore_fs.Dev.Interface.{BlockDevice, BlockStore}
use rcore_fs.Dev.Lru.Bounds.{IsRing}
use rcore_fs.Dev.Lru.Start.{fresh_lru, new_lru-IsRing}
use rcore_fs.Dev.Cache.{Buf, BufStatus, BlockCache, holds, new_cache}
use rcore_fs.Dev.Cache.Coherence.{IsCached}

get_elem?-replicate :
    {A : Type 0} (n i : ℕ) (x y : A) → get_elem? (replicate n x) i ≡ some y → y ≡ x
get_elem?-replicate zero i x y e = absurd (cc e)
get_elem?-replicate (suc n) zero x y e = cc e
get_elem?-replicate (suc n) (suc i) x y e = get_elem?-replicate n i x y e

not_held :
    {A : Type 0} (b b' : Buf) (id : ℕ)
    → b ≡ b'
    → b'.status ≡ BufStatus.unused
    → holds b.status id ≡ true
    → A
not_held b b' id same free h =
    let nothing : holds b.status id ≡ false =
      ap (λ x. holds x.status id) same ∙ ap (λ status. holds status id) free in
    absurd (cc (nothing, h))

module _ {S : Type 0} (dev : BlockDevice S) (store : BlockStore dev) where
  abbrev pub empty : Buf
  empty = record { status = BufStatus.unused; data_ = replicate (2 ^ dev.block_size_log2) 0 }

  abbrev pub fresh : S → (n : ℕ) → BlockCache S
  fresh s n = record { device = s; bufs = replicate (suc n) empty; lru = fresh_lru n }

  unused_all : (n i : ℕ) (b : Buf) → get_elem? (replicate (suc n) empty) i ≡ some b → b ≡ empty
  unused_all n i b found = get_elem?-replicate (suc n) i empty b found

  -- A new cache of at least one buffer shows the blocks as they are on the device.
  pub new_cache-IsCached :
      (s : S) (n : ℕ)
      → store.Good s
      → (new_cache dev s (suc n) ≡ ok (fresh s n)) × IsCached dev store (store.block s) (fresh s n)
  unfolding new_cache
  new_cache-IsCached s n good =
      let (e, ring) = new_lru-IsRing n in
      let count = length-replicate (suc n) empty in
      (
        ground (arith, e),
        record {
          good = good;
          nonempty = omega (arith, count);
          ring = subst (λ k. IsRing k (fresh_lru n)) (sym count) ring;
          sized = λ i b found.
              ap (λ x. length x.data_) (unused_all n i b found)
              ∙ length-replicate {A = ℕ} (2 ^ dev.block_size_log2) 0;
          shown = λ i b id found h. not_held b empty id (unused_all n i b found) refl h;
          alone =
              λ i j b b' id found found' h h'. not_held b empty id (unused_all n i b found) refl h;
          backed = λ id h. inl refl;
        },
      )

-- ===== src/Dev/Cache/Coherence.antt =====
-- What the buffers of `BlockCache` (rcore-fs/src/dev/block_cache.rs) have to do with the blocks.
use mathlib.Core.Path.{subst}
use rcore_fs.Base.{
  ℕ, ◌^◌, ◌<◌, ◌≡◌, ◌≢◌, ◌⊎◌, inl, inr, sym, ap, ◌∙◌, true, some, List, arith, ◌==◌, get_elem?,
  get_elem?-set_self, get_elem?-set_ne, lt_of_get_elem?, set, length, length-set, Bool-cases,
}
use rcore_fs.Dev.Interface.{BlockDevice, BlockStore}
use rcore_fs.Dev.Lru.Bounds.{IsRing}
use rcore_fs.Dev.Cache.{Buf, BufStatus, BlockCache, holds}

-- What stands in a list in which one entry was replaced.
pub set-cases :
    {A : Type 0} (xs : List A) (i j : ℕ) (v w : A)
    → get_elem? (set xs i v) j ≡ some w
    → i < length xs
    → ((j ≡ i) × (w ≡ v)) ⊎ ((j ≢ i) × (get_elem? xs j ≡ some w))
set-cases xs i j v w found inside = elim (Bool-cases (i == j)) [
  | inl same ↦
      let e : i ≡ j = ground (arith, same) in
      let there : get_elem? (set xs i v) j ≡ some v =
        ap (λ k. get_elem? (set xs i v) k) (sym e) ∙ get_elem?-set_self xs i v inside in
      inl (sym e, cc (found, there))
  | inr other ↦
      let ne : i ≢ j = λ e. ground (arith, other, e) in
      inr (λ e. ne (sym e), sym (get_elem?-set_ne xs v ne) ∙ found)
]

module _ {S : Type 0} (dev : BlockDevice S) (store : BlockStore dev) where
  -- A cache through which the blocks look like `view`: a buffer that holds a block holds it as it
  -- looks and is the only one that does, and a block that the device has otherwise is in a buffer
  -- that is marked dirty.
  pub record IsCached (view : ℕ → List ℕ) (c : BlockCache S) : Type 0 where
    pub good : store.Good c.device
    pub nonempty : 0 < length c.bufs
    pub ring : IsRing (length c.bufs) c.lru
    pub sized :
        (i : ℕ) (b : Buf) → get_elem? c.bufs i ≡ some b → length b.data_ ≡ 2 ^ dev.block_size_log2
    pub shown :
        (i : ℕ) (b : Buf) (id : ℕ)
        → get_elem? c.bufs i ≡ some b
        → holds b.status id ≡ true
        → (id < store.blocks) × (b.data_ ≡ view id)
    pub alone :
        (i j : ℕ) (b b' : Buf) (id : ℕ)
        → get_elem? c.bufs i ≡ some b
        → get_elem? c.bufs j ≡ some b'
        → holds b.status id ≡ true
        → holds b'.status id ≡ true
        → i ≡ j
    pub backed :
        (id : ℕ)
        → id < store.blocks
        → (store.block c.device id ≡ view id)
          ⊎ ((i : ℕ) × (b : Buf) × (get_elem? c.bufs i ≡ some b) × (b.status ≡ BufStatus.dirty id))

  module _ (c : BlockCache S) (i : ℕ) (b new : Buf) (s : S) (view view' : ℕ → List ℕ)
      (cached : IsCached view c) (at_i : get_elem? c.bufs i ≡ some b) (good' : store.Good s)
      (size_new : length new.data_ ≡ 2 ^ dev.block_size_log2)
      (shown_new : (id : ℕ)
        → holds new.status id ≡ true
        → (id < store.blocks) × (new.data_ ≡ view' id))
      (same_view : (id : ℕ) → (view' id ≡ view id) ⊎ (holds new.status id ≡ true))
      (alone_new : (id j : ℕ) (b' : Buf)
        → holds new.status id ≡ true
        → get_elem? c.bufs j ≡ some b'
        → holds b'.status id ≡ true
        → j ≡ i)
      (backed_new : (id : ℕ)
        → id < store.blocks
        → (store.block s id ≡ view' id)
          ⊎ (new.status ≡ BufStatus.dirty id)
          ⊎ ((j : ℕ) × (b' : Buf) × (j ≢ i)
              × (get_elem? c.bufs j ≡ some b')
              × (b'.status ≡ BufStatus.dirty id))) where
    abbrev pub replaced : BlockCache S
    replaced = record c { device = s; bufs = set c.bufs i new }

    inside : i < length c.bufs
    inside = lt_of_get_elem? c.bufs i at_i

    at_new : get_elem? replaced.bufs i ≡ some new
    at_new = get_elem?-set_self c.bufs i new inside

    shown_here :
        (j : ℕ) (b' : Buf) (id : ℕ)
        → b' ≡ new
        → holds b'.status id ≡ true
        → (id < store.blocks) × (b'.data_ ≡ view' id)
    shown_here j b' id same h =
        subst (λ x. (id < store.blocks) × (x.data_ ≡ view' id)) (sym same)
          (shown_new id (ap (λ x. holds x.status id) (sym same) ∙ h))

    shown_there :
        (j : ℕ) (b' : Buf) (id : ℕ)
        → j ≢ i
        → get_elem? c.bufs j ≡ some b'
        → holds b'.status id ≡ true
        → (id < store.blocks) × (b'.data_ ≡ view' id)
    shown_there j b' id ne old h =
        let (small, same) = cached.shown j b' id old h in
        elim (same_view id) [
          | inl e ↦ (small, same ∙ sym e)
          | inr taken ↦ absurd (ne (alone_new id j b' taken old h))
        ]

    alone_after :
        (j k : ℕ) (x y : Buf) (id : ℕ)
        → get_elem? replaced.bufs j ≡ some x
        → get_elem? replaced.bufs k ≡ some y
        → holds x.status id ≡ true
        → holds y.status id ≡ true
        → j ≡ k
    alone_after j k x y id at_j at_k hx hy = elim (set-cases c.bufs i j new x at_j inside) [
      | inl (e, same) ↦ elim (set-cases c.bufs i k new y at_k inside) [
        | inl (e', same') ↦ e ∙ sym e'
        | inr (ne', old') ↦
            absurd (ne' (alone_new id k y (ap (λ x. holds x.status id) (sym same) ∙ hx) old' hy))
      ]
      | inr (ne, old) ↦ elim (set-cases c.bufs i k new y at_k inside) [
        | inl (e', same') ↦
            absurd (ne (alone_new id j x (ap (λ x. holds x.status id) (sym same') ∙ hy) old hx))
        | inr (ne', old') ↦ cached.alone j k x y id old old' hx hy
      ]
    ]

    -- One buffer and the device are replaced.
    pub IsCached-replaced : IsCached view' replaced
    IsCached-replaced = record {
      good = good';
      nonempty = omega (arith, length-set c.bufs i new, cached.nonempty);
      ring = subst (λ n. IsRing n c.lru) (sym (length-set c.bufs i new)) cached.ring;
      sized = λ j b' found. elim (set-cases c.bufs i j new b' found inside) [
        | inl (e, same) ↦ ap (λ x. length x.data_) same ∙ size_new
        | inr (ne, old) ↦ cached.sized j b' old
      ];
      shown = λ j b' id found h. elim (set-cases c.bufs i j new b' found inside) [
        | inl (e, same) ↦ shown_here j b' id same h
        | inr (ne, old) ↦ shown_there j b' id ne old h
      ];
      alone = λ j k x y id at_j at_k hx hy. alone_after j k x y id at_j at_k hx hy;
      backed = λ id h. elim (backed_new id h) [
        | inl e ↦ inl e
        | inr (inl e) ↦ inr (i, new, at_new, e)
        | inr (inr (j, b', ne, found, e)) ↦
            inr (j, b', get_elem?-set_ne c.bufs new (λ e. ne (sym e)) ∙ found, e)
      ];
    }

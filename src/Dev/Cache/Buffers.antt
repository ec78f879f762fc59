-- ===== src/Dev/Cache/Buffers.antt =====
-- How `BlockCache` of rcore-fs/src/dev/block_cache.rs finds a buffer, and frees one.
use rcore_fs.Base.{
  ℕ, zero, suc, ◌+◌, ◌<◌, ◌≡◌, ◌≢◌, ◌⊎◌, inl, inr, refl, sym, ap, ◌∙◌, Bool, true, false, none,
  some, List, [], ◌∷◌, arith, ◌==◌, if◌then◌else◌, get_elem?, get_elem?-set_self, lt_of_get_elem?,
  set, length, length-set, Bool-cases,
}
use rcore_fs.Base.Outcome.{ok}
use rcore_fs.Dev.Interface.{BlockDevice, BlockStore}
use rcore_fs.Dev.Cache.{Buf, BufStatus, BlockCache, holds, find_buf, write_back, evict}
use rcore_fs.Dev.Cache.Coherence.{set-cases, IsCached, IsCached-replaced}

-- No buffer passes a test.
abbrev pub NoBuf : (BufStatus → Bool) → List Buf → Type 0
NoBuf test bs = (i : ℕ) (b : Buf) → get_elem? bs i ≡ some b → test b.status ≡ false

NoBuf-cons :
    (test : BufStatus → Bool) (x : Buf) (bs : List Buf)
    → test x.status ≡ false
    → NoBuf test bs
    → NoBuf test (x ∷ bs)
NoBuf-cons test x bs fails all zero b e =
    let same : x ≡ b = cc e in ap (λ y. test y.status) (sym same) ∙ fails
NoBuf-cons test x bs fails all (suc i) b e = all i b e

pub find_buf-cases :
    (test : BufStatus → Bool) (bs : List Buf) (k : ℕ)
    → ((i : ℕ) × (b : Buf) × (find_buf test bs k ≡ some (k + i))
        × (get_elem? bs i ≡ some b)
        × (test b.status ≡ true))
      ⊎ ((find_buf test bs k ≡ none) × NoBuf test bs)
unfolding find_buf
find_buf-cases test [] k = inr (refl, λ i b e. absurd (cc e))
find_buf-cases test (x ∷ bs) k = elim (Bool-cases (test x.status)) [
  | inl passes ↦
      let here : k ≡ k + 0 = omega arith in inl (0, x, ground (arith, passes), refl, passes)
  | inr fails ↦ elim (find_buf-cases test bs (k + 1)) [
    | inl (i, b, found, at_i, e) ↦
        let place : k + 1 + i ≡ k + suc i = omega arith in
        inl (suc i, b, ground (arith, fails, found), at_i, e)
    | inr (found, all) ↦ inr (ground (arith, fails, found), NoBuf-cons test x bs fails all)
  ]
]

abbrev pub held_by : ℕ → BufStatus → Bool
held_by id status = holds status id

-- A buffer is replaced, and the new one does not pass the test either.
pub NoBuf-set :
    (test : BufStatus → Bool) (bs : List Buf) (i : ℕ) (b new : Buf)
    → get_elem? bs i ≡ some b
    → test new.status ≡ false
    → NoBuf test bs
    → NoBuf test (set bs i new)
NoBuf-set test bs i b new at_i fails all j x found =
    elim (set-cases bs i j new x found (lt_of_get_elem? bs i at_i)) [
      | inl (e, same) ↦ ap (λ y. test y.status) same ∙ fails
      | inr (ne, old) ↦ all j x old
    ]

module _ {S : Type 0} (dev : BlockDevice S) (store : BlockStore dev) (view : ℕ → List ℕ) where
  -- What freeing a buffer keeps: no block gets into a buffer by it.
  abbrev pub NoNew : (c c' : BlockCache S) → Type 0
  NoNew c c' =
      ((id : ℕ) → NoBuf (held_by id) c.bufs → NoBuf (held_by id) c'.bufs)
      × (length c'.bufs ≡ length c.bufs)

  module _ (c : BlockCache S) (i : ℕ) (b : Buf) (cached : IsCached dev store view c)
      (at_i : get_elem? c.bufs i ≡ some b) where
    -- A dirty buffer is written to the device.
    module _ (k : ℕ) (is_dirty : b.status ≡ BufStatus.dirty k) where
      held : (id : ℕ) → holds b.status id ≡ (k == id)
      held id = ap (λ status. holds status id) is_dirty

      here : k < store.blocks
      here = (cached.shown i b k at_i (held k ∙ ground arith)).0

      other_dirty :
          (j id : ℕ) (b' : Buf)
          → get_elem? c.bufs j ≡ some b'
          → b'.status ≡ BufStatus.dirty id
          → (k == id) ≡ false
          → j ≢ i
      other_dirty j id b' found is_dirty' ne same =
          let at_j : get_elem? c.bufs j ≡ some b = ap (λ x. get_elem? c.bufs x) same ∙ at_i in
          let equal : b' ≡ b = cc (found, at_j) in
          let self : (id == id) ≡ true = ground arith in
          let h : holds b.status id ≡ true =
            ap (λ y. holds y.status id) (sym equal) ∙ (ap (λ x. holds x id) is_dirty' ∙ self) in
          absurd (cc (held id, h, ne))

      written :
          (s : S)
          → store.Good s
          → ((j : ℕ)
              → j < store.blocks
              → store.block s j ≡ (if k == j then b.data_ else store.block c.device j))
          → IsCached dev store view (record c {
            device = s;
            bufs = set c.bufs i (record b { status = BufStatus.valid k });
          })
      written s good changed =
          IsCached-replaced dev store c i b (record b { status = BufStatus.valid k }) s view view
            cached at_i good (cached.sized i b at_i)
            (λ id h. cached.shown i b id at_i (held id ∙ h)) (λ id. inl refl)
            (λ id j b' h found h'. cached.alone j i b' b id found at_i h' (held id ∙ h))
            (λ id inside. elim (Bool-cases (k == id)) [
              | inl same ↦
                  let (small, shown) = cached.shown i b id at_i (held id ∙ same) in
                  inl (ground (arith, changed id inside, same, shown))
              | inr other ↦
                  let as_before : store.block s id ≡ store.block c.device id =
                    ground (arith, changed id inside, other) in
                  elim (cached.backed id inside) [
                    | inl e ↦ inl (as_before ∙ e)
                    | inr (j, b', found, dirty_too) ↦
                        inr
                          (inr (j, b', other_dirty j id b' found dirty_too other, found, dirty_too))
                  ]
            ])

      write_back-dirty :
          (c' : BlockCache S) × (b' : Buf) × (write_back dev i c ≡ (c', ok tt))
          × IsCached dev store view c'
          × (get_elem? c'.bufs i ≡ some b')
          × ((id : ℕ) → b'.status ≢ BufStatus.dirty id)
          × NoNew c c'
      unfolding write_back
      write_back-dirty =
          let (s, e, good, changed) =
            store.write_in c.device k b.data_ cached.good here (cached.sized i b at_i) in
          let new : Buf = record b { status = BufStatus.valid k } in
          (
            record c { device = s; bufs = set c.bufs i new },
            new,
            ground (arith, at_i, is_dirty, e),
            written s good changed,
            get_elem?-set_self c.bufs i new (lt_of_get_elem? c.bufs i at_i),
            λ id h. cc h,
            (
              λ id all.
                  NoBuf-set (held_by id) c.bufs i b new at_i (sym (held id) ∙ all i b at_i) all,
              length-set c.bufs i new,
            ),
          )

    -- Writing a buffer back keeps the look of the blocks, and the buffer is not dirty any more.
    pub write_back_lem :
        (c' : BlockCache S) × (b' : Buf) × (write_back dev i c ≡ (c', ok tt))
        × IsCached dev store view c'
        × (get_elem? c'.bufs i ≡ some b')
        × ((id : ℕ) → b'.status ≢ BufStatus.dirty id)
        × NoNew c c'
    unfolding write_back
    write_back_lem = go b.status refl
      where
        go :
            (status : BufStatus)
            → b.status ≡ status
            → (c' : BlockCache S) × (b' : Buf) × (write_back dev i c ≡ (c', ok tt))
              × IsCached dev store view c'
              × (get_elem? c'.bufs i ≡ some b')
              × ((id : ℕ) → b'.status ≢ BufStatus.dirty id)
              × NoNew c c'
        go BufStatus.unused is =
            (c, b, ground (arith, at_i, is), cached, at_i, λ id e. cc (is, e), (λ id h. h, refl))
        go (BufStatus.valid k) is =
            (c, b, ground (arith, at_i, is), cached, at_i, λ id e. cc (is, e), (λ id h. h, refl))
        go (BufStatus.dirty k) is = write_back-dirty k is

    -- A buffer that is not dirty may be given up.
    discarded :
        ((id : ℕ) → b.status ≢ BufStatus.dirty id)
        → IsCached dev store view
            (record c { bufs = set c.bufs i (record b { status = BufStatus.unused }) })
    discarded clean =
        IsCached-replaced dev store c i b (record b { status = BufStatus.unused }) c.device view
          view cached at_i cached.good (cached.sized i b at_i) (λ id h. absurd (cc h))
          (λ id. inl refl) (λ id j b' h found h'. absurd (cc h))
          (λ id inside. elim (cached.backed id inside) [
            | inl e ↦ inl e
            | inr (j, b', found, dirty) ↦ inr (
                inr (
                  j,
                  b',
                  (λ same.
                      let at_j : get_elem? c.bufs j ≡ some b =
                        ap (λ x. get_elem? c.bufs x) same ∙ at_i in
                      let equal : b' ≡ b = cc (found, at_j) in
                      clean id (ap (λ y. y.status) (sym equal) ∙ dirty)),
                  found,
                  dirty,
                ))
          ])

  -- The victim is unused afterwards, and the blocks look as before.
  pub evict_lem :
      (c : BlockCache S) (i : ℕ) (b : Buf)
      → IsCached dev store view c
      → get_elem? c.bufs i ≡ some b
      → (c' : BlockCache S) × (b' : Buf) × (evict dev i c ≡ (c', ok i))
        × IsCached dev store view c'
        × (get_elem? c'.bufs i ≡ some b')
        × (b'.status ≡ BufStatus.unused)
        × NoNew c c'
  unfolding evict
  evict_lem c i b cached at_i =
      let (c1, b1, e1, cached1, at1, clean, (no_new, n)) = write_back_lem c i b cached at_i in
      let new : Buf = record b1 { status = BufStatus.unused } in
      (
        record c1 { bufs = set c1.bufs i new },
        new,
        ground (arith, e1, at1),
        discarded c1 i b1 cached1 at1 clean,
        get_elem?-set_self c1.bufs i new (lt_of_get_elem? c1.bufs i at1),
        refl,
        (
          λ id all. NoBuf-set (held_by id) c1.bufs i b1 new at1 refl (no_new id all),
          length-set c1.bufs i new ∙ n,
        ),
      )

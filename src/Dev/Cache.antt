-- ===== src/Dev/Cache.antt =====
-- `BlockCache` of rcore-fs/src/dev/block_cache.rs: a block device over a block device, with buffers.
-- Calls do not overlap, so every `try_lock` on a buffer succeeds.
pub mod Coherence
pub mod Buffers
pub mod Calls
pub mod Writes
pub mod Start
mod Tests
use rcore_fs.Base.{
  ℕ, zero, suc, ◌+◌, ◌^◌, Bool, true, false, Option, none, some, List, [], ◌∷◌, leb, ◌==◌,
  if◌then◌else◌, get_elem?, set, length, take, replicate,
}
use rcore_fs.Base.Outcome.{Outcome, Action, ok, err, panic, hang, crash, and_then, ◌>>=◌, ◌>>◌}
use rcore_fs.Dev.Interface.{BlockDevice, DevError, dev_error}
use rcore_fs.Dev.Lru.{Lru, new_lru, visit, victim}

pub data BufStatus : Type 0 where
  unused : BufStatus
  valid dirty : ℕ → BufStatus

pub record Buf : Type 0 where
  pub status : BufStatus
  pub data_ : List ℕ

pub record BlockCache (S : Type 0) : Type 0 where
  pub device : S
  pub bufs : List Buf
  pub lru : Lru

abbrev pub holds : BufStatus → ℕ → Bool
holds unused block_id = false
holds (valid id) block_id = id == block_id
holds (dirty id) block_id = id == block_id

abbrev pub is_unused : BufStatus → Bool
is_unused unused = true
is_unused (valid id) = false
is_unused (dirty id) = false

-- The first buffer whose status passes a test, from the number `i` on.
pub find_buf : (BufStatus → Bool) → List Buf → ℕ → Option ℕ
find_buf test [] i = none
find_buf test (b ∷ bs) i =
    let rest = find_buf test bs (i + 1) in if test b.status then some i else rest

abbrev pub put_buf : {S : Type 0} → BlockCache S → ℕ → Buf → BlockCache S
put_buf c i b = record c { bufs = set c.bufs i b }

-- A call on the buffer at `i`; an index out of range panics.
abbrev pub with_buf :
    {S A : Type 0} → ℕ → (Buf → Action (BlockCache S) DevError A) → Action (BlockCache S) DevError A
with_buf i k c = elim (get_elem? c.bufs i) [ none ↦ (c, panic) | some b ↦ k b c ]

-- A call of the device below.
abbrev pub on_device : {S A : Type 0} → Action S DevError A → Action (BlockCache S) DevError A
on_device call c = let (s, result) = call c.device in (record c { device = s }, result)

-- `expect`.
abbrev pub expect : {A : Type 0} → Outcome DevError A → Outcome DevError A
expect (ok a) = ok a
expect (err e) = panic
expect panic = panic
expect hang = hang

module _ {S : Type 0} (dev : BlockDevice S) where
  -- `BlockCache::new`.
  pub new_cache : S → (capacity : ℕ) → Outcome DevError (BlockCache S)
  new_cache s capacity = elim (new_lru capacity) [
    | ok lru ↦ ok (record {
      device = s;
      bufs =
          replicate capacity
            (record { status = unused; data_ = replicate (2 ^ dev.block_size_log2) 0 });
      lru = lru;
    })
    | err e ↦ err e
    | panic ↦ panic
    | hang ↦ hang
  ]

  -- `write_back` of the buffer at `i`.
  pub write_back : ℕ → Action (BlockCache S) DevError (Unit {0})
  write_back i = with_buf i λ b. elim b.status [
    | unused ↦ (λ c. (c, ok tt))
    | valid id ↦ (λ c. (c, ok tt))
    | dirty id ↦ (do
      on_device (dev.write_at id b.data_)
      λ c. (put_buf c i (record b { status = valid id }), ok tt))
  ]

  -- The buffer at `victim_id`, written back and marked unused.
  pub evict : ℕ → Action (BlockCache S) DevError ℕ
  unfolding write_back
  evict victim_id = do
    λ c. let (c', result) = write_back victim_id c in (c', expect result)
    with_buf victim_id λ b c. (put_buf c victim_id (record b { status = unused }), ok victim_id)

  pub get_unused : Action (BlockCache S) DevError ℕ
  unfolding find_buf evict
  get_unused c = elim (find_buf is_unused c.bufs 0) [
    | some i ↦ (c, ok i)
    | none ↦ and_then (c, victim c.lru) evict
  ]

  -- `_get_buf`.
  pub locate_buf : ℕ → Action (BlockCache S) DevError ℕ
  unfolding get_unused
  locate_buf block_id c = elim (find_buf (λ status. holds status block_id) c.bufs 0) [
    | some i ↦ (c, ok i)
    | none ↦ get_unused c
  ]

  pub touch : ℕ → Action (BlockCache S) DevError ℕ
  touch i c = and_then (c, visit i c.lru) (λ lru c. (record c { lru = lru }, ok i))

  pub get_buf : ℕ → Action (BlockCache S) DevError ℕ
  unfolding locate_buf touch
  get_buf block_id = do i ← locate_buf block_id; touch i

  -- The buffer at `i`, filled from the device if it is unused.
  pub fill : ℕ → ℕ → Action (BlockCache S) DevError (List ℕ)
  fill block_id i = with_buf i λ b. elim b.status [
    | unused ↦ (do
      xs ← on_device (dev.read_at block_id)
      λ c. (put_buf c i (record { status = valid block_id; data_ = xs }), ok xs))
    | valid id ↦ (λ c. (c, ok b.data_))
    | dirty id ↦ (λ c. (c, ok b.data_))
  ]

  unfoldable pub read_at : ℕ → Action (BlockCache S) DevError (List ℕ)
  unfolding get_buf fill
  read_at block_id = do i ← get_buf block_id; fill block_id i

  -- The status is set before the copy, which panics where the slice is too short.
  pub overwrite : ℕ → List ℕ → ℕ → Action (BlockCache S) DevError (Unit {0})
  overwrite block_id xs i = with_buf i λ b c.
      if leb (2 ^ dev.block_size_log2) (length xs)
      then (
        put_buf c i (record { status = dirty block_id; data_ = take (2 ^ dev.block_size_log2) xs }),
        ok tt,
      )
      else (put_buf c i (record b { status = dirty block_id }), panic)

  unfoldable pub write_at : ℕ → List ℕ → Action (BlockCache S) DevError (Unit {0})
  unfolding get_buf overwrite
  write_at block_id xs = do i ← get_buf block_id; overwrite block_id xs i

  -- The loop of `sync`, over the buffers from `i` on.
  pub write_back_all : (i n : ℕ) → Action (BlockCache S) DevError (Unit {0})
  unfolding write_back
  write_back_all i zero c = (c, ok tt)
  write_back_all i (suc n) c = and_then (write_back i c) (λ x. write_back_all (i + 1) n)

  unfoldable pub sync : Action (BlockCache S) DevError (Unit {0})
  unfolding write_back_all
  sync c = and_then (write_back_all 0 (length c.bufs) c) (λ x. on_device dev.sync)

  -- `BlockCache` as a `BlockDevice`.
  abbrev pub cached : BlockDevice (BlockCache S)
  cached = record {
    block_size_log2 = dev.block_size_log2;
    read_at = read_at;
    write_at = write_at;
    sync = sync;
  }

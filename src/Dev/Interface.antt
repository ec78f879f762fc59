-- ===== src/Dev/Interface.antt =====
-- The trait `BlockDevice` of rcore-fs/src/dev/mod.rs, and what it promises. The devices themselves are
-- not of this crate.
use rcore_fs.Base.{ℕ, ◌^◌, ◌≤◌, ◌<◌, ◌≡◌, List, ◌==◌, if◌then◌else◌, length}
use rcore_fs.Base.Outcome.{Action, ok, err}

pub data DevError : Type 0 where
  dev_error : DevError

-- A device keeps a state `S`, which a read may change too: a device may be a cache. A read gives back
-- the block that it puts at the start of the buffer; a write takes the block at the start of its own.
-- A read that fails leaves the buffer alone.
pub record BlockDevice (S : Type 0) : Type 0 where
  pub block_size_log2 : ℕ
  pub read_at : ℕ → Action S DevError (List ℕ)
  pub write_at : ℕ → List ℕ → Action S DevError (Unit {0})
  pub sync : Action S DevError (Unit {0})

-- A device of `blocks` blocks in which a block keeps what was written to it last: a call at another
-- number fails, and no call changes another block.
pub record BlockStore {S : Type 0} (dev : BlockDevice S) : Type 1 where
  pub blocks : ℕ
  pub Good : S → Type 0
  pub block : S → ℕ → List ℕ
  pub length-block :
      (s : S) (id : ℕ) → Good s → id < blocks → length (block s id) ≡ 2 ^ dev.block_size_log2
  pub read_in :
      (s : S) (id : ℕ)
      → Good s
      → id < blocks
      → (s' : S) × (dev.read_at id s ≡ (s', ok (block s id)))
        × Good s'
        × ((j : ℕ) → j < blocks → block s' j ≡ block s j)
  pub read_out :
      (s : S) (id : ℕ)
      → Good s
      → blocks ≤ id
      → (s' : S) × (dev.read_at id s ≡ (s', err dev_error))
        × Good s'
        × ((j : ℕ) → j < blocks → block s' j ≡ block s j)
  pub write_in :
      (s : S) (id : ℕ) (xs : List ℕ)
      → Good s
      → id < blocks
      → length xs ≡ 2 ^ dev.block_size_log2
      → (s' : S) × (dev.write_at id xs s ≡ (s', ok tt))
        × Good s'
        × ((j : ℕ) → j < blocks → block s' j ≡ (if id == j then xs else block s j))
  pub write_out :
      (s : S) (id : ℕ) (xs : List ℕ)
      → Good s
      → blocks ≤ id
      → length xs ≡ 2 ^ dev.block_size_log2
      → (s' : S) × (dev.write_at id xs s ≡ (s', err dev_error))
        × Good s'
        × ((j : ℕ) → j < blocks → block s' j ≡ block s j)

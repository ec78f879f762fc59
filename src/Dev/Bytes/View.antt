-- ===== src/Dev/Bytes/View.antt =====
-- The bytes of a block device, seen as one array.
use native.Mathlib.Nat.{
  add-mul-div_right, div-eq_of_lt, add_comm, add-mul-mod_self_right, mod-eq_of_lt, mul-le-mul_right,
  div-mul-le_self,
}
use native.Mathlib.Decide.{dec_lt}
use rcore_fs.Base.{ℕ, ◌+◌, ◌*◌, ◌/◌, ◌%◌, ◌^◌, ◌≤◌, ◌<◌, ◌≡◌, ap, ap₂, arith, get_or}
use rcore_fs.Dev.Interface.{BlockDevice, BlockStore}

quotient : (s q x : ℕ) → x < s → (q * s + x) / s ≡ q
quotient s q x h =
    rw (add_comm (q * s) x, add-mul-div_right x q {z = s} (omega arith), div-eq_of_lt h)
      (omega arith)

remainder : (s q x : ℕ) → x < s → (q * s + x) % s ≡ x
remainder s q x h =
    rw (add_comm (q * s) x, add-mul-mod_self_right x q s, mod-eq_of_lt h) (omega arith)

module _ {S : Type 0} (dev : BlockDevice S) (store : BlockStore dev) where
  abbrev pub size : ℕ
  size = 2 ^ dev.block_size_log2

  -- The bytes of the device.
  abbrev pub capacity : ℕ
  capacity = store.blocks * size

  abbrev pub byte : S → ℕ → ℕ
  byte s x = get_or (store.block s (x / size)) (x % size) 0

  pub byte-block :
      (s : S) (q k : ℕ) → k < size → byte s (q * size + k) ≡ get_or (store.block s q) k 0
  byte-block s q k h =
      ap₂ (λ a b. get_or (store.block s a) b 0) (quotient size q k h) (remainder size q k h)

  -- A block inside the device ends inside it, and one outside begins outside.
  pub block_inside : (q : ℕ) → q < store.blocks → q * size + size ≤ capacity
  block_inside q h =
      let below : q + 1 ≤ store.blocks = omega arith in omega (arith, mul-le-mul_right size below)

  pub block_outside : (q : ℕ) → store.blocks ≤ q → capacity ≤ q * size
  block_outside q h = mul-le-mul_right size h

  abbrev pub SameBlocks : S → S → Type 0
  SameBlocks s t = (j : ℕ) → j < store.blocks → store.block t j ≡ store.block s j

  pub block_of_byte : (x : ℕ) → x < capacity → x / size < store.blocks
  block_of_byte x h = elim (dec_lt (x / size) store.blocks) [
    | yes p ↦ p
    | no p ↦ absurd (omega (arith, block_outside (x / size) (omega arith), div-mul-le_self x size))
  ]

  pub SameBlocks-byte : {s t : S} (x : ℕ) → SameBlocks s t → x < capacity → byte t x ≡ byte s x
  SameBlocks-byte x same h = ap (λ xs. get_or xs (x % size) 0) (same (x / size) (block_of_byte x h))

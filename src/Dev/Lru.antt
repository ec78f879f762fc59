-- ===== src/Dev/Lru.antt =====
-- The list of buffers in the order of their use: `LRU` of rcore-fs/src/dev/block_cache.rs.
pub mod Bounds
pub mod Start
use rcore_fs.Base.{
  ℕ, zero, suc, ◌+◌, ◌-◌, ◌||◌, List, [], ◌∷◌, ◌++◌, leb, ltb, ◌==◌, if◌then◌else◌, get_elem?, set,
  length,
}
use rcore_fs.Base.Outcome.{Outcome, ok, panic}
use rcore_fs.Base.Fallible.{◌>>=◌, ◌>>◌, unwrap}
use rcore_fs.Dev.Interface.{DevError}

pub record Lru : Type 0 where
  pub prev : List ℕ
  pub next : List ℕ

abbrev pub Panicking : Type 0 → Type 0
Panicking A = Outcome DevError A

-- The numbers of the range from `from` on, `n` of them.
unfoldable pub range : (from n : ℕ) → List ℕ
range from zero = []
range from (suc n) = from ∷ range (from + 1) n

-- `LRU::new`. At the size 0 the subtraction overflows.
pub new_lru : ℕ → Panicking Lru
unfolding range
new_lru zero = panic
new_lru (suc n) = ok (record { prev = n ∷ range 0 n; next = range 1 n ++ 0 ∷ [] })

-- `xs[i]` and `xs[i] = v`.
abbrev pub at : List ℕ → ℕ → Panicking ℕ
at xs i = unwrap (get_elem? xs i)

abbrev pub assign_at : List ℕ → ℕ → ℕ → Panicking (List ℕ)
assign_at xs i v = if ltb i (length xs) then ok (set xs i v) else panic

-- `_list_remove`.
pub list_remove : ℕ → Lru → Panicking Lru
list_remove id l = do
  p ← at l.prev id
  n ← at l.next id
  prev ← assign_at l.prev n p
  next ← assign_at l.next p n
  ok (record { prev = prev; next = next })

-- `_list_insert_head`.
pub list_insert_head : ℕ → Lru → Panicking Lru
list_insert_head id l = do
  head ← at l.next 0
  prev ← assign_at l.prev id 0
  next ← assign_at l.next id head
  next' ← assign_at next 0 id
  prev' ← assign_at prev head id
  ok (record { prev = prev'; next = next' })

unfoldable pub visit : ℕ → Lru → Panicking Lru
unfolding list_remove list_insert_head
visit id l =
    if (id == 0) || leb (length l.prev) id
    then ok l
    else (do l' ← list_remove id l; list_insert_head id l')

unfoldable pub victim : Lru → Panicking ℕ
victim l = at l.prev 0

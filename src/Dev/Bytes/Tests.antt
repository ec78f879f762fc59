-- ===== src/Dev/Bytes/Tests.antt =====
-- The unit tests of rcore-fs/src/dev/mod.rs: a device of four blocks of four bytes.
use rcore_fs.Base.{
  ℕ, zero, suc, ◌+◌, ◌-◌, ◌≤◌, ◌<◌, ◌≡◌, ◌≢◌, refl, ap, ◌∙◌, ◌&&◌, inl, inr, Bool-cases, List, [],
  ◌∷◌, arith, none, some, get_elem?, get_elem?-set_self, get_elem?-set_ne, length-set, set, ltb,
  leb, ◌==◌, if◌then◌else◌, length, get_or,
}
use rcore_fs.Base.Outcome.{ok, err}
use rcore_fs.Dev.Interface.{BlockDevice, BlockStore, dev_error}
use rcore_fs.Dev.Bytes.{read_at, write_at}
use rcore_fs.Dev.Bytes.View.{capacity, byte, SameBlocks}
use rcore_fs.Dev.Bytes.Read.{read_at_bytes}
use rcore_fs.Dev.Bytes.Write.{write_at_bytes}
use rcore_fs.Dev.Bytes.RoundTrip.{read_at-write_at_bytes}

abbrev pub array : BlockDevice (List (List ℕ))
array = record {
  block_size_log2 = 2;
  read_at = λ id s. elim (get_elem? s id) [ none ↦ (s, err dev_error) | some xs ↦ (s, ok xs) ];
  write_at = λ id xs s. if ltb id (length s) then (set s id xs, ok tt) else (s, err dev_error);
  sync = λ s. (s, ok tt);
}

abbrev pub numbers : List (List ℕ)
numbers =
    (0 ∷ 1 ∷ 2 ∷ 3 ∷ [])
    ∷ (4 ∷ 5 ∷ 6 ∷ 7 ∷ [])
    ∷ (8 ∷ 9 ∷ 10 ∷ 11 ∷ [])
    ∷ (12 ∷ 13 ∷ 14 ∷ 15 ∷ [])
    ∷ []

read_inside :
    (read_at array 3 (0 ∷ 0 ∷ 0 ∷ 0 ∷ 0 ∷ 0 ∷ []) numbers).1 ≡ (3 ∷ 4 ∷ 5 ∷ 6 ∷ 7 ∷ 8 ∷ [], ok 6)
unfolding read_at
read_inside = refl

read_partly :
    (read_at array 11 (3 ∷ 4 ∷ 5 ∷ 6 ∷ 7 ∷ 8 ∷ []) numbers).1
    ≡ (11 ∷ 12 ∷ 13 ∷ 14 ∷ 15 ∷ 8 ∷ [], ok 5)
unfolding read_at
read_partly = refl

read_outside : (read_at array 16 (1 ∷ 2 ∷ []) numbers).1 ≡ (1 ∷ 2 ∷ [], ok 0)
unfolding read_at
read_outside = refl

write_partly : write_at array 11 (3 ∷ 4 ∷ 5 ∷ 6 ∷ 7 ∷ 8 ∷ []) numbers ≡ (
  (0 ∷ 1 ∷ 2 ∷ 3 ∷ []) ∷ (4 ∷ 5 ∷ 6 ∷ 7 ∷ []) ∷ (8 ∷ 9 ∷ 10 ∷ 3 ∷ []) ∷ (4 ∷ 5 ∷ 6 ∷ 7 ∷ []) ∷ [],
  ok 5,
)
unfolding write_at
write_partly = refl

abbrev pub block : List (List ℕ) → ℕ → List ℕ
block s id = elim (get_elem? s id) [ none ↦ [] | some xs ↦ xs ]

abbrev pub Good : List (List ℕ) → Type 0
Good s = (length s ≡ 4) × ((id : ℕ) → id < 4 → length (block s id) ≡ 4)

beyond : (s : List (List ℕ)) (id : ℕ) → length s ≤ id → get_elem? s id ≡ none
beyond [] id h = refl
beyond (x ∷ xs) zero h = absurd (omega arith)
beyond (x ∷ xs) (suc id) h = beyond xs id (omega arith)

pub block-set :
    (s : List (List ℕ)) (id j : ℕ) (xs : List ℕ)
    → id < length s
    → block (set s id xs) j ≡ (if id == j then xs else block s j)
block-set s id j xs h = elim (Bool-cases (id == j)) [
  | inl same ↦
      let e : id ≡ j = ground (arith, same) in
      ground (arith, same, get_elem?-set_self s id xs h, ap (λ k. block (set s id xs) k) e)
  | inr other ↦
      let ne : id ≢ j = λ e. ground (arith, other, e) in
      ground (arith, other, get_elem?-set_ne s xs ne)
]

pub kept :
    (s : List (List ℕ)) (id : ℕ) (xs : List ℕ)
    → Good s
    → id < 4
    → length xs ≡ 4
    → Good (set s id xs)
kept s id xs good h n = (
  length-set s id xs ∙ good.0,
  λ j k. ap length (block-set s id j xs (omega (arith, good.0, h))) ∙ ground (arith, n, good.1 j k),
)

pub inside_array : (s : List (List ℕ)) (id : ℕ) → Good s → id < 4 → id < length s
inside_array s id good h = omega (arith, good.0, h)

pub read_inside_array :
    (s : List (List ℕ)) (id : ℕ) → Good s → id < 4 → array.read_at id s ≡ (s, ok (block s id))
read_inside_array s id good h = ground (arith, good.1 id h)

pub read_outside_array :
    (s : List (List ℕ)) (id : ℕ) → Good s → 4 ≤ id → array.read_at id s ≡ (s, err dev_error)
read_outside_array s id good h = ground (arith, good.0, beyond s id (omega (arith, good.0, h)))

pub write_inside_array :
    (s : List (List ℕ)) (id : ℕ) (xs : List ℕ)
    → Good s
    → id < 4
    → array.write_at id xs s ≡ (set s id xs, ok tt)
write_inside_array s id xs good h = ground (arith, good.0, h)

pub write_outside_array :
    (s : List (List ℕ)) (id : ℕ) (xs : List ℕ)
    → Good s
    → 4 ≤ id
    → array.write_at id xs s ≡ (s, err dev_error)
write_outside_array s id xs good h = ground (arith, good.0, h)

abbrev pub store : BlockStore array
store = record {
  blocks = 4;
  Good = Good;
  block = block;
  length-block = λ s id good h. good.1 id h;
  read_in = λ s id good h. (s, read_inside_array s id good h, good, λ j k. refl);
  read_out = λ s id good h. (s, read_outside_array s id good h, good, λ j k. refl);
  write_in = λ s id xs good h n. (
    set s id xs,
    write_inside_array s id xs good h,
    kept s id xs good h n,
    λ j k. block-set s id j xs (inside_array s id good h),
  );
  write_out = λ s id xs good h n. (s, write_outside_array s id xs good h, good, λ j k. refl);
}

pub numbers-Good : Good numbers
numbers-Good = (refl, lengths)
  where
    lengths : (id : ℕ) → id < 4 → length (block numbers id) ≡ 4
    lengths zero h = refl
    lengths (suc zero) h = refl
    lengths (suc (suc zero)) h = refl
    lengths (suc (suc (suc zero))) h = refl
    lengths (suc (suc (suc (suc id)))) h = absurd (omega arith)

abbrev six : List ℕ
six = 3 ∷ 4 ∷ 5 ∷ 6 ∷ 7 ∷ 8 ∷ []

read_at_bytes_example :
    (s' : List (List ℕ)) × (buf' : List ℕ) × (read_at array 11 six numbers ≡ (s', (buf', ok 5)))
    × (length buf' ≡ 6)
    × ((i : ℕ)
        → i < 6
        → get_or buf' i 0 ≡ (
            if ltb (11 + i) (capacity array store)
            then byte array store numbers (11 + i)
            else get_or six i 0))
    × Good s'
    × SameBlocks array store numbers s'
read_at_bytes_example = read_at_bytes array store (omega arith) 11 six numbers numbers-Good

write_at_bytes_example :
    (s' : List (List ℕ)) × (write_at array 11 six numbers ≡ (s', ok 5))
    × Good s'
    × ((x : ℕ)
        → x < capacity array store
        → byte array store s' x
          ≡ (if leb 11 x && ltb x 17 then get_or six (x - 11) 0 else byte array store numbers x))
write_at_bytes_example = write_at_bytes array store (omega arith) 11 six numbers numbers-Good

read_at-write_at_bytes_example :
    (s' : List (List ℕ)) × (read_at array 7
        (0 ∷ 0 ∷ 0 ∷ 0 ∷ 0 ∷ 0 ∷ [])
        (write_at array 7 six numbers).0
      ≡ (s', (six, ok 6)))
read_at-write_at_bytes_example =
    read_at-write_at_bytes array store (omega arith) 7 six (0 ∷ 0 ∷ 0 ∷ 0 ∷ 0 ∷ 0 ∷ []) numbers
      numbers-Good (omega arith) refl

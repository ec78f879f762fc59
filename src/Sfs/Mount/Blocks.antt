-- ===== src/Sfs/Mount/Blocks.antt =====
-- The blocks of the free map in rcore-fs-sfs/src/lib.rs, as `sync` writes and `open` reads them.
use native.Mathlib.Decide.{dec_lt}
use rcore_fs.Base.{
  ℕ, zero, suc, ◌+◌, ◌-◌, ◌*◌, ◌<◌, ◌≤◌, ◌≡◌, refl, ap, ap₂, ◌∙◌, Bool, true, List, [], ◌∷◌, ◌++◌,
  arith, ◌&&◌, leb, ltb, if◌then◌else◌, length, get_or, take, drop, length-take, length-drop,
}
use rcore_fs.Base.Outcome.{ok}
use rcore_fs.Base.Slices.{get_or-take, get_or-drop}
use rcore_fs.Sfs.Layout.{blksize, blkn_freemap}
use rcore_fs.Sfs.Device.{Device, slice, store, read_block}
use rcore_fs.Sfs.State.{Sfs}
use rcore_fs.Sfs.Mount.{read_freemap, write_part, write_freemap}

-- The address of a block of the free map.
abbrev pub place : ℕ → ℕ
place i = (blkn_freemap + i) * blksize

slice-append : (f : ℕ → ℕ) (a m n : ℕ) → slice f a m ++ slice f (a + m) n ≡ slice f a (m + n)
unfolding slice
slice-append f a zero n =
    let e : a + 0 ≡ a = omega arith in let e' : n ≡ 0 + n = omega arith in ap₂ (slice f) e e'
slice-append f a (suc m) n =
    let e : a + suc m ≡ a + 1 + m = omega arith in
    let e' : suc (m + n) ≡ suc m + n = omega arith in
    ap (λ t. f a ∷ t) (ap (λ b. slice f (a + 1) m ++ slice f b n) e ∙ slice-append f (a + 1) m n)
    ∙ ap (slice f a) e'

read_freemap-step :
    (d : Device) (i n : ℕ) {xs ys : List ℕ}
    → read_block d (blkn_freemap + i) 0 blksize ≡ ok xs
    → read_freemap d (i + 1) n ≡ ok ys
    → read_freemap d i (suc n) ≡ ok (xs ++ ys)
unfolding read_freemap
read_freemap-step d i n e e' = ground (arith, e, e')

pub read_block-ok :
    (d : Device) (id offset n : ℕ)
    → offset + n ≤ blksize
    → id * blksize + offset + n ≤ d.size
    → read_block d id offset n ≡ ok (slice d.byte (id * blksize + offset) n)
unfolding read_block
read_block-ok d id offset n h h' = ground (arith, h, h')

read_place :
    (d : Device) (i : ℕ)
    → place (i + 1) ≤ d.size
    → read_block d (blkn_freemap + i) 0 blksize ≡ ok (slice d.byte (place i) blksize)
read_place d i h =
    let next : place i + 0 ≡ place i = omega arith in
    read_block-ok d (blkn_freemap + i) 0 blksize (omega arith) (omega (arith, h))
    ∙ ap (λ a. ok (slice d.byte a blksize)) next

pub read_freemap_lem :
    (d : Device) (i n : ℕ)
    → place (i + n) ≤ d.size
    → read_freemap d i n ≡ ok (slice d.byte (place i) (n * blksize))
unfolding read_freemap slice
read_freemap_lem d i zero h = refl
read_freemap_lem d i (suc n) h =
    let behind : place (i + 1) ≡ place i + blksize = omega arith in
    let whole : blksize + n * blksize ≡ suc n * blksize = omega arith in
    read_freemap-step d i n (read_place d i (omega arith))
      (read_freemap_lem d (i + 1) n (omega arith))
    ∙ ap ok (
        ap (λ a. slice d.byte (place i) blksize ++ slice d.byte a (n * blksize)) behind
        ∙ slice-append d.byte (place i) blksize (n * blksize)
        ∙ ap (slice d.byte (place i)) whole)

-- The free map on a device: the bytes `xs`, as far as the blocks from `i` to `j`.
abbrev pub HoldsMap : List ℕ → (i j : ℕ) → Device → Device → Type 0
HoldsMap xs i j d d' =
    (d'.size ≡ d.size)
    × ((x : ℕ)
        → d'.byte x
          ≡ (if leb (place i) x && ltb x (place j) then get_or xs (x - place 0) 0 else d.byte x))

abbrev block_written : List ℕ → ℕ → Device → Device
block_written xs i d =
    write_part d (blksize * (blkn_freemap + i)) (take blksize (drop (i * blksize) xs))

pub take_all : (n : ℕ) (xs : List ℕ) → length xs ≤ n → take n xs ≡ xs
take_all zero [] h = refl
take_all zero (x ∷ xs) h = absurd (omega arith)
take_all (suc n) [] h = refl
take_all (suc n) (x ∷ xs) h = ap (λ t. x ∷ t) (take_all n xs (omega arith))

in_place :
    (xs ys : List ℕ) (old i x : ℕ)
    → place i ≤ x
    → length ys ≡ blksize
    → get_or ys (x - place i) 0
      ≡ (if ltb (x - place i) blksize then get_or xs (i * blksize + (x - place i)) 0 else 0)
    → get_or xs (i * blksize + (x - place i)) 0 ≡ get_or xs (x - place 0) 0
    → (if leb (place i) x && ltb x (place i + length ys) then get_or ys (x - place i) 0 else old)
      ≡ (if leb (place i) x && ltb x (place (i + 1)) then get_or xs (x - place 0) 0 else old)
in_place xs ys old i x h count entry moved = elim (dec_lt x (place (i + 1))) [
  | yes inside ↦
      let near : x - place i < blksize = omega (arith, inside) in
      ground (arith, h, count, near, inside, entry, moved)
  | no outside ↦ ground (arith, h, count, outside)
]

before_place :
    (ys : List ℕ) (old : ℕ → ℕ) (i x there : ℕ) (after : Bool)
    → x < place i
    → store old (place i) ys x ≡ (if leb (place i) x && after then there else old x)
unfolding store
before_place ys old i x there after below = ground (arith, below)

byte-block_written :
    (xs : List ℕ) (i : ℕ) (d : Device)
    → (i + 1) * blksize ≤ length xs
    → place (i + 1) ≤ d.size
    → (x : ℕ)
    → (block_written xs i d).byte x
      ≡ (if leb (place i) x && ltb x (place (i + 1)) then get_or xs (x - place 0) 0 else d.byte x)
unfolding store
byte-block_written xs i d h h' x =
    let ys = take blksize (drop (i * blksize) xs) in
    let count : length ys ≡ blksize =
      omega (arith, length-take blksize (drop (i * blksize) xs), length-drop (i * blksize) xs) in
    let all : take (d.size - blksize * (blkn_freemap + i)) ys ≡ ys =
      take_all (d.size - blksize * (blkn_freemap + i)) ys (omega (arith, count)) in
    let here : blksize * (blkn_freemap + i) ≡ place i = omega arith in
    let same : store d.byte (blksize * (blkn_freemap + i))
          (take (d.size - blksize * (blkn_freemap + i)) ys) x
        ≡ store d.byte (place i) ys x =
      ap₂ (λ a zs. store d.byte a zs x) here all in
    let entry : get_or ys (x - place i) 0
        ≡ (if ltb (x - place i) blksize then get_or xs (i * blksize + (x - place i)) 0 else 0) =
      get_or-take blksize (drop (i * blksize) xs) (x - place i)
      ∙ ap (λ v. if ltb (x - place i) blksize then v else 0)
          (get_or-drop (i * blksize) xs (x - place i)) in
    same ∙ elim (dec_lt x (place i)) [
      | yes below ↦ before_place ys d.byte i x _ _ below
      | no above ↦
          let moved : i * blksize + (x - place i) ≡ x - place 0 = omega (arith, above) in
          in_place xs ys (d.byte x) i x (omega (arith, above)) count entry
            (ap (λ k. get_or xs k 0) moved)
    ]

nothing_placed :
    (xs : List ℕ) (i x old : ℕ)
    → old ≡ (if leb (place i) x && ltb x (place (i + 0)) then get_or xs (x - place 0) 0 else old)
nothing_placed xs i x old = ground arith

write_freemap-step :
    (xs : List ℕ) (i n : ℕ) (s r : Sfs)
    → leb ((i + 1) * blksize) (length xs) ≡ true
    → write_freemap xs (i + 1) n (record s { device = block_written xs i s.device }) ≡ (r, ok tt)
    → write_freemap xs i (suc n) s ≡ (r, ok tt)
unfolding write_freemap
write_freemap-step xs i n s r fits run = ground (arith, fits, run)

joined_place :
    (i n x there old : ℕ)
    → (if leb (place (i + 1)) x && ltb x (place (i + 1 + n))
        then there
        else (if leb (place i) x && ltb x (place (i + 1)) then there else old))
      ≡ (if leb (place i) x && ltb x (place (i + suc n)) then there else old)
joined_place i n x there old = ground arith

-- The loop of `sync` puts the blocks from `i` to `i + n` of the map in place.
pub write_freemap_lem :
    (xs : List ℕ) (i n : ℕ) (s : Sfs)
    → (i + n) * blksize ≤ length xs
    → place (i + n) ≤ s.device.size
    → (d : Device) × (write_freemap xs i n s ≡ (record s { device = d }, ok tt))
      × HoldsMap xs i (i + n) s.device d
unfolding write_freemap
write_freemap_lem xs i zero s h h' =
    (s.device, refl, (refl, λ x. nothing_placed xs i x (s.device.byte x)))
write_freemap_lem xs i (suc n) s h h' =
    let s1 = record s { device = block_written xs i s.device } in
    let fits : leb ((i + 1) * blksize) (length xs) ≡ true = ground (arith, h) in
    let (d, run, (size, bytes)) =
      write_freemap_lem xs (i + 1) n s1 (omega (arith, h)) (omega (arith, h')) in
    (
      d,
      write_freemap-step xs i n s (record s { device = d }) fits run,
      (
        size,
        λ x.
            bytes x
            ∙ ap
                (λ v.
                  if leb (place (i + 1)) x && ltb x (place (i + 1 + n))
                  then get_or xs (x - place 0) 0
                  else v)
                (byte-block_written xs i s.device (omega (arith, h)) (omega (arith, h')) x)
            ∙ joined_place i n x (get_or xs (x - place 0) 0) (s.device.byte x),
      ),
    )

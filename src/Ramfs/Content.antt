-- ===== src/Ramfs/Content.antt =====
-- What `read_at`, `write_at` and `resize` of rcore-fs-ramfs/src/lib.rs do to the content of a file.
use native.Mathlib.Decide.{dec_lt}
use rcore_fs.Base.{
  lt→ltb, lt_of_get_elem?, ℕ, zero, suc, ◌+◌, ◌-◌, ◌≤◌, ◌<◌, ◌≡◌, refl, ap, ◌∙◌, false, ◌&&◌, List,
  [], ◌∷◌, arith, leb, ltb, if◌then◌else◌, some, length, get_or, take, drop, replicate,
  length-append, length-take, length-drop, length-replicate, min, max, get_elem?,
  get_elem?-set_self,
}
use rcore_fs.Base.Slices.{
  length-copy_into, overlay, get_or-copy_into, get_or-append, get_or-take, get_or-drop,
  get_or-replicate, eq_of_get_or,
}
use rcore_fs.Base.Outcome.{ok}
use rcore_fs.Vfs.{is_dir_type}
use rcore_fs.Ramfs.State.{Ram, RamFsInode, put_node}
use rcore_fs.Ramfs.File.{resize_vec, written, read_at, write_at}

pub length-resize_vec : (xs : List ℕ) (n : ℕ) → length (resize_vec xs n) ≡ n
length-resize_vec xs n = omega (
  arith,
  length-append (take n xs) (replicate (n - length xs) 0),
  length-take n xs,
  length-replicate {A = ℕ} (n - length xs) 0,
)

get_or_beyond : (xs : List ℕ) (i : ℕ) → length xs ≤ i → get_or xs i 0 ≡ 0
get_or_beyond [] i h = refl
get_or_beyond (x ∷ xs) zero h = absurd (omega arith)
get_or_beyond (x ∷ xs) (suc i) h = get_or_beyond xs i (omega arith)

get_or-resize_vec :
    (xs : List ℕ) (n i : ℕ) → get_or (resize_vec xs n) i 0 ≡ (if ltb i n then get_or xs i 0 else 0)
get_or-resize_vec xs n i = ground (
  arith,
  get_or-append (take n xs) (replicate (n - length xs) 0) i,
  get_or-take n xs i,
  length-take n xs,
  get_or-replicate (n - length xs) (i - length (take n xs)),
  get_or_beyond xs i,
)

ltb_of_le : (m n : ℕ) → n ≤ m → ltb m n ≡ false
ltb_of_le m n h = ground arith

length-written :
    (xs : List ℕ) (offset : ℕ) (buf : List ℕ)
    → length (written xs offset buf) ≡ max (length xs) (offset + length buf)
length-written xs offset buf = elim (dec_lt (length xs) (offset + length buf)) [
  | yes p ↦ rw (lt→ltb _ _ p) (
      omega (
        arith,
        length-resize_vec xs (offset + length buf),
        length-copy_into (resize_vec xs (offset + length buf)) offset buf
            (omega (arith, length-resize_vec xs (offset + length buf))),
      ))
  | no p ↦
      rw (ltb_of_le (length xs) (offset + length buf) (omega arith))
        (omega (arith, length-copy_into xs offset buf (omega arith)))
]

get_or-written :
    (xs : List ℕ) (offset : ℕ) (buf : List ℕ) (i : ℕ)
    → get_or (written xs offset buf) i 0 ≡ overlay xs offset buf i
get_or-written xs offset buf i = elim (dec_lt (length xs) (offset + length buf)) [
  | yes p ↦ rw (lt→ltb _ _ p) (
      get_or-copy_into (resize_vec xs (offset + length buf)) offset buf i
        (omega (arith, length-resize_vec xs (offset + length buf)))
      ∙ ground (arith, get_or-resize_vec xs (offset + length buf) i, get_or_beyond xs i))
  | no p ↦
      rw (ltb_of_le (length xs) (offset + length buf) (omega arith))
        (get_or-copy_into xs offset buf i (omega arith))
]

-- The bytes that `read_at` takes out of a content.
abbrev pub window : List ℕ → (offset n : ℕ) → List ℕ
window xs offset n =
    take (min (length xs) (offset + n) - min (length xs) offset) (drop (min (length xs) offset) xs)

length-window :
    (xs : List ℕ) (offset n : ℕ)
    → length (window xs offset n) ≡ min (length xs) (offset + n) - min (length xs) offset
length-window xs offset n = omega (
  arith,
  length-take (min (length xs) (offset + n) - min (length xs) offset)
      (drop (min (length xs) offset) xs),
  length-drop (min (length xs) offset) xs,
)

get_or-window :
    (xs : List ℕ) (offset n i : ℕ)
    → i < length (window xs offset n)
    → get_or (window xs offset n) i 0 ≡ get_or xs (offset + i) 0
get_or-window xs offset n i h =
    let inside : i < min (length xs) (offset + n) - min (length xs) offset =
      omega (arith, length-window xs offset n) in
    let start : min (length xs) offset ≡ offset = omega arith in
    get_or-take (min (length xs) (offset + n) - min (length xs) offset)
      (drop (min (length xs) offset) xs) i
    ∙ (rw (lt→ltb _ _ inside) (get_or-drop (min (length xs) offset) xs i)
        ∙ ap (λ k. get_or xs (k + i) 0) start)

window-written :
    (xs : List ℕ) (offset : ℕ) (buf : List ℕ)
    → window (written xs offset buf) offset (length buf) ≡ buf
window-written xs offset buf =
    let len : length (window (written xs offset buf) offset (length buf)) ≡ length buf = omega (
      arith,
      length-window (written xs offset buf) offset (length buf),
      length-written xs offset buf,
    ) in
    eq_of_get_or _ buf len (λ i h.
      get_or-window (written xs offset buf) offset (length buf) i h
      ∙ (get_or-written xs offset buf (offset + i) ∙ inside i (omega arith)))
  where
    inside : (i : ℕ) → i < length buf → overlay xs offset buf (offset + i) ≡ get_or buf i 0
    inside i h =
        let e : offset + i - offset ≡ i = omega arith in ground (arith, ap (λ k. get_or buf k 0) e)

module _ (s : Ram) (a : ℕ) (file : RamFsInode) (here : get_elem? s.nodes a ≡ some file)
    (plain : is_dir_type file.extra.type_ ≡ false) where
  -- A write to what is no directory succeeds and returns the length of the buffer. The content is
  -- then as long as it was, or reaches to the end of the buffer; its bytes are those of the buffer
  -- in the buffer's range and the old ones elsewhere, and 0 in a gap. No other inode changes.
  pub write_at_lem :
      (offset : ℕ) (buf : List ℕ)
      → (content : List ℕ) × (write_at a offset buf s
          ≡ (put_node s a (record file { content = content }), ok (length buf)))
        × (length content ≡ max (length file.content) (offset + length buf))
        × ((i : ℕ)
            → get_or content i 0 ≡ (
                if leb offset i && ltb i (offset + length buf)
                then get_or buf (i - offset) 0
                else get_or file.content i 0))
  unfolding write_at
  write_at_lem offset buf = (
    written file.content offset buf,
    ground (arith, here),
    length-written file.content offset buf,
    get_or-written file.content offset buf,
  )

  -- A read of as many bytes at the offset of a write to a file gives back what was written, and
  -- changes nothing.
  pub read_at-write_at :
      (offset : ℕ) (buf : List ℕ)
      → read_at a offset (length buf) (write_at a offset buf s).0
        ≡ ((write_at a offset buf s).0, ok buf)
  unfolding read_at write_at
  read_at-write_at offset buf = ground (
    arith,
    here,
    get_elem?-set_self s.nodes a (record file { content = written file.content offset buf })
        (lt_of_get_elem? s.nodes a here),
    window-written file.content offset buf,
  )

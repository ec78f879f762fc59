-- ===== src/Sfs/Dirent/Slots.antt =====
-- The entries of a directory of rcore-fs-sfs/src/lib.rs as numbered slots.
use native.Mathlib.Decide.{dec_lt}
use rcore_fs.Base.{
  ℕ, ◌+◌, ◌-◌, ◌*◌, ◌^◌, ◌<◌, ◌≤◌, ◌≡◌, ◌≢◌, sym, ap, ap₂, ◌∙◌, true, false, arith, ◌==◌, ◌&&◌, leb,
  ltb, if◌then◌else◌, length, get_or, take, replicate, length-replicate, some, inl, inr, ◌⊎◌,
  Bool-cases, min,
}
use rcore_fs.Base.Outcome.{ok}
use rcore_fs.Base.Slices.{eq_of_get_or}
use rcore_fs.Util.Dirty.{Dirty}
use rcore_fs.Sfs.Layout.{DiskINode, dirent_size}
use rcore_fs.Sfs.Device.{slice, u32_bytes, u32_of}
use rcore_fs.Sfs.Device.Store.{u32_of-u32_bytes, slice-eq}
use rcore_fs.Sfs.State.{Sfs}
use rcore_fs.Sfs.Content.{read_content, write_content}
use rcore_fs.Sfs.Content.File.{IsFile, content, slice-cong}
use rcore_fs.Sfs.Content.Read.{read_content_lem, length-slice, get_or-slice}
use rcore_fs.Sfs.Content.Write.{write_content_lem}
use rcore_fs.Sfs.Dirent.{DiskEntry, entry_bytes, entry_of, read_direntry, write_direntry}

-- The fields fit those of the on-disk structure.
pub record IsEntry (e : DiskEntry) : Type 0 where
  pub id : e.id < 2 ^ 32
  pub name : length e.name ≡ 256

entry_of-entry_bytes : (e : DiskEntry) → IsEntry e → entry_of (entry_bytes e) ≡ e
unfolding u32_bytes
entry_of-entry_bytes e is =
    let a : u32_of (take 4 (entry_bytes e)) ≡ e.id = u32_of-u32_bytes e.id is.id in cc a

length-entry_bytes : (e : DiskEntry) → IsEntry e → length (entry_bytes e) ≡ dirent_size
unfolding u32_bytes
length-entry_bytes e is = omega (arith, is.name)

-- The entry in the slot `k` of a file with these bytes.
abbrev pub slot : (ℕ → ℕ) → ℕ → DiskEntry
slot bytes k = entry_of (slice bytes (dirent_size * k) dirent_size)

if_below : (a b x y : ℕ) → a < b → (if ltb a b then x else y) ≡ x
if_below a b x y h = ground (arith, h)

if_outside : (a b c x y : ℕ) → (c < a) ⊎ (b ≤ c) → (if leb a c && ltb c b then x else y) ≡ y
if_outside a b c x y h = ground (arith, h)

if_inside : (a b c x y : ℕ) → a ≤ c → c < b → (if leb a c && ltb c b then x else y) ≡ x
if_inside a b c x y h k = ground (arith, h, k)

if_same : (k j : ℕ) (x y : DiskEntry) → (k == j) ≡ true → (if k == j then x else y) ≡ x
if_same k j x y h = ap (λ b. if b then x else y) h

if_other : (k j : ℕ) (x y : DiskEntry) → (k == j) ≡ false → (if k == j then x else y) ≡ y
if_other k j x y h = ap (λ b. if b then x else y) h

elsewhere :
    (k j i len : ℕ)
    → k ≢ j
    → i < dirent_size
    → len ≡ dirent_size
    → (dirent_size * j + i < dirent_size * k) ⊎ (dirent_size * k + len ≤ dirent_size * j + i)
elsewhere k j i len apart h count = elim (dec_lt j k) [
  | yes below ↦ inl (omega (arith, below, h))
  | no above ↦ inr (omega (arith, above, apart, h, count))
]

write_direntry-step :
    (s : Sfs) (id k : ℕ) (e : DiskEntry) (r : Sfs) (c : ℕ)
    → write_content id (dirent_size * k) (entry_bytes e) s ≡ (r, ok c)
    → write_direntry id k e s ≡ (r, ok tt)
unfolding write_direntry
write_direntry-step s id k e r c run = ground (arith, run)

-- The slots behind a write to the slot `k`.
slot_after :
    (old now : ℕ → ℕ) (k j size : ℕ) (e : DiskEntry)
    → IsEntry e
    → dirent_size * k + dirent_size ≤ size
    → dirent_size * j + dirent_size ≤ size
    → ((x : ℕ)
        → x < size
        → now x ≡ (
            if leb (dirent_size * k) x && ltb x (dirent_size * k + length (entry_bytes e))
            then get_or (entry_bytes e) (x - dirent_size * k) 0
            else old x))
    → slot now j ≡ (if k == j then e else slot old j)
slot_after old now k j size e is h p bytes = elim (Bool-cases (k == j)) [
  | inl same ↦
      let there : k ≡ j = ground (arith, same) in
      let count = length-entry_bytes e is in
      let written : slice now (dirent_size * k) (length (entry_bytes e)) ≡ entry_bytes e =
        slice-eq now (entry_bytes e) (dirent_size * k) (λ i q.
          bytes (dirent_size * k + i) (omega (arith, count, h, q))
          ∙ if_inside _ _ (dirent_size * k + i) _ _ (omega arith) (omega (arith, q))
          ∙ ap (λ m. get_or (entry_bytes e) m 0) (omega arith)) in
      let new : slot now k ≡ e =
        ap entry_of (ap (slice now (dirent_size * k)) (sym count) ∙ written)
        ∙ entry_of-entry_bytes e is in
      ap (slot now) (sym there) ∙ new ∙ sym (if_same k j e (slot old j) same)
  | inr other ↦
      let apart : k ≢ j = ground (arith, other) in
      let count = length-entry_bytes e is in
      ap entry_of (
        slice-cong old now (dirent_size * j) dirent_size (λ i q.
          bytes (dirent_size * j + i) (omega (arith, p, q))
          ∙ if_outside _ _ (dirent_size * j + i) _ _
              (elsewhere k j i (length (entry_bytes e)) apart q count)))
      ∙ sym (if_other k j e (slot old j) other)
]

module _ (s : Sfs) (id : ℕ) (n : Dirty DiskINode) (map : ℕ → ℕ) (here : s.inodes id ≡ some n)
    (file : IsFile n.value map s.device) where
  read_slice :
      (offset len : ℕ)
      → offset + len ≤ n.value.size
      → read_content id offset (s, replicate len 0)
        ≡ ((s, slice (content map s.device) offset len), ok len)
  read_slice offset len h =
      let count : length {A = ℕ} (replicate len 0) ≡ len = length-replicate len 0 in
      let (buf, run, n_buf, bytes) =
        read_content_lem s id n map here file offset (replicate len 0) in
      let moved : min n.value.size (offset + length {A = ℕ} (replicate len 0))
            - min n.value.size offset
          ≡ len =
        omega (arith, count, h) in
      let same : buf ≡ slice (content map s.device) offset len =
        eq_of_get_or buf (slice (content map s.device) offset len)
          (omega (arith, n_buf, count, length-slice (content map s.device) offset len))
          (λ i p.
            let inside : i < len = omega (arith, p, n_buf, count) in
            bytes i (omega (arith, p, n_buf))
            ∙ if_below (offset + i) n.value.size _ _ (omega (arith, inside, h))
            ∙ sym (get_or-slice (content map s.device) offset len i inside)) in
      run ∙ ap₂ (λ b k. ((s, b), ok k)) same moved

  pub read_direntry_lem :
      (k : ℕ)
      → dirent_size * k + dirent_size ≤ n.value.size
      → read_direntry id k s ≡ (s, ok (slot (content map s.device) k))
  unfolding read_direntry
  read_direntry_lem k h = let e = read_slice (dirent_size * k) dirent_size h in ground (arith, e)

module _ (s : Sfs) (id : ℕ) (n : Dirty DiskINode) (map : ℕ → ℕ) (here : s.inodes id ≡ some n)
    (file : IsFile n.value map s.device) where
  -- In a directory whose blocks are in place and apart, `write_direntry` of an entry with a number of
  -- 32 bits and a name of 256 bytes to a slot inside the directory succeeds. `read_direntry` gives the
  -- new entry there afterwards, and the old ones in the other slots.
  pub read_direntry-write_direntry :
      (k : ℕ) (e : DiskEntry)
      → IsEntry e
      → dirent_size * k + dirent_size ≤ n.value.size
      → (s' : Sfs) × (write_direntry id k e s ≡ (s', ok tt))
        × ((j : ℕ)
            → dirent_size * j + dirent_size ≤ n.value.size
            → read_direntry id j s'
              ≡ (s', ok (if k == j then e else slot (content map s.device) j)))
  read_direntry-write_direntry k e is h =
      let xs = entry_bytes e in
      let count = length-entry_bytes e is in
      let (d, run, (file', same, bytes)) =
        write_content_lem s id n map here file (dirent_size * k) xs (omega (arith, count, h)) in
      (
        record s { device = d },
        write_direntry-step s id k e (record s { device = d }) (length xs) run,
        λ j p.
            read_direntry_lem (record s { device = d }) id n map here file' j p
            ∙ ap (λ f. (record s { device = d }, ok f))
                (slot_after (content map s.device) (content map d) k j n.value.size e is h p bytes),
      )

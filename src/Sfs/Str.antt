-- ===== src/Sfs/Str.antt =====
-- `Str256` and `Str32` of rcore-fs-sfs/src/structs.rs: byte arrays of `n` bytes that end a text at
-- the first zero. A `&str` is its bytes.
pub mod RoundTrip
mod Tests
use rcore_fs.Base.{
  ℕ, ◌-◌, Option, none, some, List, [], ◌∷◌, ◌++◌, leb, ◌==◌, if◌then◌else◌, length, replicate,
}
use rcore_fs.Base.Outcome.{Outcome, ok, panic}
use rcore_fs.Vfs.{Result}
use rcore_fs.Vfs.Path.{is_utf8}

-- `From<&str>`: the slice `ret[0..s.len()]` panics where the text is longer than the array.
unfoldable pub from_str : (n : ℕ) → List ℕ → Result (List ℕ)
from_str n s = if leb (length s) n then ok (s ++ replicate (n - length s) 0) else panic

-- The bytes before the first zero, if there is one.
unfoldable pub until_zero : List ℕ → Option (List ℕ)
until_zero [] = none
until_zero (b ∷ bs) =
    let rest = until_zero bs in
    if b == 0 then some [] else elim rest [ none ↦ none | some s ↦ some (b ∷ s) ]

-- `AsRef<str>`: the `unwrap`s panic where no byte is zero, and where the bytes before it are no UTF-8.
unfoldable pub as_str : List ℕ → Result (List ℕ)
unfolding until_zero
as_str bs = elim (until_zero bs) [ none ↦ panic | some s ↦ if is_utf8 s then ok s else panic ]

-- "simple file system"
abbrev pub default_info : List ℕ
default_info =
    b's' ∷ b'i' ∷ b'm' ∷ b'p' ∷ b'l' ∷ b'e' ∷ 32 ∷ b'f' ∷ b'i' ∷ b'l' ∷ b'e' ∷ 32 ∷ b's' ∷ b'y'
    ∷ b's' ∷ b't' ∷ b'e' ∷ b'm' ∷ []

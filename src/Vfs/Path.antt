-- ===== src/Vfs/Path.antt =====
-- The strings of `lookup_follow` in rcore-fs/src/vfs.rs. A string is its bytes in UTF-8, where the
-- byte of '/' stands for nothing else.
use rcore_fs.Base.{
  ℕ, zero, suc, Bool, false, ◌&&◌, Option, none, some, List, [], ◌∷◌, ◌++◌, leb, ◌==◌,
  if◌then◌else◌,
}
use rcore_fs.Base.Names.{Name}

abbrev pub slash : ℕ
slash = b'/'

-- The bytes before the first '/' and those behind it; without one, all bytes and none.
unfoldable pub split_name : List ℕ → Name × List ℕ
split_name [] = ([], [])
split_name (b ∷ bs) =
    let (name, rest) = split_name bs in if b == slash then ([], bs) else (b ∷ name, rest)

-- `chars().last()` is a '/'.
unfoldable pub ends_with_slash : List ℕ → Bool
ends_with_slash [] = false
ends_with_slash (b ∷ []) = b == slash
ends_with_slash (_ ∷ b ∷ bs) = ends_with_slash (b ∷ bs)

-- The path that a symbolic link stands for, in front of the rest of the path.
unfoldable pub join : List ℕ → List ℕ → List ℕ
unfolding ends_with_slash
join path rest = if ends_with_slash path then path ++ rest else path ++ (slash ∷ rest)

-- How many bytes of a character are still to come, and the bounds of the next one.
abbrev pub Utf8State : Type 0
Utf8State = ℕ × ℕ × ℕ

abbrev pub between : ℕ → ℕ → ℕ → Bool
between low high b = leb low b && leb b high

-- The state behind a byte, as the tables of the standard say.
unfoldable pub utf8_next : Utf8State → ℕ → Option Utf8State
utf8_next (suc n, low, high) b = if between low high b then some (n, 0x80, 0xBF) else none
utf8_next (zero, low, high) b =
    if between 0 0x7F b
    then some (0, 0, 0)
    else if between 0xC2 0xDF b
    then some (1, 0x80, 0xBF)
    else if b == 0xE0
    then some (2, 0xA0, 0xBF)
    else if b == 0xED
    then some (2, 0x80, 0x9F)
    else if between 0xE1 0xEF b
    then some (2, 0x80, 0xBF)
    else if b == 0xF0
    then some (3, 0x90, 0xBF)
    else if between 0xF1 0xF3 b
    then some (3, 0x80, 0xBF)
    else if b == 0xF4
    then some (3, 0x80, 0x8F)
    else none

unfoldable pub utf8_from : Utf8State → List ℕ → Bool
unfolding utf8_next
utf8_from (n, _, _) [] = n == 0
utf8_from st (b ∷ bs) = elim (utf8_next st b) [ none ↦ false | some next ↦ utf8_from next bs ]

-- `str::from_utf8` succeeds.
unfoldable pub is_utf8 : List ℕ → Bool
unfolding utf8_from
is_utf8 = utf8_from (0, 0, 0)

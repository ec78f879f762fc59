-- ===== src/Sfs/Str/RoundTrip.antt =====
-- Names put into the byte arrays of rcore-fs-sfs/src/structs.rs and read back.
use mathlib.Core.List.{append-nil}
use rcore_fs.Base.{
  ℕ, suc, ◌-◌, ◌≤◌, ◌<◌, ◌≡◌, ◌≢◌, refl, ap, none, some, List, [], ◌∷◌, ◌++◌, arith, length,
  replicate, true,
}
use rcore_fs.Base.Outcome.{ok, err, panic, hang}
use rcore_fs.Vfs.{Result}
use rcore_fs.Vfs.Path.{is_utf8}
use rcore_fs.Sfs.Str.{from_str, until_zero, as_str}

abbrev pub NoZero : List ℕ → Type 0
NoZero [] = Unit
NoZero (b ∷ bs) = (b ≢ 0) × NoZero bs

-- The text that is read back from the array that a text was put into.
pub stored : (n : ℕ) → List ℕ → Result (List ℕ)
stored n s = elim (from_str n s) [ ok bs ↦ as_str bs | err e ↦ err e | panic ↦ panic | hang ↦ hang ]

until_zero-append : (s : List ℕ) (k : ℕ) → NoZero s → until_zero (s ++ replicate (suc k) 0) ≡ some s
unfolding until_zero
until_zero-append [] k h = refl
until_zero-append (b ∷ bs) k h = ground (arith, until_zero-append bs k h.1)

until_zero-full : (s : List ℕ) → NoZero s → until_zero s ≡ none
unfolding until_zero
until_zero-full [] h = refl
until_zero-full (b ∷ bs) h = ground (arith, until_zero-full bs h.1)

stored-short : (n : ℕ) (s : List ℕ) → NoZero s → is_utf8 s ≡ true → length s < n → stored n s ≡ ok s
unfolding stored from_str as_str
stored-short n s h text lt =
    let e : n - length s ≡ suc (n - length s - 1) = omega arith in
    ground (
      arith,
      ap (λ k. until_zero (s ++ replicate k 0)) e,
      until_zero-append s (n - length s - 1) h,
      text,
    )

stored-full : (n : ℕ) (s : List ℕ) → NoZero s → n ≤ length s → stored n s ≡ panic
unfolding stored from_str as_str
stored-full n s h le =
    let e : n - length s ≡ 0 = omega arith in
    ground (
      arith,
      ap (λ k. until_zero (s ++ replicate k 0)) e,
      ap until_zero (append-nil s),
      until_zero-full s h,
    )

-- A name in UTF-8 without a zero byte is read back as it was stored exactly when it is shorter than
-- the array; a name that is as long or longer makes the code panic.
pub stored_lem :
    (n : ℕ) (s : List ℕ)
    → NoZero s
    → is_utf8 s ≡ true
    → (length s < n → stored n s ≡ ok s) × (n ≤ length s → stored n s ≡ panic)
stored_lem n s h text = (stored-short n s h text, stored-full n s h)

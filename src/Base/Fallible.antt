-- ===== src/Base/Fallible.antt =====
-- Sequences of calls that change no state: `?`, `unwrap` and `assert!` on an `Outcome`.
use mathlib.Core.Path.{◌≡◌, refl}
use mathlib.Core.Bool.{Bool, true, false}
use mathlib.Core.Option.{Option, none, some}
use rcore_fs.Base.Outcome.{Outcome, ok, err, panic, hang}

infixl 5 ◌>>=◌ ◌>>◌
abbrev pub ◌>>=◌ : {E A B : Type 0} → Outcome E A → (A → Outcome E B) → Outcome E B
hang >>= next = hang
panic >>= next = panic
err why >>= next = err why
ok value >>= next = next value

abbrev pub ◌>>◌ : {E B : Type 0} → Outcome E (Unit {0}) → Outcome E B → Outcome E B
first >> second = first >>= λ _. second

abbrev pub assert : {E : Type 0} → Bool → Outcome E (Unit {0})
assert true = ok tt
assert false = panic

-- An index out of range and an `unwrap` of `None` panic.
abbrev pub unwrap : {E A : Type 0} → Option A → Outcome E A
unwrap none = panic
unwrap (some a) = ok a

-- Where two calls in sequence return a value, the first one returned.
pub >>=-cut :
    {E A B : Type 0} {result : B} (first : Outcome E A) (next : A → Outcome E B)
    → (first >>= next) ≡ ok result
    → (value : A) × (next value ≡ ok result) × (first ≡ ok value)
>>=-cut hang next returned = absurd (cc returned)
>>=-cut panic next returned = absurd (cc returned)
>>=-cut (err why) next returned = absurd (cc returned)
>>=-cut (ok value) next returned = (value, returned, refl)

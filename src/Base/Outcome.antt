-- ===== src/Base/Outcome.antt =====
-- How a call of the Rust code ends, and stateful calls in sequence.

-- `Ok`, `Err`, a panic (failed `assert!`, `unwrap`, arithmetic overflow), or a wait for ever on a
-- lock that the caller itself holds.
pub data Outcome (E A : Type 0) : Type 0 where
  ok : A → Outcome E A
  err : E → Outcome E A
  panic : Outcome E A
  hang : Outcome E A

-- A call that may change the state `S`; what it changed before it failed stays changed.
abbrev pub Action : Type 0 → Type 0 → Type 0 → Type 0
Action S E A = S → S × Outcome E A

abbrev pub pure : {S E A : Type 0} → A → Action S E A
pure a s = (s, ok a)

abbrev pub fail : {S E A : Type 0} → E → Action S E A
fail e s = (s, err e)

abbrev pub crash : {S E A : Type 0} → Action S E A
crash s = (s, panic)

abbrev pub and_then : {S E A B : Type 0} → S × Outcome E A → (A → Action S E B) → S × Outcome E B
and_then (s, ok a) k = k a s
and_then (s, err e) k = (s, err e)
and_then (s, panic) k = (s, panic)
and_then (s, hang) k = (s, hang)

infixl 5 ◌>>=◌ ◌>>◌
abbrev pub ◌>>=◌ : {S E A B : Type 0} → Action S E A → (A → Action S E B) → Action S E B
◌>>=◌ first next s = and_then (first s) next

abbrev pub ◌>>◌ : {S E B : Type 0} → Action S E (Unit {0}) → Action S E B → Action S E B
first >> second = first >>= λ _. second

-- A call that reads or computes only.
abbrev pub lift : {S E A : Type 0} → Outcome E A → Action S E A
lift o s = (s, o)

-- A call of a part of the state.
abbrev pub on_first : {S X E A : Type 0} → Action S E A → Action (S × X) E A
on_first m (s, x) = let (s', o) = m s in ((s', x), o)

-- `unwrap` and `expect` of a `Result`.
abbrev pub must : {S E A : Type 0} → Action S E A → Action S E A
must m s =
    let (s', o) = m s in
    elim o [ ok a ↦ (s', ok a) | err e ↦ (s', panic) | panic ↦ (s', panic) | hang ↦ (s', hang) ]

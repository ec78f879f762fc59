-- ===== src/Base/Post.antt =====
-- What holds of the value of a call that succeeds.
use mathlib.Core.Path.{subst}
use rcore_fs.Base.{◌≡◌, refl, Bool, true, false, if◌then◌else◌}
use rcore_fs.Base.Outcome.{Outcome, Action, ok, err, panic, hang, pure, fail, and_then, ◌>>=◌}

module _ {S E : Type 0} where
  abbrev pub Post : {A : Type 0} → Action S E A → (A → Type 0) → Type 0
  Post {A} m P = (s t : S) (a : A) → m s ≡ (t, ok a) → P a

  pub pure_Post : {A : Type 0} (a : A) (P : A → Type 0) → P a → Post (pure a) P
  pure_Post a P h s t b e = let same : a ≡ b = cc e in subst P same h

  pub fail_Post : {A : Type 0} (e : E) (P : A → Type 0) → Post {A = A} (fail e) P
  fail_Post e P s t b e' = absurd cc

  pub if_Post :
      {A : Type 0} (c : Bool) (m m' : Action S E A) (P : A → Type 0)
      → (c ≡ true → Post m P)
      → (c ≡ false → Post m' P)
      → Post (if c then m else m') P
  if_Post true m m' P h h' = h refl
  if_Post false m m' P h h' = h' refl

  pub then_Post :
      {A B : Type 0} (m : Action S E A) (k : A → Action S E B) (Q : A → Type 0) (P : B → Type 0)
      → Post m Q
      → ((a : A) → Q a → Post (k a) P)
      → Post (m >>= k) P
  then_Post {A} {B} m k Q P first next s t b = go (m s) refl
    where
      go : (p : S × Outcome E A) → m s ≡ p → and_then p k ≡ (t, ok b) → P b
      go (r, ok a) e = next a (first s r a e) r t b
      go (r, err e) e' = λ e''. absurd cc
      go (r, panic) e = λ e''. absurd cc
      go (r, hang) e = λ e''. absurd cc

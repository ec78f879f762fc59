-- ===== src/Vfs/Descend.antt =====
-- `lookup` of rcore-fs/src/vfs.rs against a walk from name to name.
use rcore_fs.Base.{
  ℕ, zero, suc, ◌≤◌, ◌≡◌, refl, ap, ◌∙◌, Bool, true, false, ◌&&◌, Option, some, List, [], ◌∷◌, ◌++◌,
  arith, ◌==◌, if◌then◌else◌, length, drop, not,
}
use rcore_fs.Base.Names.{Name}
use rcore_fs.Base.Outcome.{Outcome, Action, ok, err, panic, hang, pure, and_then, ◌>>=◌, ◌>>◌}
use rcore_fs.Vfs.{FsError, is_sym_link_type}
use rcore_fs.Vfs.Path.{slash, split_name}
use rcore_fs.Vfs.Walk.{
  NodeCalls, starts_with_slash, follow_name, step, walk, start, lookup_follow, lookup, require_dir,
}

-- The names with a '/' between them.
abbrev pub path_of : List Name → List ℕ
path_of [] = []
path_of (name ∷ []) = name
path_of (name ∷ next ∷ names) = name ++ (slash ∷ path_of (next ∷ names))

-- Behind a call, one that may run out of fuel.
abbrev then_some :
    {S E A B : Type 0}
    → S × Outcome E A
    → (A → S → Option (S × Outcome E B))
    → Option (S × Outcome E B)
then_some (s, ok a) f = f a s
then_some (s, err e) f = some (s, err e)
then_some (s, panic) f = some (s, panic)
then_some (s, hang) f = some (s, hang)

module _ {S E A B : Type 0} where
  -- Two calls in sequence on both sides.
  lockstep :
      {C : Type 0} (p : S × Outcome E A) (k : A → Action S E B)
      (f : B → S → Option (S × Outcome E C)) (l : A → Action S E C)
      → ((a : A) (s : S) → then_some (k a s) f ≡ some (l a s))
      → then_some (and_then p k) f ≡ some (and_then p l)
  lockstep (s, ok a) k f l h = h a s
  lockstep (s, err e) k f l h = refl
  lockstep (s, panic) k f l h = refl
  lockstep (s, hang) k f l h = refl

module _ {S I : Type 0} (calls : NodeCalls S I) where
  -- From name to name: every one is looked up in a directory, and what it leads to is asked for its
  -- type.
  pub descend : I → List Name → Action S FsError I
  descend node [] = pure node
  descend node (name ∷ names) = do
    info ← calls.metadata node
    require_dir calls info.type_
    next ← calls.find node name
    next_info ← calls.metadata next
    descend next names

  walk-step :
      (fuel : ℕ) (self node : I) (b : ℕ) (bs : List ℕ) (times : ℕ) (s : S)
      → walk calls (suc fuel) self node (b ∷ bs) times s
        ≡ then_some
            (step calls self node (b ∷ bs) times s)
            (λ next s'. walk calls fuel self next.0 next.1 next.2 s')
  unfolding walk
  walk-step fuel self node b bs times s = go (step calls self node (b ∷ bs) times s)
    where
      go :
          (p : S × Outcome FsError (I × List ℕ × ℕ))
          → (elim p.1 as (λ _. Option (S × Outcome FsError I)) [
            | ok next ↦ walk calls fuel self next.0 next.1 next.2 p.0
            | err e ↦ some (p.0, err e)
            | panic ↦ some (p.0, panic)
            | hang ↦ some (p.0, hang)
          ])
            ≡ then_some p (λ next s'. walk calls fuel self next.0 next.1 next.2 s')
      go (s', ok next) = refl
      go (s', err e) = refl
      go (s', panic) = refl
      go (s', hang) = refl

  if_false : {A : Type 0} (c : Bool) (a b : A) → c ≡ false → (if c then a else b) ≡ b
  if_false true a b e = absurd cc
  if_false false a b e = refl

  -- What the loop does with a path that starts with a name.
  plain_body :
      (self node : I) (path name rest : List ℕ)
      → starts_with_slash path ≡ false
      → split_name path ≡ (name, rest)
      → (length name == 0) ≡ false
      → (if starts_with_slash path
          then (do root ← calls.root_inode self; pure (root, drop 1 path, 0))
          else (if length (split_name path).0 == 0
              then pure (node, (split_name path).1, 0)
              else follow_name calls node (split_name path).0 (split_name path).1 0))
        ≡ follow_name calls node name rest 0
  plain_body self node path name rest no_slash split nonempty =
      if_false (starts_with_slash path) _ _ no_slash
      ∙ ap
          (λ (p : Name × List ℕ).
            if length p.0 == 0 then pure (node, p.1, 0) else follow_name calls node p.0 p.1 0)
          split
      ∙ if_false (length name == 0) _ _ nonempty

  no_link :
      (c : Bool) (m : Action S FsError (I × List ℕ × ℕ)) (a : I × List ℕ × ℕ) (s : S)
      → (if c && false then m else pure a) s ≡ (s, ok a)
  no_link true m a s = refl
  no_link false m a s = refl

  -- One name of the path.
  part_step :
      (fuel : ℕ) (self node : I) (b : ℕ) (bs name rest : List ℕ) (names : List Name) (s : S)
      → starts_with_slash (b ∷ bs) ≡ false
      → split_name (b ∷ bs) ≡ (name, rest)
      → (length name == 0) ≡ false
      → ((next : I) (s' : S) → walk calls fuel self next rest 0 s' ≡ some (descend next names s'))
      → walk calls (suc fuel) self node (b ∷ bs) 0 s ≡ some (descend node (name ∷ names) s)
  unfolding step descend follow_name
  part_step fuel self node b bs name rest names s no_slash split nonempty later =
      walk-step fuel self node b bs 0 s
      ∙ lockstep (calls.metadata node s) _ _ _ (λ info s1.
        lockstep (require_dir calls info.type_ s1) _ _ _ (λ _ s2.
          ap
            (λ (m : Action S FsError (I × List ℕ × ℕ)).
              then_some (m s2) (λ next s'. walk calls fuel self next.0 next.1 next.2 s'))
            (plain_body self node (b ∷ bs) name rest no_slash split nonempty)
          ∙ lockstep (calls.find node name s2) _ _ _ (λ next s3.
            lockstep (calls.metadata next s3) _ _ _ (λ next_info s4.
              ap (λ p. then_some p (λ next s'. walk calls fuel self next.0 next.1 next.2 s'))
                (no_link (is_sym_link_type next_info.type_) _ (next, rest, 0) s4)
              ∙ later next s4))))

-- No byte is a '/'.
abbrev pub has_no_slash : Name → Bool
has_no_slash [] = true
has_no_slash (b ∷ bs) = not (b == slash) && has_no_slash bs

-- Every name has a byte and none is a '/'.
abbrev pub are_names : List Name → Bool
are_names [] = true
are_names (name ∷ names) = not (length name == 0) && has_no_slash name && are_names names

split_name-last : (name : Name) → has_no_slash name ≡ true → split_name name ≡ (name, [])
unfolding split_name
split_name-last [] h = refl
split_name-last (b ∷ bs) h = ground (arith, h, split_name-last bs)

split_name-append :
    (name rest : List ℕ)
    → has_no_slash name ≡ true
    → split_name (name ++ (slash ∷ rest)) ≡ (name, rest)
unfolding split_name
split_name-append [] rest h = refl
split_name-append (b ∷ bs) rest h = ground (arith, h, split_name-append bs rest)

module _ {S I : Type 0} (calls : NodeCalls S I) (self : I) where
  walk-path_of :
      (names : List Name) (node : I) (s : S) (fuel : ℕ)
      → are_names names ≡ true
      → length names ≤ fuel
      → walk calls fuel self node (path_of names) 0 s ≡ some (descend calls node names s)
  unfolding walk descend
  walk-path_of [] node s fuel h k = refl
  walk-path_of ([] ∷ names) node s fuel h k = absurd (ground (arith, h))
  walk-path_of ((b ∷ bs) ∷ names) node s zero h k = absurd (omega arith)
  walk-path_of ((b ∷ bs) ∷ []) node s (suc fuel) h k =
      part_step calls fuel self node b bs (b ∷ bs) [] [] s (ground (arith, h))
        (split_name-last (b ∷ bs) (ground (arith, h))) (ground arith)
        (λ next s'. walk-path_of [] next s' fuel refl (omega arith))
  walk-path_of ((b ∷ bs) ∷ name ∷ names) node s (suc fuel) h k =
      part_step calls fuel self node b (bs ++ (slash ∷ path_of (name ∷ names))) (b ∷ bs)
        (path_of (name ∷ names)) (name ∷ names) s (ground (arith, h))
        (split_name-append (b ∷ bs) (path_of (name ∷ names)) (ground (arith, h))) (ground arith)
        (λ next s'. walk-path_of (name ∷ names) next s' fuel (ground (arith, h)) (omega arith))

  -- `lookup` of names with one '/' between them, none of them empty, is the walk from name to name: it
  -- ends in the same state with the same inode or the same error, with a round of fuel for each name.
  pub lookup_lem :
      (names : List Name) (s : S) (fuel : ℕ)
      → are_names names ≡ true
      → length names ≤ fuel
      → lookup calls fuel self (path_of names) s
        ≡ some ((start calls self >>= λ node. descend calls node names) s)
  unfolding lookup lookup_follow
  lookup_lem names s fuel h k = go (start calls self s)
    where
      go :
          (p : S × Outcome FsError I)
          → (elim p.1 as (λ _. Option (S × Outcome FsError I)) [
            | ok result ↦ walk calls fuel self result (path_of names) 0 p.0
            | err e ↦ some (p.0, err e)
            | panic ↦ some (p.0, panic)
            | hang ↦ some (p.0, hang)
          ])
            ≡ some (and_then p (λ node. descend calls node names))
      go (s', ok node) = walk-path_of names node s' fuel h k
      go (s', err e) = refl
      go (s', panic) = refl
      go (s', hang) = refl

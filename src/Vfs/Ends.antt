-- ===== src/Vfs/Ends.antt =====
-- The walk of a path in rcore-fs/src/vfs.rs comes to an end, through symbolic links too.
use rcore_fs.Base.{
  ℕ, zero, suc, ◌+◌, ◌-◌, ◌*◌, ◌<◌, ◌≤◌, ◌≡◌, refl, ap, ◌∙◌, ◌&&◌, Option, some, List, [], ◌∷◌,
  arith, leb, ltb, ◌==◌, if◌then◌else◌, length, take, replicate, length-append, length-take,
  length-replicate, inl, inr, Bool-cases,
}
use rcore_fs.Base.Outcome.{Outcome, ok, err, panic, hang}
use rcore_fs.Base.Post.{Post, pure_Post, if_Post, then_Post}
use rcore_fs.Vfs.{FsError, is_sym_link_type}
use rcore_fs.Vfs.Path.{slash, split_name, ends_with_slash, join, is_utf8}
use rcore_fs.Vfs.Walk.{
  NodeCalls, starts_with_slash, read_link, follow_name, step, walk, start, lookup_follow,
  require_dir,
}

length-split_name : (bs : List ℕ) → length (split_name bs).1 ≤ length bs - 1
unfolding split_name
length-split_name [] = omega arith
length-split_name (b ∷ bs) =
    let rest = length-split_name bs in
    elim (Bool-cases (b == slash)) [
      | inl same ↦ ground (arith, same)
      | inr other ↦ ground (arith, other, rest)
    ]

length-join : (path rest : List ℕ) → length (join path rest) ≤ length path + 1 + length rest
unfolding join
length-join path rest = elim (Bool-cases (ends_with_slash path)) [
  | inl same ↦ ground (arith, same, length-append path rest)
  | inr other ↦ ground (arith, other, length-append path (slash ∷ rest))
]

module _ {S I : Type 0} (calls : NodeCalls S I)
    (keeps : (inode : I) (offset : ℕ) (buf : List ℕ) (s : S)
      → length (calls.read_at inode offset buf s).0.1 ≡ length buf) where
  -- How many rounds are left at most.
  abbrev pub rounds : List ℕ → ℕ → ℕ
  rounds rest follow_times = length rest + 258 * follow_times

  read_link-short : (inode : I) → Post (read_link calls inode) (λ path. length path ≤ 256)
  unfolding read_link
  read_link-short inode s t path =
      go (calls.read_at inode 0 (replicate 256 0) s)
        (keeps inode 0 (replicate 256 0) s ∙ length-replicate {A = ℕ} 256 0)
    where
      go :
          (p : (S × List ℕ) × Outcome FsError ℕ)
          → length p.0.1 ≡ 256
          → (elim p.1 as (λ _. S × Outcome FsError (List ℕ)) [
            | ok len ↦
                if leb len (length p.0.1)
                then (if is_utf8 (take len p.0.1)
                    then (p.0.0, ok (take len p.0.1))
                    else (p.0.0, err FsError.not_dir))
                else (p.0.0, panic)
            | err e ↦ (p.0.0, err e)
            | panic ↦ (p.0.0, panic)
            | hang ↦ (p.0.0, hang)
          ])
            ≡ (t, ok path)
          → length path ≤ 256
      go ((s', buf), ok len) count = λ e.
          let short = length-take len buf in
          elim (Bool-cases (leb len (length buf))) [
            | inl inside ↦ elim (Bool-cases (is_utf8 (take len buf))) [
              | inl valid ↦
                  let same : take len buf ≡ path = ground (arith, e, inside, valid) in
                  omega (arith, short, count, ap length same)
              | inr invalid ↦ ground (arith, e, inside, invalid)
            ]
            | inr outside ↦ ground (arith, e, outside)
          ]
      go ((s', buf), err e) count = λ e'. absurd cc
      go ((s', buf), panic) count = λ e'. absurd cc
      go ((s', buf), hang) count = λ e'. absurd cc

  abbrev Fewer : List ℕ → ℕ → I × List ℕ × ℕ → Type 0
  Fewer rest follow_times next = rounds next.1 next.2 + 1 ≤ rounds rest follow_times

  follow_name-Fewer :
      (result : I) (name rest before : List ℕ) (follow_times : ℕ)
      → length rest + 1 ≤ length before
      → Post (follow_name calls result name rest follow_times) (Fewer before follow_times)
  unfolding follow_name
  follow_name-Fewer result name rest before follow_times h =
      then_Post (calls.find result name) _ (λ _. Unit {0}) _ (λ s t a e. tt)
        (λ inode _.
          then_Post (calls.metadata inode) _ (λ _. Unit {0}) _ (λ s t a e. tt)
            (λ info _.
              if_Post (is_sym_link_type info.type_ && ltb 0 follow_times) _ _ _
                (λ follow.
                  then_Post (read_link calls inode) _ _ _ (read_link-short inode) (λ path short.
                    pure_Post _ (Fewer before follow_times) (
                      let some_left : 0 < follow_times = ground (arith, follow) in
                      omega (arith, length-join path rest, short, h, some_left))))
                (λ _. pure_Post _ (Fewer before follow_times) (omega (arith, h)))))

  step-Fewer :
      (self result : I) (b : ℕ) (bs : List ℕ) (follow_times : ℕ)
      → Post (step calls self result (b ∷ bs) follow_times) (Fewer (b ∷ bs) follow_times)
  unfolding step
  step-Fewer self result b bs follow_times =
      let P = Fewer (b ∷ bs) follow_times in
      let split = length-split_name (b ∷ bs) in
      then_Post (calls.metadata result) _ (λ _. Unit {0}) P (λ s t a e. tt)
        (λ info _.
          then_Post (require_dir calls info.type_) _ (λ _. Unit {0}) P (λ s t a e. tt)
            (λ _ _.
              if_Post (starts_with_slash (b ∷ bs)) _ _ P
                (λ _.
                  then_Post (calls.root_inode self) _ (λ _. Unit {0}) P (λ s t a e. tt)
                    (λ root _. pure_Post _ P (omega arith)))
                (λ _.
                  if_Post (length (split_name (b ∷ bs)).0 == 0) _ _ P
                    (λ _. pure_Post _ P (omega (arith, split)))
                    (λ _.
                      follow_name-Fewer result (split_name (b ∷ bs)).0 (split_name (b ∷ bs)).1
                        (b ∷ bs) follow_times (omega (arith, split))))))

  -- Where every call returns, the loop ends within `rounds` rounds.
  walk_ends :
      (fuel : ℕ) (self result : I) (rest : List ℕ) (follow_times : ℕ) (s : S)
      → rounds rest follow_times ≤ fuel
      → (r : S × Outcome FsError I) × (walk calls fuel self result rest follow_times s ≡ some r)
  unfolding walk
  walk_ends fuel self result [] follow_times s h = ((s, ok result), refl)
  walk_ends zero self result (b ∷ bs) follow_times s h = absurd (omega arith)
  walk_ends (suc fuel) self result (b ∷ bs) follow_times s h =
      go (step calls self result (b ∷ bs) follow_times s) refl (λ next rest times s' fewer.
        walk_ends fuel self next rest times s' (omega (arith, h, fewer)))
    where
      after : S × Outcome FsError (I × List ℕ × ℕ) → Option (S × Outcome FsError I)
      after (s', ok (next, rest, times)) = walk calls fuel self next rest times s'
      after (s', err e) = some (s', err e)
      after (s', panic) = some (s', panic)
      after (s', hang) = some (s', hang)

      go :
          (p : S × Outcome FsError (I × List ℕ × ℕ))
          → step calls self result (b ∷ bs) follow_times s ≡ p
          → ((next : I) (rest : List ℕ) (times : ℕ) (s' : S)
              → rounds rest times + 1 ≤ rounds (b ∷ bs) follow_times
              → (r : S × Outcome FsError I) × (walk calls fuel self next rest times s' ≡ some r))
          → (r : S × Outcome FsError I) × (after p ≡ some r)
      go (s', ok (next, rest, times)) e later =
          later next rest times s'
            (step-Fewer self result b bs follow_times s s' (next, rest, times) e)
      go (s', err e) _ later = ((s', err e), refl)
      go (s', panic) _ later = ((s', panic), refl)
      go (s', hang) _ later = ((s', hang), refl)

  -- With fuel for the bytes of the path and 258 rounds for every symbolic link that may be followed,
  -- `lookup_follow` has a result, whatever the calls of the file system return, if a read gives back
  -- a buffer of the length that it got.
  pub lookup_follow_lem :
      (self : I) (path : List ℕ) (follow_times : ℕ) (s : S) (fuel : ℕ)
      → length path + 258 * follow_times ≤ fuel
      → (r : S × Outcome FsError I) × (lookup_follow calls fuel self path follow_times s ≡ some r)
  unfolding lookup_follow
  lookup_follow_lem self path follow_times s fuel h = go (start calls self s)
    where
      go :
          (p : S × Outcome FsError I)
          → (r : S × Outcome FsError I) × (elim p.1 as (λ _. Option (S × Outcome FsError I)) [
            | ok result ↦ walk calls fuel self result path follow_times p.0
            | err e ↦ some (p.0, err e)
            | panic ↦ some (p.0, panic)
            | hang ↦ some (p.0, hang)
          ]
              ≡ some r)
      go (s', ok result) = walk_ends fuel self result path follow_times s' h
      go (s', err e) = ((s', err e), refl)
      go (s', panic) = ((s', panic), refl)
      go (s', hang) = ((s', hang), refl)

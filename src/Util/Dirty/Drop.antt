-- ===== src/Util/Dirty/Drop.antt =====
-- When a `Dirty` value of rcore-fs/src/dirty.rs may be dropped.
use rcore_fs.Base.{◌≡◌, ◌≢◌, refl, ◌↔◌, Bool, true, false, List, [], ◌∷◌, arith}
use rcore_fs.Base.Outcome.{ok}
use rcore_fs.Util.Dirty.{Dirty, Call, turn_stale, turn_dirty, clear_stale, sync, assign, run, drop}

module _ {ℓ} {T : Type ℓ} where
  -- The calls that leave something to write back.
  unfoldable pub modifies : Call T → Bool
  modifies Call.dirty_call = true
  modifies (Call.assign_call v) = true
  modifies Call.stale_call = false
  modifies Call.clear_call = false
  modifies Call.sync_call = false

  -- None of the calls modifies.
  abbrev pub Unmodified : List (Call T) → Type 0
  Unmodified [] = Unit
  Unmodified (c ∷ cs) = (modifies c ≡ false) × Unmodified cs

  abbrev pub NoSync : List (Call T) → Type ℓ
  NoSync [] = Unit
  NoSync (c ∷ cs) = (c ≢ Call.sync_call) × NoSync cs

  -- Without a `sync` a value that needs writing goes on needing it.
  run_keeps_dirty :
      (d : Dirty T) (cs : List (Call T)) → d.dirty ≡ true → NoSync cs → (run d cs).dirty ≡ true
  unfolding run
  run_keeps_dirty d [] h n = h
  run_keeps_dirty d (Call.stale_call ∷ cs) h n = run_keeps_dirty (turn_stale d) cs h n.1
  run_keeps_dirty d (Call.dirty_call ∷ cs) h n = run_keeps_dirty (turn_dirty d) cs refl n.1
  run_keeps_dirty d (Call.clear_call ∷ cs) h n = run_keeps_dirty (clear_stale d) cs h n.1
  run_keeps_dirty d (Call.sync_call ∷ cs) h n = absurd (n.0 refl)
  run_keeps_dirty d (Call.assign_call v ∷ cs) h n = run_keeps_dirty (assign d v) cs refl n.1

  run_clean :
      (d : Dirty T) (cs : List (Call T))
      → d.dirty ≡ false
      → NoSync cs
      → ((run d cs).dirty ≡ false) ↔ Unmodified cs
  unfolding run modifies
  run_clean d [] h n = (λ _. tt, λ _. h)
  run_clean d (Call.stale_call ∷ cs) h n =
      let ih = run_clean (turn_stale d) cs h n.1 in (λ e. (refl, ih.0 e), λ u. ih.1 u.1)
  run_clean d (Call.dirty_call ∷ cs) h n =
      (λ e. cc (run_keeps_dirty (turn_dirty d) cs refl n.1), λ u. cc (u.0))
  run_clean d (Call.clear_call ∷ cs) h n =
      let ih = run_clean (clear_stale d) cs h n.1 in (λ e. (refl, ih.0 e), λ u. ih.1 u.1)
  run_clean d (Call.sync_call ∷ cs) h n = absurd (n.0 refl)
  run_clean d (Call.assign_call v ∷ cs) h n =
      (λ e. cc (run_keeps_dirty (assign d v) cs refl n.1), λ u. cc (u.0))

  drop-ok : (d : Dirty T) → (drop d ≡ ok tt) ↔ (d.dirty ≡ false)
  unfolding drop
  drop-ok d = (λ h. ground arith, λ h. ground arith)

  -- Behind a `sync`, and with no further one, the value may be dropped exactly when no call since
  -- then wrote to it or marked it dirty.
  pub drop-run-sync :
      (d : Dirty T) (cs : List (Call T))
      → NoSync cs
      → (drop (run (sync d) cs) ≡ ok tt) ↔ Unmodified cs
  drop-run-sync d cs n =
      let clean = run_clean (sync d) cs refl n in
      let last = drop-ok (run (sync d) cs) in (λ h. clean.0 (last.0 h), λ u. last.1 (clean.1 u))

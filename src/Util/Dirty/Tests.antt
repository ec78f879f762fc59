-- ===== src/Util/Dirty/Tests.antt =====
-- A `Dirty` value through a few calls.
use rcore_fs.Base.{ℕ, ◌≡◌, refl, ◌↔◌, List, [], ◌∷◌}
use rcore_fs.Base.Outcome.{ok, panic}
use rcore_fs.Util.Dirty.{new_dirty, sync, Call, run, drop}
use rcore_fs.Util.Dirty.Drop.{Unmodified, drop-run-sync}

abbrev calls : List (Call ℕ)
calls = Call.stale_call ∷ Call.clear_call ∷ []

drop_unsynced : drop (new_dirty {T = ℕ} 3) ≡ panic
unfolding drop
drop_unsynced = refl

drop-run-sync_example : (drop (run (sync (new_dirty 3)) calls) ≡ ok tt) ↔ Unmodified calls
drop-run-sync_example = drop-run-sync (new_dirty 3) calls ((λ e. cc e), ((λ e. cc e), tt))

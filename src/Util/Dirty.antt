-- ===== src/Util/Dirty.antt =====
-- `Dirty<T>` of rcore-fs/src/dirty.rs: a value that knows whether it has to be written back.
pub mod Drop
mod Tests
use rcore_fs.Base.{Bool, true, false, List, [], ◌∷◌, if◌then◌else◌}
use rcore_fs.Base.Outcome.{Outcome, ok, panic}

pub record Dirty {ℓ} (T : Type ℓ) : Type ℓ where
  pub value : T
  pub dirty : Bool
  pub stale : Bool

-- The calls that a holder makes.
pub data Call {ℓ} (T : Type ℓ) : Type ℓ where
  stale_call dirty_call clear_call sync_call : Call T
  assign_call : T → Call T

module _ {ℓ} {T : Type ℓ} where
  abbrev pub new : T → Dirty T
  new v = record { value = v; dirty = false; stale = false }

  abbrev pub new_dirty : T → Dirty T
  new_dirty v = record { value = v; dirty = true; stale = false }

  abbrev pub turn_stale : Dirty T → Dirty T
  turn_stale d = record d { stale = true }

  abbrev pub turn_dirty : Dirty T → Dirty T
  turn_dirty d = record d { dirty = true }

  abbrev pub clear_stale : Dirty T → Dirty T
  clear_stale d = record d { stale = false }

  abbrev pub sync : Dirty T → Dirty T
  sync d = record d { dirty = false; stale = false }

  -- A write of `v` through `deref_mut`.
  abbrev pub assign : Dirty T → T → Dirty T
  assign d v = record d { value = v; dirty = true }

  -- `Drop::drop`, which asserts that nothing is left to write back.
  pub drop : Dirty T → Outcome (Unit {0}) (Unit {0})
  drop d = if d.dirty then panic else ok tt

  pub step : Dirty T → Call T → Dirty T
  step d Call.stale_call = turn_stale d
  step d Call.dirty_call = turn_dirty d
  step d Call.clear_call = clear_stale d
  step d Call.sync_call = sync d
  step d (Call.assign_call v) = assign d v

  pub run : Dirty T → List (Call T) → Dirty T
  unfolding step
  run d [] = d
  run d (c ∷ cs) = run (step d c) cs

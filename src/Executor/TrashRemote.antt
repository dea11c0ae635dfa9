-- ===== src/Executor/TrashRemote.antt =====
-- `run_trash_remote` of src/sync/executor.rs as the sequence of its steps, so that a run can stop
-- behind any of them. The request to Drive is a parameter, and the clock stands still.
use oxidrive.Base.{ℕ, Bool, true, false, Option, none, some, List, [], ◌∷◌, take}
use oxidrive.Text.{Text}
use oxidrive.Types.{
  Timestamp, Tombstone, PendingOp, PendingOpKind, PendingOpStage, planned, side_effect_started,
  side_effect_done, metadata_committed,
}
use oxidrive.Types.Path.{RelativePath}
use oxidrive.Store.Table.{Table, Codec}
use oxidrive.Store.Session.{Store}
use oxidrive.Executor.Tombstone.{write_tombstone, first_observation}
use oxidrive.Engine.Recovery.{clear_path_state_for_recovery}

module _ (T : Table) (P : Codec PendingOp) where
  abbrev put_entry : RelativePath → T.State → Option (List ℕ) → Option T.State
  put_entry path t none = none
  put_entry path t (some data_) = some (T.put path data_ t)

  -- None if the entry cannot be encoded.
  unfoldable pub set_pending_op :
      RelativePath → PendingOpKind → PendingOpStage → Timestamp → T.State → Option T.State
  set_pending_op path kind stage now t =
      put_entry path t (P.serialize (record { kind = kind; stage = stage; updated_at = now }))

pub data TrashStep : Type 0 where
  journal : PendingOpStage → TrashStep
  request : TrashStep
  tombstone : TrashStep
  clear : TrashStep

-- The body of the function.
abbrev pub trash_steps : List TrashStep
trash_steps =
    journal planned
    ∷ journal side_effect_started
    ∷ request
    ∷ journal side_effect_done
    ∷ tombstone
    ∷ clear
    ∷ journal metadata_committed
    ∷ []

-- The session in memory, the two tables, and Drive.
pub record Live (S D : Type 0) : Type 0 where
  pub store : Store
  pub pending_ops : S
  pub tombstones : S
  pub drive : D

module _ (T : Table) (P : Codec PendingOp) (C : Codec Tombstone) {D : Type 0}
    (trash : Text → D → D × Bool) (path : RelativePath) (remote_id device_id : Text)
    (now : Timestamp) where
  abbrev pub journaled : Live T.State D → Option T.State → Live T.State D × Bool
  journaled live none = (live, false)
  journaled live (some t) = (record live { pending_ops = t }, true)

  abbrev requested : Live T.State D → D × Bool → Live T.State D × Bool
  requested live (drive, answered) = (record live { drive = drive }, answered)

  -- `let _ = write_tombstone(…)`
  abbrev buried : Live T.State D → Option T.State → Live T.State D × Bool
  buried live none = (live, true)
  buried live (some t) = (record live { tombstones = t }, true)

  -- The state behind a step, and whether the function goes on.
  unfoldable pub trash_step : TrashStep → Live T.State D → Live T.State D × Bool
  unfolding set_pending_op write_tombstone clear_path_state_for_recovery
  trash_step (journal stage) live =
      journaled live
        (set_pending_op T P path PendingOpKind.delete_remote stage now live.pending_ops)
  trash_step request live = requested live (trash remote_id live.drive)
  trash_step tombstone live =
      buried live (
        write_tombstone T C path (first_observation (some remote_id) now device_id) live.tombstones)
  trash_step clear live =
      (record live { store = clear_path_state_for_recovery path live.store }, true)

  abbrev pub go_on :
      (Live T.State D → Live T.State D × Bool) → Live T.State D × Bool → Live T.State D × Bool
  go_on rest (live, true) = rest live
  go_on rest (live, false) = (live, false)

  unfoldable pub run_steps : List TrashStep → Live T.State D → Live T.State D × Bool
  unfolding trash_step
  run_steps [] live = (live, true)
  run_steps (step ∷ steps) live = go_on (run_steps steps) (trash_step step live)

  unfoldable pub run_trash_remote : Live T.State D → Live T.State D × Bool
  unfolding run_steps
  run_trash_remote live = run_steps trash_steps live

  -- The state when the process stops behind so many steps.
  abbrev pub stopped_after : ℕ → Live T.State D → Live T.State D
  stopped_after n live = (run_steps (take n trash_steps) live).0

-- ===== src/Executor/DeleteLocal.antt =====
-- The deletion of a local file, the `DeleteLocal` branch of `execute` in src/sync/executor.rs.
use oxidrive.Base.{
  ℕ, ◌+◌, Bool, Option, none, some, List, [], ◌∷◌, ◌++◌, if◌then◌else◌, Result, ok, err,
}
use oxidrive.Text.{Text}
use oxidrive.Types.{
  Timestamp, SyncRecord, Tombstone, PendingOp, PendingOpKind, PendingOpStage, planned,
  side_effect_started, side_effect_done, metadata_committed,
}
use oxidrive.Types.Path.{RelativePath}
use oxidrive.Store.Table.{Table, Codec}
use oxidrive.Store.Session.{get}
use oxidrive.Engine.Recovery.{clear_path_state_for_recovery}
use oxidrive.Executor.Tombstone.{confirm_delete_observation, write_tombstone, first_observation}
use oxidrive.Executor.Effects.{
  ExecError, tombstone_error, World, Exec, Disk, pure, lift, on_disk, on_store, of_store,
  journal_stage, clear_pending_op, resolve_local_path, ◌>>=◌,
}
use oxidrive.Executor.LocalTrash.{move_local_file_to_trash}

-- `SyncReport`, without its duration and with the errors as values.
pub record SyncReport : Type 0 where
  pub uploaded : List RelativePath
  pub downloaded : List RelativePath
  pub deleted_local : List RelativePath
  pub deleted_remote : List RelativePath
  pub conflicts : List RelativePath
  pub skipped : ℕ
  pub errors : List (RelativePath × ExecError)

abbrev pub add_error : RelativePath → ExecError → SyncReport → SyncReport
add_error path e report = record report { errors = report.errors ++ (path, e) ∷ [] }

abbrev pub add_skip : SyncReport → SyncReport
add_skip report = record report { skipped = report.skipped + 1 }

abbrev pub add_deleted_local : RelativePath → SyncReport → SyncReport
add_deleted_local path report = record report { deleted_local = report.deleted_local ++ path ∷ [] }

module _ {W A : Type 0} where
  -- The result of an action as a value.
  abbrev caught : Result ExecError A × W → Result ExecError (Result ExecError A) × W
  caught (r, w) = (ok r, w)

  abbrev pub attempt : Exec W A → Exec W (Result ExecError A)
  attempt m w = caught (m w)

module _ (T : Table) (P : Codec PendingOp) (C : Codec Tombstone) (D : Type 0) {F : Type 0}
    (K : Disk F) (safe_delete : Bool) (stamp device_id : Text) (now : Timestamp)
    (path : RelativePath) (report : SyncReport) where
  abbrev Action : Type 0 → Type 0
  Action A = Exec (World T.State D F) A

  abbrev pub id_of : Option SyncRecord → Option Text
  id_of none = none
  id_of (some r) = r.drive_file_id

  abbrev pub counted :
      World T.State D F → Option (Bool × T.State) → Result ExecError Bool × World T.State D F
  counted w none = (err (tombstone_error path), w)
  counted w (some (confirmed, t)) = (ok confirmed, record w { tombstones = t })

  unfoldable pub observe : Option Text → Action Bool
  unfolding confirm_delete_observation
  observe id w = counted w (confirm_delete_observation T C path id now device_id w.tombstones)

  abbrev pub stage : PendingOpStage → Action Unit
  stage s = journal_stage T P now path PendingOpKind.delete_local s

  abbrev written : World T.State D F → Option T.State → Result ExecError Unit × World T.State D F
  written w none = (ok tt, w)
  written w (some t) = (ok tt, record w { tombstones = t })

  -- `let _ = write_tombstone(…)`
  unfoldable pub bury : Option Text → Action Unit
  unfolding write_tombstone
  bury id w = written w (write_tombstone T C path (first_observation id now device_id) w.tombstones)

  -- The branches that push an error and go on to the next action.
  abbrev pub or_error : {A : Type 0} → Result ExecError A → Action SyncReport → Action SyncReport
  or_error (ok a) rest w = rest w
  or_error (err e) rest w = pure (add_error path e report) w

  abbrev pub or_clear : {A : Type 0} → Result ExecError A → Action SyncReport → Action SyncReport
  or_clear (ok a) rest w = rest w
  or_clear (err e) rest w = (do _ ← clear_pending_op T P path; pure (add_error path e report)) w

  unfoldable pub delete_file : Exec F Unit
  unfolding move_local_file_to_trash
  delete_file = if safe_delete then move_local_file_to_trash K stamp path else K.remove_file path

  abbrev pub committed_report : Result ExecError Unit → SyncReport
  committed_report (ok u) = add_deleted_local path report
  committed_report (err e) = add_error path e (add_deleted_local path report)

  -- Behind the deletion.
  abbrev pub forget_file : Option Text → Action SyncReport
  forget_file id = do
    _ ← on_store (clear_path_state_for_recovery path)
    committed ← attempt (stage metadata_committed)
    _ ← bury id
    pure (committed_report committed)

  abbrev pub after_delete : Option Text → Action SyncReport
  after_delete id = do
    finished ← attempt (stage side_effect_done)
    or_error finished (forget_file id)

  abbrev pub do_delete : Option Text → Action SyncReport
  do_delete id = do deleted ← attempt (on_disk delete_file); or_clear deleted (after_delete id)

  abbrev pub start_delete : Option Text → Action SyncReport
  start_delete id = do
    started ← attempt (stage side_effect_started)
    or_error started (do_delete id)

  abbrev pub resolve_delete : Option Text → Action SyncReport
  resolve_delete id = do
    full ← attempt (lift (resolve_local_path path))
    or_clear full (start_delete id)

  abbrev pub confirmed_delete : Option Text → Action SyncReport
  confirmed_delete id = do
    journaled ← attempt (stage planned)
    or_error journaled (resolve_delete id)

  unfoldable pub delete_local : Action SyncReport
  unfolding observe get journal_stage resolve_local_path clear_pending_op delete_file
      clear_path_state_for_recovery bury
  delete_local = do
    known ← of_store (get path)
    confirmed ← observe (id_of known)
    if confirmed then confirmed_delete (id_of known) else pure (add_skip report)

-- ===== src/Executor/RunExecute.antt =====
-- The loops of `execute` of src/sync/executor.rs.
use oxidrive.Base.{true, false, Option, none, some, List, [], ◌∷◌, if◌then◌else◌, Result, ok, err}
use oxidrive.Text.{Text}
use oxidrive.TextMap.{TextMap, lookup}
use oxidrive.Types.{Timestamp, SyncAction, ConflictResolution, SyncRecord, Tombstone, PendingOp}
use oxidrive.Types.Path.{RelativePath}
use oxidrive.Drive.{DriveFile}
use oxidrive.Store.Table.{Table, Codec}
use oxidrive.Store.Resume.{resumable_upload_session_ttl}
use oxidrive.Store.Session.{get, purge_stale_upload_sessions}
use oxidrive.Engine.Recovery.{clear_path_state_for_recovery}
use oxidrive.Executor.Conflict.{
  FollowUps, actions, needs_remote_id, conflict_resolution_actions, conflict_copy_suffix,
  tag_conflict_copy_resolution,
}
use oxidrive.Executor.Upload.{Outcome, mismatch}
use oxidrive.Executor.DeleteLocal.{SyncReport, add_error, add_skip, attempt, delete_local, observe}
use oxidrive.Executor.Effects.{
  ExecError, no_remote_id, World, Exec, Client, Disk, pure, on_store, of_store, ◌>>=◌,
}
use oxidrive.Executor.Execute.{
  SyncExecutor, Task, upload_task, download_task, trash_task, task_path, apply_outcome,
  add_conflict, Progress, spawn, note, spawned, upload_at, download_at, run_task,
  run_touch_metadata, keep_both,
}

module _ (T : Table) (P : Codec PendingOp) (C : Codec Tombstone) {D F : Type 0}
    (client : Client D F) (K : Disk F) (to_rfc3339 : Timestamp → Text)
    (parse_from_rfc3339 : Text → Option Timestamp) (stamp : Text) (now : Timestamp)
    (self : SyncExecutor) where
  abbrev pub Action : Type 0 → Type 0
  Action A = Exec (World T.State D F) A

  -- The loop's body for an action whose work is done at once.
  abbrev pub on_report : (SyncReport → Action SyncReport) → Progress → Action Progress
  on_report m p = do report ← m p.report; pure (record p { report = report })

  abbrev pub kept_both :
      RelativePath → Option Text → Option DriveFile → Text → SyncReport → Action SyncReport
  kept_both path none row suffix report = pure (add_error path (no_remote_id path) report)
  kept_both path (some id) row suffix report =
      keep_both T P C client K to_rfc3339 parse_from_rfc3339 stamp now self path id row suffix
        report

  abbrev pub resolve :
      TextMap DriveFile
      → RelativePath
      → Option Text
      → ConflictResolution
      → Progress
      → Action Progress
  resolve snap path id (ConflictResolution.rename suffix) p =
      on_report (kept_both path id (lookup path snap) suffix) p
  resolve snap path id (ConflictResolution.conflict_copy suffix) p =
      on_report (kept_both path id (lookup path snap) suffix) p
  resolve snap path id resolution p =
      pure (spawned path snap (conflict_resolution_actions path id resolution) p)

  abbrev pub touched : RelativePath → SyncReport → Result ExecError Unit → SyncReport
  touched path report (ok u) = add_skip report
  touched path report (err e) = add_error path e report

  abbrev pub touch : RelativePath → SyncReport → Action SyncReport
  touch path report = do
    done ←
        attempt
          (run_touch_metadata T P C client K to_rfc3339 parse_from_rfc3339 stamp now self path)
    pure (touched path report done)

  abbrev id_or : Option SyncRecord → Text → Option Text
  id_or none id = some id
  id_or (some r) id = elim (r.drive_file_id) [ none ↦ some id | some own ↦ some own ]

  abbrev pub delete_remote : RelativePath → Text → Progress → Action Progress
  delete_remote path id p = do
    known ← of_store (get path)
    confirmed ←
        observe T P C D K self.safe_delete stamp self.device_id now path p.report (id_or known id)
    pure (if confirmed then spawn (trash_task path id) p else note add_skip p)

  -- The body of the loop over the actions.
  unfoldable pub apply_action : TextMap DriveFile → SyncAction → Progress → Action Progress
  unfolding lookup tag_conflict_copy_resolution conflict_resolution_actions keep_both
      clear_path_state_for_recovery run_touch_metadata delete_local get observe
  apply_action snap (SyncAction.skip path) p = pure (note add_skip p)
  apply_action snap (SyncAction.conflict path id local_md5 resolution) p =
      resolve snap path id (tag_conflict_copy_resolution stamp resolution self.device_id)
        (note (add_conflict path) p)
  apply_action snap (SyncAction.cleanup_metadata path) p = do
    _ ← on_store (clear_path_state_for_recovery path)
    pure p
  apply_action snap (SyncAction.upload path id) p =
      pure (spawn (upload_task path id (lookup path snap) true) p)
  apply_action snap (SyncAction.touch_metadata path) p = on_report (touch path) p
  apply_action snap (SyncAction.download path id) p =
      pure (spawn (download_task path id (lookup path snap)) p)
  apply_action snap (SyncAction.delete_local path) p =
      on_report (delete_local T P C D K self.safe_delete stamp self.device_id now path) p
  apply_action snap (SyncAction.delete_remote path id) p = delete_remote path id p

  unfoldable pub apply_actions : TextMap DriveFile → List SyncAction → Progress → Action Progress
  unfolding apply_action
  apply_actions snap [] p = pure p
  apply_actions snap (act ∷ acts) p = do
    next ← apply_action snap act p
    apply_actions snap acts next

  -- The follow-ups of an upload whose Drive file had changed, until one fails.
  abbrev pub followed :
      RelativePath
      → SyncReport
      → Result ExecError Outcome
      → (SyncReport → Action SyncReport)
      → Action SyncReport
  followed path report (ok outcome) rest = rest (apply_outcome report outcome)
  followed path report (err e) rest = pure (add_error path e report)

  unfoldable pub follow_up : DriveFile → List SyncAction → SyncReport → Action SyncReport
  unfolding apply_outcome
  follow_up remote [] report = pure report
  follow_up remote (SyncAction.download path id ∷ rest) report = do
    done ← attempt (
        download_at T P C client K to_rfc3339 parse_from_rfc3339 stamp now self path id
          (some remote))
    followed path report done (follow_up remote rest)
  follow_up remote (SyncAction.upload path id ∷ rest) report = do
    done ← attempt (
        upload_at T P C client K to_rfc3339 parse_from_rfc3339 stamp now self path id (some remote)
          false)
    followed path report done (follow_up remote rest)
  follow_up remote (other ∷ rest) report = follow_up remote rest report

  abbrev pub follow_ups : RelativePath → DriveFile → FollowUps → SyncReport → Action SyncReport
  follow_ups path remote (actions acts) report = follow_up remote acts report
  follow_ups path remote (needs_remote_id mode) report =
      pure (add_error path (no_remote_id path) report)

  -- The body of the loop over the finished tasks.
  unfoldable pub join_task : Task → Result ExecError Outcome → SyncReport → Action SyncReport
  unfolding follow_up conflict_resolution_actions conflict_copy_suffix apply_outcome
  join_task task (ok (mismatch path id remote)) report =
      follow_ups path remote
        (conflict_resolution_actions path (some id)
          (ConflictResolution.conflict_copy (conflict_copy_suffix stamp self.device_id)))
        (add_conflict path report)
  join_task task (ok outcome) report = pure (apply_outcome report outcome)
  join_task task (err e) report = pure (add_error (task_path task) e report)

  unfoldable pub join_tasks : List Task → SyncReport → Action SyncReport
  unfolding run_task join_task
  join_tasks [] report = pure report
  join_tasks (task ∷ tasks) report = do
    done ← attempt (run_task T P C client K to_rfc3339 parse_from_rfc3339 stamp now self task)
    next ← join_task task done report
    join_tasks tasks next

  abbrev pub empty_report : SyncReport
  empty_report = record {
    uploaded = [];
    downloaded = [];
    deleted_local = [];
    deleted_remote = [];
    conflicts = [];
    skipped = 0;
    errors = [];
  }

  abbrev snapshot_or_empty : Option (TextMap DriveFile) → TextMap DriveFile
  snapshot_or_empty none = []
  snapshot_or_empty (some snap) = snap

  unfoldable pub execute : (List Task → List Task) → List SyncAction → Action SyncReport
  unfolding purge_stale_upload_sessions apply_actions join_tasks
  execute schedule acts = do
    snap ← of_store (λ s. snapshot_or_empty s.remote_snapshot)
    _ ← on_store (λ s. (purge_stale_upload_sessions now resumable_upload_session_ttl s).1)
    progress ← apply_actions snap acts (record { report = empty_report; pending = [] })
    join_tasks (schedule progress.pending) progress.report

-- ===== src/Executor/Execute.antt =====
-- `SyncExecutor::execute` of src/sync/executor.rs: the loop over the actions, and the tasks that it
-- spawns. The tasks run one after another when the loop has ended, in the order of a schedule.
use oxidrive.Base.{
  ℕ, Bool, false, Option, none, some, List, [], ◌∷◌, ◌++◌, if◌then◌else◌, Result, ok, err,
}
use oxidrive.Text.{Text}
use oxidrive.TextMap.{TextMap, lookup}
use oxidrive.Types.{Timestamp, SyncAction, SyncRecord, Tombstone, PendingOp}
use oxidrive.Types.Path.{RelativePath}
use oxidrive.Drive.{DriveFile}
use oxidrive.Store.Table.{Table, Codec}
use oxidrive.Store.Session.{get, put_record}
use oxidrive.Executor.Records.{touched_record}
use oxidrive.Executor.Conflict.{FollowUps, actions, needs_remote_id, path_with_suffix}
use oxidrive.Executor.TrashRemote.{Live, run_trash_remote}
use oxidrive.Executor.Upload.{Outcome, uploaded, downloaded, deleted_remote, mismatch, skipped}
use oxidrive.Executor.RunUpload.{run_upload}
use oxidrive.Executor.Download.{run_download}
use oxidrive.Executor.DeleteLocal.{SyncReport, add_error, add_skip, attempt}
use oxidrive.Executor.Effects.{
  ExecError, no_record, no_remote_id, invalid_follow_up, request_error, World, Exec, Client, Disk,
  pure, lift, read_disk, on_store, of_store, resolve_local_path, ◌>>=◌,
}

-- The fields of `SyncExecutor`, without its semaphores.
pub record SyncExecutor : Type 0 where
  pub stability_ms : ℕ
  pub device_id : Text
  pub safe_delete : Bool
  pub use_leases : Bool

-- A spawned task, with what its closure holds.
pub data Task : Type 0 where
  upload_task :
      RelativePath
      → (remote_id : Option Text) → (listing_row : Option DriveFile) → (guarded : Bool) → Task
  download_task : RelativePath → (remote_id : Text) → (remote_meta : Option DriveFile) → Task
  trash_task : RelativePath → (remote_id : Text) → Task

abbrev pub task_path : Task → RelativePath
task_path (upload_task path id row guarded) = path
task_path (download_task path id meta) = path
task_path (trash_task path id) = path

unfoldable pub apply_outcome : SyncReport → Outcome → SyncReport
apply_outcome report (uploaded p) = record report { uploaded = report.uploaded ++ p ∷ [] }
apply_outcome report (downloaded p) = record report { downloaded = report.downloaded ++ p ∷ [] }
apply_outcome report (deleted_remote p) = record report {
  deleted_remote = report.deleted_remote ++ p ∷ [];
}
apply_outcome report (mismatch p id remote) = report
apply_outcome report skipped = add_skip report

abbrev pub add_conflict : RelativePath → SyncReport → SyncReport
add_conflict path report = record report { conflicts = report.conflicts ++ path ∷ [] }

abbrev pub row_or : Option DriveFile → Option DriveFile → Option DriveFile
row_or none other = other
row_or (some r) other = some r

abbrev known_record : RelativePath → Option SyncRecord → Result ExecError SyncRecord
known_record path none = err (no_record path)
known_record path (some r) = ok r

-- What the loop has so far.
pub record Progress : Type 0 where
  pub report : SyncReport
  pub pending : List Task

abbrev pub spawn : Task → Progress → Progress
spawn task p = record p { pending = p.pending ++ task ∷ [] }

abbrev pub note : (SyncReport → SyncReport) → Progress → Progress
note f p = record p { report = f p.report }

-- The tasks of the follow-ups of a conflict at `path`.
unfoldable pub spawn_follow_ups :
    RelativePath → TextMap DriveFile → List SyncAction → Progress → Progress
unfolding lookup
spawn_follow_ups path snap [] p = p
spawn_follow_ups path snap (SyncAction.upload q id ∷ rest) p =
    spawn_follow_ups path snap rest (spawn (upload_task q id (lookup q snap) false) p)
spawn_follow_ups path snap (SyncAction.download q id ∷ rest) p =
    spawn_follow_ups path snap rest
      (spawn (download_task q id (row_or (lookup q snap) (lookup path snap))) p)
spawn_follow_ups path snap (other ∷ rest) p =
    spawn_follow_ups path snap rest (note (add_error path (invalid_follow_up path)) p)

abbrev pub spawned : RelativePath → TextMap DriveFile → FollowUps → Progress → Progress
spawned path snap (actions acts) p = spawn_follow_ups path snap acts p
spawned path snap (needs_remote_id mode) p = note (add_error path (no_remote_id path)) p

module _ (T : Table) (P : Codec PendingOp) (C : Codec Tombstone) {D F : Type 0}
    (client : Client D F) (K : Disk F) (to_rfc3339 : Timestamp → Text)
    (parse_from_rfc3339 : Text → Option Timestamp) (stamp : Text) (now : Timestamp)
    (self : SyncExecutor) where
  abbrev pub Action : Type 0 → Type 0
  Action A = Exec (World T.State D F) A

  abbrev live : World T.State D F → Live T.State D
  live w = record {
    store = w.store;
    pending_ops = w.pending_ops;
    tombstones = w.tombstones;
    drive = w.drive;
  }

  abbrev pub trashed :
      RelativePath
      → World T.State D F
      → Live T.State D × Bool
      → Result ExecError Outcome × World T.State D F
  trashed path w (l, went_on) = (
    if went_on then ok (deleted_remote path) else err request_error,
    record w {
      store = l.store;
      pending_ops = l.pending_ops;
      tombstones = l.tombstones;
      drive = l.drive;
    },
  )

  abbrev pub upload_at : RelativePath → Option Text → Option DriveFile → Bool → Action Outcome
  upload_at path id row guarded =
      run_upload T P client K to_rfc3339 parse_from_rfc3339 self.device_id now path
        self.stability_ms guarded self.use_leases id row

  abbrev pub download_at : RelativePath → Text → Option DriveFile → Action Outcome
  download_at path id meta = run_download T P client K to_rfc3339 now path id meta

  unfoldable pub run_task : Task → Action Outcome
  unfolding run_upload run_download run_trash_remote
  run_task (upload_task path id row guarded) = upload_at path id row guarded
  run_task (download_task path id meta) = download_at path id meta
  run_task (trash_task path id) = λ w.
      trashed path w (run_trash_remote T P C client.trash_file path id self.device_id now (live w))

  unfoldable pub run_touch_metadata : RelativePath → Action Unit
  unfolding resolve_local_path get put_record touched_record
  run_touch_metadata path = do
    _ ← lift (resolve_local_path path)
    found ← of_store (get path)
    existing ← lift (known_record path found)
    meta ← read_disk (K.metadata path)
    local_md5 ← read_disk (K.compute_md5 path)
    on_store (put_record path (touched_record existing local_md5 meta.modified meta.len now))

  -- Both versions of a conflict: the Drive file is downloaded to another path, and only then the local
  -- file uploaded over it.
  abbrev pub uploaded_second : RelativePath → SyncReport → Result ExecError Outcome → SyncReport
  uploaded_second path report (ok outcome) = apply_outcome report outcome
  uploaded_second path report (err e) = add_error path e report

  abbrev pub upload_second :
      RelativePath
      → Text
      → Option DriveFile
      → SyncReport
      → Result ExecError Outcome
      → Action SyncReport
  upload_second path id row report (err e) = pure (add_error path e report)
  upload_second path id row report (ok outcome) = do
    done ← attempt (upload_at path (some id) row false)
    pure (uploaded_second path (apply_outcome report outcome) done)

  unfoldable pub keep_both :
      RelativePath → Text → Option DriveFile → Text → SyncReport → Action SyncReport
  unfolding path_with_suffix apply_outcome run_upload run_download
  keep_both path id row suffix report = do
    copy ← attempt (download_at (path_with_suffix path suffix) id row)
    upload_second path id row report copy

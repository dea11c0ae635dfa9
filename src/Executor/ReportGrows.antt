-- ===== src/Executor/ReportGrows.antt =====
-- The report of `execute` only grows: what it says of an action's path stays in it.
use oxidrive.Base.{Bool, Option, none, some, List, [], ◌∷◌, Result, ok, err}
use oxidrive.Text.{Text}
use oxidrive.Types.{Timestamp, Tombstone, PendingOp, SyncAction, ConflictResolution}
use oxidrive.Types.Path.{RelativePath}
use oxidrive.Drive.{DriveFile}
use oxidrive.Store.Table.{Table, Codec}
use oxidrive.Executor.Conflict.{
  FollowUps, actions, needs_remote_id, conflict_resolution_actions, conflict_copy_suffix,
}
use oxidrive.Executor.Effects.{ExecError, World, Exec, Client, Disk}
use oxidrive.Executor.Effects.Hoare.{Ensures, Ensures-pure, Ensures-if}
use oxidrive.Executor.Outcomes.{Says-then}
use oxidrive.Executor.Reports.{Any}
use oxidrive.Executor.Upload.{Outcome, uploaded, downloaded, deleted_remote, mismatch, skipped}
use oxidrive.Executor.DeleteLocal.{
  SyncReport, add_error, add_skip, add_deleted_local, or_error, or_clear, committed_report,
  delete_local,
}
use oxidrive.Executor.Execute.{
  SyncExecutor, Task, task_path, apply_outcome, add_conflict, uploaded_second, upload_second,
  keep_both,
}
use oxidrive.Executor.RunExecute.{
  kept_both, touch, touched, followed, follow_up, follow_ups, join_task,
}

-- What every entry that is added to a report keeps.
pub record IsLasting (Q : SyncReport → Type 0) : Type 0 where
  pub outcome : (r : SyncReport) (o : Outcome) → Q r → Q (apply_outcome r o)
  pub error : (p : RelativePath) (e : ExecError) (r : SyncReport) → Q r → Q (add_error p e r)
  pub conflict : (p : RelativePath) (r : SyncReport) → Q r → Q (add_conflict p r)
  pub skip : (r : SyncReport) → Q r → Q (add_skip r)
  pub deleted : (p : RelativePath) (r : SyncReport) → Q r → Q (add_deleted_local p r)

module _ (T : Table) (P : Codec PendingOp) (C : Codec Tombstone) (D : Type 0) {F : Type 0}
    (K : Disk F) (safe_delete : Bool) (stamp device_id : Text) (now : Timestamp)
    (path : RelativePath) (report : SyncReport) (Q : SyncReport → Type 0) (L : IsLasting Q)
    (q : Q report) where
  abbrev Lasts : Exec (World T.State D F) SyncReport → Type 0
  Lasts m = Ensures Any m (λ r _. Q r) Any

  or_error-Lasts :
      {A : Type 0} (a : Result ExecError A) (rest : Exec (World T.State D F) SyncReport)
      → Lasts rest
      → Lasts (or_error T P C D K safe_delete stamp device_id now path report a rest)
  or_error-Lasts (ok a) rest h = h
  or_error-Lasts (err e) rest h = Ensures-pure _ (λ w x. L.error path e report q)

  or_clear-Lasts :
      {A : Type 0} (a : Result ExecError A) (rest : Exec (World T.State D F) SyncReport)
      → Lasts rest
      → Lasts (or_clear T P C D K safe_delete stamp device_id now path report a rest)
  or_clear-Lasts (ok a) rest h = h
  or_clear-Lasts (err e) rest h =
      Says-then _ _ (λ _. Ensures-pure _ (λ w x. L.error path e report q))

  committed_report-lasts :
      (a : Result ExecError Unit)
      → Q (committed_report T P C D K safe_delete stamp device_id now path report a)
  committed_report-lasts (ok u) = L.deleted path report q
  committed_report-lasts (err e) =
      L.error path e (add_deleted_local path report) (L.deleted path report q)

  pub delete_local-Lasts :
      Lasts (delete_local T P C D K safe_delete stamp device_id now path report)
  unfolding delete_local
  delete_local-Lasts = Says-then _ _ (λ known. Says-then _ _ (λ confirmed.
      Ensures-if confirmed _ _
        (λ _. Says-then _ _ (λ a. or_error-Lasts a _ (
          Says-then _ _ (λ b. or_clear-Lasts b _ (
            Says-then _ _ (λ c. or_error-Lasts c _ (
              Says-then _ _ (λ d. or_clear-Lasts d _ (
                Says-then _ _ (λ e. or_error-Lasts e _ (
                  Says-then _ _ (λ _. Says-then _ _ (λ g.
                    Says-then _ _
                      (λ _. Ensures-pure _ (λ w x. committed_report-lasts g)))))))))))))))
        (λ _. Ensures-pure _ (λ w x. L.skip report q))))

module _ (T : Table) (P : Codec PendingOp) (C : Codec Tombstone) {D F : Type 0}
    (client : Client D F) (K : Disk F) (to_rfc3339 : Timestamp → Text)
    (parse_from_rfc3339 : Text → Option Timestamp) (stamp : Text) (now : Timestamp)
    (self : SyncExecutor) (Q : SyncReport → Type 0) (L : IsLasting Q) where
  abbrev Lasting : Exec (World T.State D F) SyncReport → Type 0
  Lasting m = Ensures Any m (λ r _. Q r) Any

  keep_both-Lasts :
      (path : RelativePath) (id : Text) (row : Option DriveFile) (suffix : Text) (r : SyncReport)
      → Q r
      → Lasting (
          keep_both T P C client K to_rfc3339 parse_from_rfc3339 stamp now self path id row suffix
            r)
  unfolding keep_both
  keep_both-Lasts path id row suffix r q = Says-then _ _ go
    where
      second :
          (o : Outcome) (a : Result ExecError Outcome)
          → Q (
              uploaded_second T P C client K to_rfc3339 parse_from_rfc3339 stamp now self path
                (apply_outcome r o)
                a)
      second o (ok p) = L.outcome (apply_outcome r o) p (L.outcome r o q)
      second o (err e) = L.error path e (apply_outcome r o) (L.outcome r o q)

      go :
          (a : Result ExecError Outcome)
          → Lasting (
              upload_second T P C client K to_rfc3339 parse_from_rfc3339 stamp now self path id row
                r a)
      go (err e) = Ensures-pure _ (λ w x. L.error path e r q)
      go (ok o) = Says-then _ _ (λ a. Ensures-pure _ (λ w x. second o a))

  pub kept_both-Lasts :
      (path : RelativePath) (id : Option Text) (row : Option DriveFile) (suffix : Text)
      (r : SyncReport)
      → Q r
      → Lasting (
          kept_both T P C client K to_rfc3339 parse_from_rfc3339 stamp now self path id row suffix
            r)
  kept_both-Lasts path none row suffix r q =
      Ensures-pure _ (λ w x. L.error path (ExecError.no_remote_id path) r q)
  kept_both-Lasts path (some id) row suffix r q = keep_both-Lasts path id row suffix r q

  pub touch-Lasts :
      (path : RelativePath) (r : SyncReport)
      → Q r
      → Lasting (touch T P C client K to_rfc3339 parse_from_rfc3339 stamp now self path r)
  touch-Lasts path r q = Says-then _ _ (λ a. Ensures-pure _ (λ w x. go a))
    where
      go :
          (a : Result ExecError Unit)
          → Q (touched T P C client K to_rfc3339 parse_from_rfc3339 stamp now self path r a)
      go (ok u) = L.skip r q
      go (err e) = L.error path e r q

  follow_up-Lasts :
      (remote : DriveFile) (acts : List SyncAction) (r : SyncReport)
      → Q r
      → Lasting
          (follow_up T P C client K to_rfc3339 parse_from_rfc3339 stamp now self remote acts r)
  unfolding follow_up
  follow_up-Lasts remote [] r q = Ensures-pure _ (λ w x. q)
  follow_up-Lasts remote (act ∷ acts) r q = go act (follow_up-Lasts remote acts)
    where
      rest : SyncReport → Exec (World T.State D F) SyncReport
      rest = follow_up T P C client K to_rfc3339 parse_from_rfc3339 stamp now self remote acts

      followed_lem :
          (path : RelativePath) (a : Result ExecError Outcome)
          → ((s : SyncReport) → Q s → Lasting (rest s))
          → Lasting
              (followed T P C client K to_rfc3339 parse_from_rfc3339 stamp now self path r a rest)
      followed_lem path (ok o) h = h (apply_outcome r o) (L.outcome r o q)
      followed_lem path (err e) h = Ensures-pure _ (λ w x. L.error path e r q)

      go :
          (a : SyncAction)
          → ((s : SyncReport) → Q s → Lasting (rest s))
          → Lasting (
              follow_up T P C client K to_rfc3339 parse_from_rfc3339 stamp now self remote
                (a ∷ acts)
                r)
      go (SyncAction.upload path id) h = Says-then _ _ (λ a. followed_lem path a h)
      go (SyncAction.download path id) h = Says-then _ _ (λ a. followed_lem path a h)
      go (SyncAction.skip path) h = h r q
      go (SyncAction.delete_local path) h = h r q
      go (SyncAction.delete_remote path id) h = h r q
      go (SyncAction.conflict path id md5 c) h = h r q
      go (SyncAction.cleanup_metadata path) h = h r q
      go (SyncAction.touch_metadata path) h = h r q

  follow_ups-Lasts :
      (path : RelativePath) (remote : DriveFile) (f : FollowUps) (r : SyncReport)
      → Q r
      → Lasting
          (follow_ups T P C client K to_rfc3339 parse_from_rfc3339 stamp now self path remote f r)
  follow_ups-Lasts path remote (actions acts) r q = follow_up-Lasts remote acts r q
  follow_ups-Lasts path remote (needs_remote_id mode) r q =
      Ensures-pure _ (λ w x. L.error path (ExecError.no_remote_id path) r q)

  -- A mismatch, which is recorded as a conflict first.
  pub mismatch-Lasts :
      (task : Task) (path : RelativePath) (id : Text) (remote : DriveFile) (r : SyncReport)
      → Q (add_conflict path r)
      → Lasting (
          join_task T P C client K to_rfc3339 parse_from_rfc3339 stamp now self task
            (ok (mismatch path id remote))
            r)
  unfolding join_task
  mismatch-Lasts task path id remote r q =
      follow_ups-Lasts path remote
        (conflict_resolution_actions path (some id)
          (ConflictResolution.conflict_copy (conflict_copy_suffix stamp self.device_id)))
        (add_conflict path r) q

  pub join_task-Lasts :
      (task : Task) (a : Result ExecError Outcome) (r : SyncReport)
      → Q r
      → Lasting (join_task T P C client K to_rfc3339 parse_from_rfc3339 stamp now self task a r)
  unfolding join_task
  join_task-Lasts task (ok (mismatch path id remote)) r q =
      mismatch-Lasts task path id remote r (L.conflict path r q)
  join_task-Lasts task (ok (uploaded p)) r q = Ensures-pure _ (λ w x. L.outcome r (uploaded p) q)
  join_task-Lasts task (ok (downloaded p)) r q =
      Ensures-pure _ (λ w x. L.outcome r (downloaded p) q)
  join_task-Lasts task (ok (deleted_remote p)) r q =
      Ensures-pure _ (λ w x. L.outcome r (deleted_remote p) q)
  join_task-Lasts task (ok skipped) r q = Ensures-pure _ (λ w x. L.outcome r skipped q)
  join_task-Lasts task (err e) r q = Ensures-pure _ (λ w x. L.error (task_path task) e r q)

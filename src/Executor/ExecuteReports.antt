-- ===== src/Executor/ExecuteReports.antt =====
-- The report of `execute` has as many entries as the plan has actions that are to be reported.
use oxidrive.Base.{
  ◌+◌, ◌≤◌, ◌≡◌, Option, some, List, [], ◌∷◌, arith, length, length-append, Result, ok, err,
}
use oxidrive.Text.{Text}
use oxidrive.Types.{Timestamp, Tombstone, PendingOp, SyncAction, ConflictResolution}
use oxidrive.Types.Path.{RelativePath}
use oxidrive.Drive.{DriveFile}
use oxidrive.Store.Table.{Table, Codec}
use oxidrive.Executor.Conflict.{
  FollowUps, actions, needs_remote_id, conflict_resolution_actions, conflict_copy_suffix,
}
use oxidrive.Executor.Effects.{ExecError, World, Exec, Client, Disk}
use oxidrive.Executor.Effects.Hoare.{Post, Ensures-bind, Ensures-mono}
use oxidrive.Executor.Upload.{Outcome, uploaded, downloaded, deleted_remote, mismatch, skipped}
use oxidrive.Executor.DeleteLocal.{SyncReport}
use oxidrive.Executor.Execute.{SyncExecutor, Task, task_path, apply_outcome, add_conflict}
use oxidrive.Executor.RunExecute.{followed, follow_up, follow_ups, join_task, join_tasks, execute}
use oxidrive.Executor.Reports.{
  reported, reported-add_error, reported-add_conflict, reported-apply_outcome, Reports, Ensures-any,
  Ensures-fact, Reports-then, Reports-pure,
}
use oxidrive.Executor.ActionReports.{reportable, apply_actions-Totals}

module _ (T : Table) (P : Codec PendingOp) (C : Codec Tombstone) {D F : Type 0}
    (client : Client D F) (K : Disk F) (to_rfc3339 : Timestamp → Text)
    (parse_from_rfc3339 : Text → Option Timestamp) (stamp : Text) (now : Timestamp)
    (self : SyncExecutor) where
  abbrev Action : Type 0 → Type 0
  Action A = Exec (World T.State D F) A

  follow_up-Reports :
      (remote : DriveFile) (acts : List SyncAction) (r : SyncReport)
      → Reports
          (reported r)
          (follow_up T P C client K to_rfc3339 parse_from_rfc3339 stamp now self remote acts r)
  unfolding follow_up
  follow_up-Reports remote [] r = Reports-pure _ _ (omega arith)
  follow_up-Reports remote (act ∷ acts) r = go act (follow_up-Reports remote acts)
    where
      rest : SyncReport → Action SyncReport
      rest = follow_up T P C client K to_rfc3339 parse_from_rfc3339 stamp now self remote acts

      followed_lem :
          (path : RelativePath) (a : Result ExecError Outcome)
          → ((q : SyncReport) → Reports (reported q) (rest q))
          → Reports
              (reported r)
              (followed T P C client K to_rfc3339 parse_from_rfc3339 stamp now self path r a rest)
      followed_lem path (ok o) h =
          Ensures-mono _ (λ w x. x) (λ q w x. omega (arith, x, reported-apply_outcome r o))
            (λ w x. x) (h (apply_outcome r o))
      followed_lem path (err e) h = Reports-pure _ _ (omega (arith, reported-add_error path e r))

      go :
          (a : SyncAction)
          → ((q : SyncReport) → Reports (reported q) (rest q))
          → Reports (reported r) (
              follow_up T P C client K to_rfc3339 parse_from_rfc3339 stamp now self remote
                (a ∷ acts)
                r)
      go (SyncAction.upload path id) h = Reports-then _ _ _ (λ a. followed_lem path a h)
      go (SyncAction.download path id) h = Reports-then _ _ _ (λ a. followed_lem path a h)
      go (SyncAction.skip path) h = h r
      go (SyncAction.delete_local path) h = h r
      go (SyncAction.delete_remote path id) h = h r
      go (SyncAction.conflict path id md5 c) h = h r
      go (SyncAction.cleanup_metadata path) h = h r
      go (SyncAction.touch_metadata path) h = h r

  follow_ups-Reports :
      (path : RelativePath) (remote : DriveFile) (f : FollowUps) (r : SyncReport)
      → Reports
          (reported r)
          (follow_ups T P C client K to_rfc3339 parse_from_rfc3339 stamp now self path remote f r)
  follow_ups-Reports path remote (actions acts) r = follow_up-Reports remote acts r
  follow_ups-Reports path remote (needs_remote_id mode) r =
      Reports-pure _ _ (omega (arith, reported-add_error path (ExecError.no_remote_id path) r))

  join_task-Reports :
      (task : Task) (a : Result ExecError Outcome) (r : SyncReport)
      → Reports
          (reported r + 1)
          (join_task T P C client K to_rfc3339 parse_from_rfc3339 stamp now self task a r)
  unfolding join_task apply_outcome
  join_task-Reports task (ok (mismatch path id remote)) r =
      Ensures-mono _ (λ w x. x) (λ q w x. omega (arith, x, reported-add_conflict path r)) (λ w x. x)
        (follow_ups-Reports path remote
          (conflict_resolution_actions path (some id)
            (ConflictResolution.conflict_copy (conflict_copy_suffix stamp self.device_id)))
          (add_conflict path r))
  join_task-Reports task (ok (uploaded p)) r =
      Reports-pure _ _ (omega (arith, length-append r.uploaded (p ∷ [])))
  join_task-Reports task (ok (downloaded p)) r =
      Reports-pure _ _ (omega (arith, length-append r.downloaded (p ∷ [])))
  join_task-Reports task (ok (deleted_remote p)) r =
      Reports-pure _ _ (omega (arith, length-append r.deleted_remote (p ∷ [])))
  join_task-Reports task (ok skipped) r = Reports-pure _ _ (omega arith)
  join_task-Reports task (err e) r =
      Reports-pure _ _ (omega (arith, reported-add_error (task_path task) e r))

  join_tasks-Reports :
      (tasks : List Task) (r : SyncReport)
      → Reports
          (reported r + length tasks)
          (join_tasks T P C client K to_rfc3339 parse_from_rfc3339 stamp now self tasks r)
  unfolding join_tasks
  join_tasks-Reports [] r = Reports-pure _ _ (omega arith)
  join_tasks-Reports (task ∷ tasks) r = Reports-then _ _ _ (λ a.
      Ensures-fact _ _ (join_task-Reports task a r) (λ q x.
        Ensures-mono _ (λ w y. y) (λ s w y. omega (arith, x, y)) (λ w y. y)
          (join_tasks-Reports tasks q)))

  -- Unless with an error, `execute` ends in a report with at least as many entries as there are actions
  -- that do more than clean up a record, in whatever order the spawned tasks end.
  pub execute-reported :
      (schedule : List Task → List Task) (acts : List SyncAction) (w : World T.State D F)
      → ((tasks : List Task) → length (schedule tasks) ≡ length tasks)
      → Post
          (λ r _. reportable acts ≤ reported r)
          (λ _. Unit)
          (execute T P C client K to_rfc3339 parse_from_rfc3339 stamp now self schedule acts w)
  unfolding execute
  execute-reported schedule acts w same = all.at w tt
    where
      all :
          Reports
            (reportable acts)
            (execute T P C client K to_rfc3339 parse_from_rfc3339 stamp now self schedule acts)
      all = Ensures-bind _ _ (Ensures-any _) (λ snap. Ensures-bind _ _ (Ensures-any _) (λ _.
          Ensures-fact _ _
            (apply_actions-Totals T P C client K to_rfc3339 parse_from_rfc3339 stamp now self snap
              acts _)
            (λ p x.
              Ensures-mono _ (λ v y. y) (λ r v y. omega (arith, x, y, same p.pending)) (λ v y. y)
                (join_tasks-Reports (schedule p.pending) p.report))))

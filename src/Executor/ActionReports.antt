-- ===== src/Executor/ActionReports.antt =====
-- The loop of `execute` over the actions reports or spawns something for each.
use oxidrive.Base.{
  ℕ, ◌+◌, ◌≤◌, Bool, true, false, Option, none, some, List, [], ◌∷◌, arith, if◌then◌else◌, length,
  Result, ok, err,
}
use oxidrive.Text.{Text}
use oxidrive.TextMap.{TextMap, lookup}
use oxidrive.Types.{Timestamp, Tombstone, PendingOp, SyncAction, ConflictResolution}
use oxidrive.Types.Path.{RelativePath}
use oxidrive.Drive.{DriveFile}
use oxidrive.Store.Table.{Table, Codec}
use oxidrive.Executor.Conflict.{FollowUps, actions, needs_remote_id, tag_conflict_copy_resolution}
use oxidrive.Executor.Effects.{ExecError, World, Exec, Client, Disk, pure}
use oxidrive.Executor.Effects.Hoare.{Ensures, Ensures-pure, Ensures-bind, Ensures-mono}
use oxidrive.Executor.Upload.{Outcome}
use oxidrive.Executor.DeleteLocal.{SyncReport, add_skip, delete_local}
use oxidrive.Executor.Execute.{
  SyncExecutor, Task, apply_outcome, add_conflict, Progress, spawn, note, spawned, uploaded_second,
  upload_second, keep_both,
}
use oxidrive.Executor.RunExecute.{
  on_report, kept_both, resolve, touch, touched, delete_remote, apply_action, apply_actions,
}
use oxidrive.Executor.Reports.{
  reported, reported-add_error, reported-add_conflict, reported-apply_outcome, total, total-spawn,
  total-spawn_follow_ups, Any, Reports, Ensures-any, Ensures-fact, Reports-then, Reports-pure,
  delete_local-Reports,
}

-- The actions that are to be reported; cleaning up a record is not.
abbrev pub weight : SyncAction → ℕ
weight (SyncAction.cleanup_metadata path) = 0
weight act = 1

abbrev pub reportable : List SyncAction → ℕ
reportable [] = 0
reportable (act ∷ acts) = weight act + reportable acts

-- The loop goes on, unless with an error, with that total at least.
abbrev pub Totals : {W : Type 0} → ℕ → Exec W Progress → Type 0
Totals n m = Ensures Any m (λ p _. n ≤ total p) Any

module _ (T : Table) (P : Codec PendingOp) (C : Codec Tombstone) {D F : Type 0}
    (client : Client D F) (K : Disk F) (to_rfc3339 : Timestamp → Text)
    (parse_from_rfc3339 : Text → Option Timestamp) (stamp : Text) (now : Timestamp)
    (self : SyncExecutor) where
  abbrev Action : Type 0 → Type 0
  Action A = Exec (World T.State D F) A

  Totals-pure : (n : ℕ) (p : Progress) → n ≤ total p → Totals {W = World T.State D F} n (pure p)
  Totals-pure n p h = Ensures-pure p (λ w x. h)

  on_report-Totals :
      (n k : ℕ) (m : SyncReport → Action SyncReport) (p : Progress)
      → n ≤ k + length p.pending
      → Reports k (m p.report)
      → Totals n (on_report T P C client K to_rfc3339 parse_from_rfc3339 stamp now self m p)
  on_report-Totals n k m p e h =
      Ensures-bind _ _ h (λ r. Ensures-pure _ (λ w x. omega (arith, x, e)))

  keep_both-Reports :
      (path : RelativePath) (id : Text) (row : Option DriveFile) (suffix : Text) (r : SyncReport)
      → Reports (reported r) (
          keep_both T P C client K to_rfc3339 parse_from_rfc3339 stamp now self path id row suffix
            r)
  unfolding keep_both
  keep_both-Reports path id row suffix r = Reports-then _ _ _ go
    where
      second :
          (o : Outcome) (a : Result ExecError Outcome)
          → reported r
            ≤ reported (
                uploaded_second T P C client K to_rfc3339 parse_from_rfc3339 stamp now self path
                  (apply_outcome r o)
                  a)
      second o (ok p) =
          omega (arith, reported-apply_outcome r o, reported-apply_outcome (apply_outcome r o) p)
      second o (err e) =
          omega (arith, reported-apply_outcome r o, reported-add_error path e (apply_outcome r o))

      go :
          (a : Result ExecError Outcome)
          → Reports (reported r) (
              upload_second T P C client K to_rfc3339 parse_from_rfc3339 stamp now self path id row
                r a)
      go (err e) = Reports-pure _ _ (omega (arith, reported-add_error path e r))
      go (ok o) = Reports-then _ _ _ (λ a. Reports-pure _ _ (second o a))

  kept_both-Reports :
      (path : RelativePath) (id : Option Text) (row : Option DriveFile) (suffix : Text)
      (r : SyncReport)
      → Reports (reported r) (
          kept_both T P C client K to_rfc3339 parse_from_rfc3339 stamp now self path id row suffix
            r)
  kept_both-Reports path none row suffix r =
      Reports-pure _ _ (omega (arith, reported-add_error path (ExecError.no_remote_id path) r))
  kept_both-Reports path (some id) row suffix r = keep_both-Reports path id row suffix r

  spawned_lem :
      (path : RelativePath) (snap : TextMap DriveFile) (f : FollowUps) (p : Progress)
      → total p ≤ total (spawned path snap f p)
  spawned_lem path snap (actions acts) p = total-spawn_follow_ups path snap acts p
  spawned_lem path snap (needs_remote_id mode) p =
      omega (arith, reported-add_error path (ExecError.no_remote_id path) p.report)

  resolve-Totals :
      (snap : TextMap DriveFile) (path : RelativePath) (id : Option Text) (c : ConflictResolution)
      (p : Progress)
      → Totals
          (total p)
          (resolve T P C client K to_rfc3339 parse_from_rfc3339 stamp now self snap path id c p)
  resolve-Totals snap path id (ConflictResolution.rename suffix) p =
      on_report-Totals _ (reported p.report)
        (kept_both T P C client K to_rfc3339 parse_from_rfc3339 stamp now self path id
          (lookup path snap) suffix)
        p (omega arith) (kept_both-Reports path id (lookup path snap) suffix p.report)
  resolve-Totals snap path id (ConflictResolution.conflict_copy suffix) p =
      on_report-Totals _ (reported p.report)
        (kept_both T P C client K to_rfc3339 parse_from_rfc3339 stamp now self path id
          (lookup path snap) suffix)
        p (omega arith) (kept_both-Reports path id (lookup path snap) suffix p.report)
  resolve-Totals snap path id ConflictResolution.local_wins p =
      Totals-pure _ _ (spawned_lem path snap _ p)
  resolve-Totals snap path id ConflictResolution.remote_wins p =
      Totals-pure _ _ (spawned_lem path snap _ p)

  touch-Reports :
      (path : RelativePath) (r : SyncReport)
      → Reports
          (reported r + 1)
          (touch T P C client K to_rfc3339 parse_from_rfc3339 stamp now self path r)
  touch-Reports path r = Reports-then _ _ _ (λ a. Reports-pure _ _ (go a))
    where
      go :
          (a : Result ExecError Unit)
          → reported r + 1
            ≤ reported
                (touched T P C client K to_rfc3339 parse_from_rfc3339 stamp now self path r a)
      go (ok u) = omega arith
      go (err e) = omega (arith, reported-add_error path e r)

  delete_remote-Totals :
      (path : RelativePath) (id : Text) (p : Progress)
      → Totals
          (total p + 1)
          (delete_remote T P C client K to_rfc3339 parse_from_rfc3339 stamp now self path id p)
  delete_remote-Totals path id p =
      Ensures-bind _ _ (Ensures-any _)
        (λ known. Ensures-bind _ _ (Ensures-any _) (λ confirmed. Totals-pure _ _ (go confirmed)))
    where
      go :
          (b : Bool)
          → total p + 1 ≤ total (if b then spawn (Task.trash_task path id) p else note add_skip p)
      go true = omega (arith, total-spawn (Task.trash_task path id) p)
      go false = omega arith

  apply_action-Totals :
      (snap : TextMap DriveFile) (act : SyncAction) (p : Progress)
      → Totals
          (total p + weight act)
          (apply_action T P C client K to_rfc3339 parse_from_rfc3339 stamp now self snap act p)
  unfolding apply_action
  apply_action-Totals snap (SyncAction.skip path) p = Totals-pure _ _ (omega arith)
  apply_action-Totals snap (SyncAction.upload path id) p =
      Totals-pure _ _
        (omega (arith, total-spawn (Task.upload_task path id (lookup path snap) true) p))
  apply_action-Totals snap (SyncAction.download path id) p =
      Totals-pure _ _ (omega (arith, total-spawn (Task.download_task path id (lookup path snap)) p))
  apply_action-Totals snap (SyncAction.cleanup_metadata path) p =
      Ensures-bind _ _ (Ensures-any _) (λ _. Totals-pure _ _ (omega arith))
  apply_action-Totals snap (SyncAction.touch_metadata path) p =
      on_report-Totals _ (reported p.report + 1)
        (touch T P C client K to_rfc3339 parse_from_rfc3339 stamp now self path) p (omega arith)
        (touch-Reports path p.report)
  apply_action-Totals snap (SyncAction.delete_local path) p =
      on_report-Totals _ (reported p.report + 1)
        (delete_local T P C D K self.safe_delete stamp self.device_id now path) p (omega arith)
        (delete_local-Reports T P C D K self.safe_delete stamp self.device_id now path p.report)
  apply_action-Totals snap (SyncAction.delete_remote path id) p = delete_remote-Totals path id p
  apply_action-Totals snap (SyncAction.conflict path id md5 c) p =
      Ensures-mono _ (λ w x. x) (λ q w x. omega (arith, x, reported-add_conflict path p.report))
        (λ w x. x)
        (resolve-Totals snap path id (tag_conflict_copy_resolution stamp c self.device_id)
          (note (add_conflict path) p))

  pub apply_actions-Totals :
      (snap : TextMap DriveFile) (acts : List SyncAction) (p : Progress)
      → Totals
          (total p + reportable acts)
          (apply_actions T P C client K to_rfc3339 parse_from_rfc3339 stamp now self snap acts p)
  unfolding apply_actions
  apply_actions-Totals snap [] p = Totals-pure _ _ (omega arith)
  apply_actions-Totals snap (act ∷ acts) p =
      Ensures-fact _ _ (apply_action-Totals snap act p) (λ q x.
        Ensures-mono _ (λ w y. y) (λ r w y. omega (arith, x, y)) (λ w y. y)
          (apply_actions-Totals snap acts q))

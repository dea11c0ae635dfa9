-- ===== src/Executor/ExecuteNamed.antt =====
-- `execute` reports every action: the report names what became of the path of each transfer and of
-- each conflict.
use mathlib.Core.Path.{subst}
use oxidrive.Base.{refl, sym, inl, inr, Bool, Option, List, [], ◌∷◌, IsIn, Result, ok, err}
use oxidrive.Text.{Text}
use oxidrive.TextMap.{TextMap}
use oxidrive.Types.{Timestamp, Tombstone, PendingOp, SyncAction}
use oxidrive.Types.Path.{RelativePath}
use oxidrive.Drive.{DriveFile}
use oxidrive.Store.Table.{Table, Codec}
use oxidrive.Executor.Effects.{ExecError, World, Exec, Client, Disk}
use oxidrive.Executor.Effects.Hoare.{Post, Ensures, Ensures-pure}
use oxidrive.Executor.Outcomes.{
  Says-then, Hindered, IsUploadOutcome, IsDownloadOutcome, run_upload-Says, run_download-Says,
}
use oxidrive.Executor.Reports.{Any, Ensures-any, Ensures-fact}
use oxidrive.Executor.ReportNamed.{
  SaysUpload, SaysDownload, SaysUpload-IsLasting, IsUploadOf, IsDownloadOf,
}
use oxidrive.Executor.ReportGrows.{IsLasting, mismatch-Lasts}
use oxidrive.Executor.ReportOwed.{IsIn-last, Owed, apply_actions-Makes, join_tasks-Lasts}
use oxidrive.Executor.Upload.{Outcome, uploaded, downloaded, deleted_remote, mismatch, skipped}
use oxidrive.Executor.DeleteLocal.{SyncReport, attempt}
use oxidrive.Executor.Execute.{
  SyncExecutor, Task, upload_task, download_task, trash_task, Progress, apply_outcome, run_task,
}
use oxidrive.Executor.RunExecute.{apply_action, join_task, join_tasks, execute}

module _ (T : Table) (P : Codec PendingOp) (C : Codec Tombstone) {D F : Type 0}
    (client : Client D F) (K : Disk F) (to_rfc3339 : Timestamp → Text)
    (parse_from_rfc3339 : Text → Option Timestamp) (stamp : Text) (now : Timestamp)
    (self : SyncExecutor) where
  abbrev W : Type 0
  W = World T.State D F

  abbrev pub Blocked : RelativePath → Type 0
  Blocked path = Hindered K self.use_leases now self.stability_ms path

  -- What a task ends with.
  abbrev pub Ends : Task → Result ExecError Outcome → Type 0
  Ends (upload_task path id row guarded) (ok o) = IsUploadOutcome (Blocked path) path o
  Ends (download_task path id row) (ok o) = IsDownloadOutcome path o
  Ends task a = Unit

  attempt-Ends :
      (t : Task) (m : Exec W Outcome)
      → Ensures Any m (λ o _. Ends t (ok o)) Any
      → ((e : ExecError) → Ends t (err e))
      → Ensures Any (attempt m) (λ a _. Ends t a) Any
  attempt-Ends t m h k = record { at = λ w x. go (m w) (h.at w x) }
    where
      go : (a : Result ExecError Outcome × W) → Post (λ o _. Ends t (ok o)) Any a → Ends t a.0
      go (ok o, v) y = y
      go (err e, v) y = k e

  task-Ends :
      (t : Task)
      → Ensures Any
          (attempt (run_task T P C client K to_rfc3339 parse_from_rfc3339 stamp now self t))
          (λ a _. Ends t a)
          Any
  unfolding run_task
  task-Ends (upload_task path id row guarded) =
      attempt-Ends (upload_task path id row guarded) _
        (run_upload-Says T P client K to_rfc3339 parse_from_rfc3339 self.device_id now path
          self.stability_ms self.use_leases guarded id row)
        (λ e. tt)
  task-Ends (download_task path id row) =
      attempt-Ends (download_task path id row) _
        (run_download-Says T P client K to_rfc3339 now path id row) (λ e. tt)
  task-Ends (trash_task path id) =
      attempt-Ends (trash_task path id) _
        (Ensures-any (
          run_task T P C client K to_rfc3339 parse_from_rfc3339 stamp now self
            (trash_task path id)))
        (λ e. tt)

  -- A task that makes the entry when it is joined.
  abbrev pub Pays : (SyncReport → Type 0) → Task → Type 0
  Pays Q t =
      (a : Result ExecError Outcome) (r : SyncReport)
      → Ends t a
      → Ensures Any (join_task T P C client K to_rfc3339 parse_from_rfc3339 stamp now self t a r)
          (λ s _. Q s) Any

  upload-Pays :
      (path : RelativePath) (id : Option Text) (row : Option DriveFile) (guarded : Bool)
      → Pays (SaysUpload (Blocked path) path) (upload_task path id row guarded)
  unfolding join_task apply_outcome
  upload-Pays path id row guarded (ok (uploaded x)) r e =
      Ensures-pure _ (λ w y. inl (IsIn-last path x r.uploaded (sym e)))
  upload-Pays path id row guarded (ok (mismatch x i f)) r e =
      mismatch-Lasts T P C client K to_rfc3339 parse_from_rfc3339 stamp now self
        (SaysUpload (Blocked path) path) (SaysUpload-IsLasting (Blocked path) path)
        (upload_task path id row guarded) x i f r (inr (inl (IsIn-last path x r.conflicts (sym e))))
  upload-Pays path id row guarded (ok skipped) r e = Ensures-pure _ (λ w y. inr (inr (inr e)))
  upload-Pays path id row guarded (ok (downloaded x)) r e = absurd e
  upload-Pays path id row guarded (ok (deleted_remote x)) r e = absurd e
  upload-Pays path id row guarded (err x) r e =
      Ensures-pure _ (λ w y. inr (inr (inl (x, IsIn-last (path, x) (path, x) r.errors refl))))

  download-Pays :
      (path : RelativePath) (id : Text) (row : Option DriveFile)
      → Pays (SaysDownload path) (download_task path id row)
  unfolding join_task apply_outcome
  download-Pays path id row (ok (downloaded x)) r e =
      Ensures-pure _ (λ w y. inl (x, e, IsIn-last x x r.downloaded refl))
  download-Pays path id row (ok (uploaded x)) r e = absurd e
  download-Pays path id row (ok (mismatch x i f)) r e = absurd e
  download-Pays path id row (ok skipped) r e = absurd e
  download-Pays path id row (ok (deleted_remote x)) r e = absurd e
  download-Pays path id row (err x) r e =
      Ensures-pure _ (λ w y. inr (x, IsIn-last (path, x) (path, x) r.errors refl))

  pub IsUploadOf-Pays :
      (path : RelativePath) (t : Task) → IsUploadOf path t → Pays (SaysUpload (Blocked path) path) t
  IsUploadOf-Pays path (upload_task q id row guarded) e =
      subst (λ p. Pays (SaysUpload (Blocked p) p) (upload_task q id row guarded)) e
        (upload-Pays q id row guarded)
  IsUploadOf-Pays path (download_task q id row) e = absurd e
  IsUploadOf-Pays path (trash_task q id) e = absurd e

  pub IsDownloadOf-Pays :
      (path : RelativePath) (t : Task) → IsDownloadOf path t → Pays (SaysDownload path) t
  IsDownloadOf-Pays path (download_task q id row) e =
      subst (λ p. Pays (SaysDownload p) (download_task q id row)) e (download-Pays q id row)
  IsDownloadOf-Pays path (upload_task q id row guarded) e = absurd e
  IsDownloadOf-Pays path (trash_task q id) e = absurd e

  module _ (Q : SyncReport → Type 0) (L : IsLasting Q) (M : Task → Type 0)
      (pays : (t : Task) → M t → Pays Q t) where
    join_tasks-Makes :
        (t : Task) (tasks : List Task) (r : SyncReport)
        → IsIn t tasks
        → M t
        → Ensures Any
            (join_tasks T P C client K to_rfc3339 parse_from_rfc3339 stamp now self tasks r)
            (λ s _. Q s)
            Any
    unfolding join_tasks
    join_tasks-Makes t [] r i m = absurd i
    join_tasks-Makes t (u ∷ tasks) r (inl e) m = Ensures-fact _ _ (task-Ends u) (λ a x.
        Ensures-fact _ _ (pays u (subst M e m) a r x) (λ s y.
          join_tasks-Lasts T P C client K to_rfc3339 parse_from_rfc3339 stamp now self Q L M tasks s
            y))
    join_tasks-Makes t (u ∷ tasks) r (inr i) m =
        Says-then _ _ (λ a. Says-then _ _ (λ s. join_tasks-Makes t tasks s i m))

    -- If an action brings its entry or its task about, the report has the entry.
    pub execute-Makes :
        (schedule : List Task → List Task) (act : SyncAction) (acts : List SyncAction)
        → ((tasks : List Task) (t : Task) → IsIn t tasks → IsIn t (schedule tasks))
        → IsIn act acts
        → ((snap : TextMap DriveFile) (p : Progress)
            → Ensures Any
                (apply_action T P C client K to_rfc3339 parse_from_rfc3339 stamp now self snap act
                  p)
                (λ q _. Owed Q M q)
                Any)
        → Ensures Any
            (execute T P C client K to_rfc3339 parse_from_rfc3339 stamp now self schedule acts)
            (λ s _. Q s)
            Any
    unfolding execute
    execute-Makes schedule act acts all_run i h = Says-then _ _ (λ snap. Says-then _ _ (λ _.
        Ensures-fact _ _
          (apply_actions-Makes T P C client K to_rfc3339 parse_from_rfc3339 stamp now self Q L M
            snap act acts _ (h snap) i)
          go))
      where
        go :
            (p : Progress)
            → Owed Q M p
            → Ensures Any
                (join_tasks T P C client K to_rfc3339 parse_from_rfc3339 stamp now self
                  (schedule p.pending)
                  p.report)
                (λ s _. Q s)
                Any
        go p (inl q) =
            join_tasks-Lasts T P C client K to_rfc3339 parse_from_rfc3339 stamp now self Q L M
              (schedule p.pending) p.report q
        go p (inr (t, j, m)) =
            join_tasks-Makes t (schedule p.pending) p.report (all_run p.pending t j) m

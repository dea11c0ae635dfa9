-- ===== src/Executor/Reports.antt =====
-- Every action of a plan ends in the report: the parts of `execute` never lose one.
use oxidrive.Base.{
  ℕ, ◌+◌, ◌≤◌, ◌≡◌, Bool, false, List, [], ◌∷◌, arith, length, length-append, Result, ok, err,
}
use oxidrive.Text.{Text}
use oxidrive.TextMap.{TextMap, lookup}
use oxidrive.Types.{Timestamp, Tombstone, PendingOp, SyncAction}
use oxidrive.Types.Path.{RelativePath}
use oxidrive.Drive.{DriveFile}
use oxidrive.Store.Table.{Table, Codec}
use oxidrive.Executor.Effects.{ExecError, World, Exec, Disk, pure, ◌>>=◌}
use oxidrive.Executor.Effects.Hoare.{Post, Ensures, Ensures-pure, Ensures-bind, Ensures-if}
use oxidrive.Executor.Upload.{Outcome, uploaded, downloaded, deleted_remote, mismatch, skipped}
use oxidrive.Executor.DeleteLocal.{
  SyncReport, add_error, add_deleted_local, or_error, or_clear, committed_report, delete_local,
}
use oxidrive.Executor.Execute.{
  Task, apply_outcome, add_conflict, Progress, spawn, note, row_or, spawn_follow_ups,
}

-- The entries of a report.
abbrev pub reported : SyncReport → ℕ
reported r =
    length r.uploaded
    + length r.downloaded
    + length r.deleted_local
    + length r.deleted_remote
    + length r.conflicts
    + r.skipped
    + length r.errors

pub reported-add_error :
    (p : RelativePath) (e : ExecError) (r : SyncReport)
    → reported (add_error p e r) ≡ reported r + 1
reported-add_error p e r = omega (arith, length-append r.errors ((p, e) ∷ []))

pub reported-add_deleted_local :
    (p : RelativePath) (r : SyncReport) → reported (add_deleted_local p r) ≡ reported r + 1
reported-add_deleted_local p r = omega (arith, length-append r.deleted_local (p ∷ []))

pub reported-add_conflict :
    (p : RelativePath) (r : SyncReport) → reported (add_conflict p r) ≡ reported r + 1
reported-add_conflict p r = omega (arith, length-append r.conflicts (p ∷ []))

-- An outcome is one more entry, unless it is a mismatch.
pub reported-apply_outcome :
    (r : SyncReport) (o : Outcome) → reported r ≤ reported (apply_outcome r o)
unfolding apply_outcome
reported-apply_outcome r (uploaded p) = omega (arith, length-append r.uploaded (p ∷ []))
reported-apply_outcome r (downloaded p) = omega (arith, length-append r.downloaded (p ∷ []))
reported-apply_outcome r (deleted_remote p) = omega (arith, length-append r.deleted_remote (p ∷ []))
reported-apply_outcome r (mismatch p id f) = omega arith
reported-apply_outcome r skipped = omega arith

-- The report and the tasks that will add to it.
abbrev pub total : Progress → ℕ
total p = reported p.report + length p.pending

pub total-spawn : (t : Task) (p : Progress) → total (spawn t p) ≡ total p + 1
total-spawn t p = omega (arith, length-append p.pending (t ∷ []))

pub total-spawn_follow_ups :
    (path : RelativePath) (snap : TextMap DriveFile) (acts : List SyncAction) (p : Progress)
    → total p ≤ total (spawn_follow_ups path snap acts p)
unfolding spawn_follow_ups
total-spawn_follow_ups path snap [] p = omega arith
total-spawn_follow_ups path snap (act ∷ rest) p = go act (total-spawn_follow_ups path snap rest)
  where
    after : Progress
    after = note (add_error path (ExecError.invalid_follow_up path)) p

    invalid :
        ((q : Progress) → total q ≤ total (spawn_follow_ups path snap rest q))
        → total p ≤ total (spawn_follow_ups path snap rest after)
    invalid h =
        omega (arith, h after, reported-add_error path (ExecError.invalid_follow_up path) p.report)

    go :
        (a : SyncAction)
        → ((q : Progress) → total q ≤ total (spawn_follow_ups path snap rest q))
        → total p ≤ total (spawn_follow_ups path snap (a ∷ rest) p)
    go (SyncAction.upload q id) h =
        let t = Task.upload_task q id (lookup q snap) false in
        omega (arith, h (spawn t p), total-spawn t p)
    go (SyncAction.download q id) h =
        let t = Task.download_task q id (row_or (lookup q snap) (lookup path snap)) in
        omega (arith, h (spawn t p), total-spawn t p)
    go (SyncAction.skip q) h = invalid h
    go (SyncAction.delete_local q) h = invalid h
    go (SyncAction.delete_remote q id) h = invalid h
    go (SyncAction.conflict q id md5 r) h = invalid h
    go (SyncAction.cleanup_metadata q) h = invalid h
    go (SyncAction.touch_metadata q) h = invalid h

abbrev pub Any {ℓ} : {W : Type ℓ} → W → Type 0
Any w = Unit

-- The action ends, unless with an error, in a report with that many entries at least.
abbrev pub Reports : {W : Type 0} → ℕ → Exec W SyncReport → Type 0
Reports n m = Ensures Any m (λ r _. n ≤ reported r) Any

module _ {W : Type 0} where
  pub Ensures-any : {A : Type 0} (m : Exec W A) → Ensures Any m (λ _. Any) Any
  Ensures-any {A} m = record { at = λ w h. go (m w) }
    where
      go : (a : Result ExecError A × W) → Post (λ _. Any) Any a
      go (ok a, w) = tt
      go (err e, w) = tt

  -- The first part finds a fact out.
  pub Ensures-fact :
      {A B : Type 0} {X : A → Type 0} {Q : B → W → Type 0} (m : Exec W A) (f : A → Exec W B)
      → Ensures Any m (λ a _. X a) Any
      → ((a : A) → X a → Ensures Any (f a) Q Any)
      → Ensures Any (m >>= f) Q Any
  Ensures-fact m f h k = Ensures-bind _ _ h (λ a. record { at = λ w x. (k a x).at w tt })

  pub Reports-then :
      {A : Type 0} (n : ℕ) (m : Exec W A) (f : A → Exec W SyncReport)
      → ((a : A) → Reports n (f a))
      → Reports n (m >>= f)
  Reports-then n m f h = Ensures-bind _ _ (Ensures-any m) h

  pub Reports-pure : (n : ℕ) (r : SyncReport) → n ≤ reported r → Reports {W = W} n (pure r)
  Reports-pure n r h = Ensures-pure r (λ w x. h)

module _ (T : Table) (P : Codec PendingOp) (C : Codec Tombstone) (D : Type 0) {F : Type 0}
    (K : Disk F) (safe_delete : Bool) (stamp device_id : Text) (now : Timestamp)
    (path : RelativePath) (report : SyncReport) where
  or_error-Reports :
      {A : Type 0} (a : Result ExecError A) (rest : Exec (World T.State D F) SyncReport)
      → Reports (reported report + 1) rest
      → Reports
          (reported report + 1)
          (or_error T P C D K safe_delete stamp device_id now path report a rest)
  or_error-Reports (ok a) rest h = h
  or_error-Reports (err e) rest h =
      Reports-pure _ _ (omega (arith, reported-add_error path e report))

  or_clear-Reports :
      {A : Type 0} (a : Result ExecError A) (rest : Exec (World T.State D F) SyncReport)
      → Reports (reported report + 1) rest
      → Reports
          (reported report + 1)
          (or_clear T P C D K safe_delete stamp device_id now path report a rest)
  or_clear-Reports (ok a) rest h = h
  or_clear-Reports (err e) rest h =
      Reports-then _ _ _ (λ _. Reports-pure _ _ (omega (arith, reported-add_error path e report)))

  committed_report-reported :
      (a : Result ExecError Unit)
      → reported report + 1
        ≤ reported (committed_report T P C D K safe_delete stamp device_id now path report a)
  committed_report-reported (ok u) = omega (arith, reported-add_deleted_local path report)
  committed_report-reported (err e) = omega (
    arith,
    reported-add_deleted_local path report,
    reported-add_error path e (add_deleted_local path report),
  )

  pub delete_local-Reports :
      Reports
        (reported report + 1)
        (delete_local T P C D K safe_delete stamp device_id now path report)
  unfolding delete_local
  delete_local-Reports = Reports-then _ _ _ (λ known. Reports-then _ _ _ (λ confirmed.
      Ensures-if confirmed _ _
        (λ _. Reports-then _ _ _ (λ a. or_error-Reports a _ (
          Reports-then _ _ _ (λ b. or_clear-Reports b _ (
            Reports-then _ _ _ (λ c. or_error-Reports c _ (
              Reports-then _ _ _ (λ d. or_clear-Reports d _ (
                Reports-then _ _ _ (λ e. or_error-Reports e _ (
                  Reports-then _ _ _ (λ _. Reports-then _ _ _ (λ g.
                    Reports-then _ _ _
                      (λ _. Reports-pure _ _ (committed_report-reported g)))))))))))))))
        (λ _. Reports-pure _ _ (omega arith))))

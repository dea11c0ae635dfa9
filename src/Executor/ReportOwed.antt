-- ===== src/Executor/ReportOwed.antt =====
-- Each action of a plan is owed an entry, until a task or the loop itself has made it.
use mathlib.Core.Path.{subst}
use oxidrive.Base.{
  ◌≡◌, ◌⊎◌, inl, inr, Bool, true, false, Option, List, [], ◌∷◌, ◌++◌, IsIn, if◌then◌else◌,
}
use oxidrive.Text.{Text}
use oxidrive.TextMap.{TextMap, lookup}
use oxidrive.Types.{Timestamp, Tombstone, PendingOp, SyncAction, ConflictResolution}
use oxidrive.Types.Path.{RelativePath}
use oxidrive.Drive.{DriveFile}
use oxidrive.Store.Table.{Table, Codec}
use oxidrive.Executor.Conflict.{FollowUps, actions, needs_remote_id, tag_conflict_copy_resolution}
use oxidrive.Executor.Effects.{ExecError, World, Exec, Client, Disk}
use oxidrive.Executor.Effects.Hoare.{Ensures, Ensures-pure}
use oxidrive.Executor.Outcomes.{Says-then}
use oxidrive.Executor.Reports.{Any, Ensures-fact}
use oxidrive.Executor.DeleteLocal.{SyncReport, add_error, add_skip, delete_local}
use oxidrive.Executor.Execute.{
  SyncExecutor, Task, add_conflict, Progress, spawn, note, row_or, spawn_follow_ups, spawned,
}
use oxidrive.Executor.RunExecute.{
  on_report, resolve, kept_both, touch, apply_action, apply_actions, join_tasks,
}
use oxidrive.Executor.ReportGrows.{
  IsLasting, delete_local-Lasts, kept_both-Lasts, touch-Lasts, join_task-Lasts,
}

pub IsIn-append : {A : Type 0} (x : A) (xs ys : List A) → IsIn x xs → IsIn x (xs ++ ys)
IsIn-append x [] ys i = absurd i
IsIn-append x (y ∷ xs) ys (inl e) = inl e
IsIn-append x (y ∷ xs) ys (inr i) = inr (IsIn-append x xs ys i)

pub IsIn-last : {A : Type 0} (x y : A) (xs : List A) → x ≡ y → IsIn x (xs ++ y ∷ [])
IsIn-last x y [] e = inl e
IsIn-last x y (z ∷ xs) e = inr (IsIn-last x y xs e)

-- The report has it, or one of the tasks will add it.
abbrev pub Owed : (SyncReport → Type 0) → (Task → Type 0) → Progress → Type 0
Owed Q M p = Q p.report ⊎ ((t : Task) × IsIn t p.pending × M t)

module _ (Q : SyncReport → Type 0) (L : IsLasting Q) (M : Task → Type 0) where
  spawn-Owed : (t : Task) (p : Progress) → Owed Q M p → Owed Q M (spawn t p)
  spawn-Owed t p (inl q) = inl q
  spawn-Owed t p (inr (s, i, m)) = inr (s, IsIn-append s p.pending (t ∷ []) i, m)

  note-Owed :
      (f : SyncReport → SyncReport) (p : Progress)
      → ((r : SyncReport) → Q r → Q (f r))
      → Owed Q M p
      → Owed Q M (note f p)
  note-Owed f p h (inl q) = inl (h p.report q)
  note-Owed f p h (inr m) = inr m

  spawn_follow_ups-Owed :
      (path : RelativePath) (snap : TextMap DriveFile) (acts : List SyncAction) (p : Progress)
      → Owed Q M p
      → Owed Q M (spawn_follow_ups path snap acts p)
  unfolding spawn_follow_ups
  spawn_follow_ups-Owed path snap [] p o = o
  spawn_follow_ups-Owed path snap (act ∷ rest) p o = go act (spawn_follow_ups-Owed path snap rest)
    where
      invalid :
          ((q : Progress) → Owed Q M q → Owed Q M (spawn_follow_ups path snap rest q))
          → Owed Q M (
              spawn_follow_ups path snap rest
                (note (add_error path (ExecError.invalid_follow_up path)) p))
      invalid h = h (note (add_error path (ExecError.invalid_follow_up path)) p) (
          note-Owed (add_error path (ExecError.invalid_follow_up path)) p
            (L.error path (ExecError.invalid_follow_up path)) o)

      go :
          (a : SyncAction)
          → ((q : Progress) → Owed Q M q → Owed Q M (spawn_follow_ups path snap rest q))
          → Owed Q M (spawn_follow_ups path snap (a ∷ rest) p)
      go (SyncAction.upload q id) h =
          let t = Task.upload_task q id (lookup q snap) false in h (spawn t p) (spawn-Owed t p o)
      go (SyncAction.download q id) h =
          let t = Task.download_task q id (row_or (lookup q snap) (lookup path snap)) in
          h (spawn t p) (spawn-Owed t p o)
      go (SyncAction.skip q) h = invalid h
      go (SyncAction.delete_local q) h = invalid h
      go (SyncAction.delete_remote q id) h = invalid h
      go (SyncAction.conflict q id md5 r) h = invalid h
      go (SyncAction.cleanup_metadata q) h = invalid h
      go (SyncAction.touch_metadata q) h = invalid h

  spawned-Owed :
      (path : RelativePath) (snap : TextMap DriveFile) (f : FollowUps) (p : Progress)
      → Owed Q M p
      → Owed Q M (spawned path snap f p)
  spawned-Owed path snap (actions acts) p o = spawn_follow_ups-Owed path snap acts p o
  spawned-Owed path snap (needs_remote_id mode) p o =
      note-Owed (add_error path (ExecError.no_remote_id path)) p
        (L.error path (ExecError.no_remote_id path)) o

module _ (T : Table) (P : Codec PendingOp) (C : Codec Tombstone) {D F : Type 0}
    (client : Client D F) (K : Disk F) (to_rfc3339 : Timestamp → Text)
    (parse_from_rfc3339 : Text → Option Timestamp) (stamp : Text) (now : Timestamp)
    (self : SyncExecutor) (Q : SyncReport → Type 0) (L : IsLasting Q) (M : Task → Type 0) where
  abbrev Owes : Exec (World T.State D F) Progress → Type 0
  Owes m = Ensures Any m (λ p _. Owed Q M p) Any

  on_report-Owes :
      (m : SyncReport → Exec (World T.State D F) SyncReport) (p : Progress)
      → (Q p.report → Ensures Any (m p.report) (λ r _. Q r) Any)
      → Owed Q M p
      → Owes (on_report T P C client K to_rfc3339 parse_from_rfc3339 stamp now self m p)
  on_report-Owes m p h (inl q) = Ensures-fact _ _ (h q) (λ r x. Ensures-pure _ (λ w y. inl x))
  on_report-Owes m p h (inr t) = Says-then _ _ (λ r. Ensures-pure _ (λ w y. inr t))

  resolve-Owes :
      (snap : TextMap DriveFile) (path : RelativePath) (id : Option Text) (c : ConflictResolution)
      (p : Progress)
      → Owed Q M p
      → Owes (resolve T P C client K to_rfc3339 parse_from_rfc3339 stamp now self snap path id c p)
  resolve-Owes snap path id (ConflictResolution.rename suffix) p o =
      on_report-Owes
        (kept_both T P C client K to_rfc3339 parse_from_rfc3339 stamp now self path id
          (lookup path snap) suffix)
        p
        (kept_both-Lasts T P C client K to_rfc3339 parse_from_rfc3339 stamp now self Q L path id
          (lookup path snap) suffix p.report)
        o
  resolve-Owes snap path id (ConflictResolution.conflict_copy suffix) p o =
      on_report-Owes
        (kept_both T P C client K to_rfc3339 parse_from_rfc3339 stamp now self path id
          (lookup path snap) suffix)
        p
        (kept_both-Lasts T P C client K to_rfc3339 parse_from_rfc3339 stamp now self Q L path id
          (lookup path snap) suffix p.report)
        o
  resolve-Owes snap path id ConflictResolution.local_wins p o =
      Ensures-pure _ (λ w x. spawned-Owed Q L M path snap _ p o)
  resolve-Owes snap path id ConflictResolution.remote_wins p o =
      Ensures-pure _ (λ w x. spawned-Owed Q L M path snap _ p o)

  -- The conflict itself is recorded first.
  pub conflict-Owes :
      (snap : TextMap DriveFile) (path : RelativePath) (id md5 : Option Text)
      (c : ConflictResolution) (p : Progress)
      → Owed Q M (note (add_conflict path) p)
      → Owes (
          apply_action T P C client K to_rfc3339 parse_from_rfc3339 stamp now self snap
            (SyncAction.conflict path id md5 c)
            p)
  unfolding apply_action
  conflict-Owes snap path id md5 c p o =
      resolve-Owes snap path id (tag_conflict_copy_resolution stamp c self.device_id)
        (note (add_conflict path) p) o

  pub apply_action-Owes :
      (snap : TextMap DriveFile) (act : SyncAction) (p : Progress)
      → Owed Q M p
      → Owes (apply_action T P C client K to_rfc3339 parse_from_rfc3339 stamp now self snap act p)
  unfolding apply_action
  apply_action-Owes snap (SyncAction.skip path) p o =
      Ensures-pure _ (λ w x. note-Owed Q L M add_skip p L.skip o)
  apply_action-Owes snap (SyncAction.upload path id) p o =
      Ensures-pure _
        (λ w x. spawn-Owed Q L M (Task.upload_task path id (lookup path snap) true) p o)
  apply_action-Owes snap (SyncAction.download path id) p o =
      Ensures-pure _ (λ w x. spawn-Owed Q L M (Task.download_task path id (lookup path snap)) p o)
  apply_action-Owes snap (SyncAction.cleanup_metadata path) p o =
      Says-then _ _ (λ _. Ensures-pure _ (λ w x. o))
  apply_action-Owes snap (SyncAction.touch_metadata path) p o =
      on_report-Owes (touch T P C client K to_rfc3339 parse_from_rfc3339 stamp now self path) p
        (touch-Lasts T P C client K to_rfc3339 parse_from_rfc3339 stamp now self Q L path p.report)
        o
  apply_action-Owes snap (SyncAction.delete_local path) p o =
      on_report-Owes (delete_local T P C D K self.safe_delete stamp self.device_id now path) p
        (delete_local-Lasts T P C D K self.safe_delete stamp self.device_id now path p.report Q L) o
  apply_action-Owes snap (SyncAction.delete_remote path id) p o =
      Says-then _ _ (λ known. Says-then _ _ (λ confirmed. Ensures-pure _ (λ w x. go confirmed)))
    where
      go : (b : Bool) → Owed Q M (if b then spawn (Task.trash_task path id) p else note add_skip p)
      go true = spawn-Owed Q L M (Task.trash_task path id) p o
      go false = note-Owed Q L M add_skip p L.skip o
  apply_action-Owes snap (SyncAction.conflict path id md5 c) p o =
      conflict-Owes snap path id md5 c p (note-Owed Q L M (add_conflict path) p (L.conflict path) o)

  pub apply_actions-Owes :
      (snap : TextMap DriveFile) (acts : List SyncAction) (p : Progress)
      → Owed Q M p
      → Owes (apply_actions T P C client K to_rfc3339 parse_from_rfc3339 stamp now self snap acts p)
  unfolding apply_actions
  apply_actions-Owes snap [] p o = Ensures-pure _ (λ w x. o)
  apply_actions-Owes snap (act ∷ acts) p o =
      Ensures-fact _ _ (apply_action-Owes snap act p o)
        (λ next x. apply_actions-Owes snap acts next x)

  -- An action of the plan that brings its entry or its task about.
  pub apply_actions-Makes :
      (snap : TextMap DriveFile) (act : SyncAction) (acts : List SyncAction) (p : Progress)
      → ((q : Progress)
          → Owes
              (apply_action T P C client K to_rfc3339 parse_from_rfc3339 stamp now self snap act q))
      → IsIn act acts
      → Owes (apply_actions T P C client K to_rfc3339 parse_from_rfc3339 stamp now self snap acts p)
  unfolding apply_actions
  apply_actions-Makes snap act [] p h i = absurd i
  apply_actions-Makes snap act (a ∷ acts) p h (inl e) =
      Ensures-fact _ _
        (subst
          (λ b.
            Owes
              (apply_action T P C client K to_rfc3339 parse_from_rfc3339 stamp now self snap b p))
          e (h p))
        (λ next x. apply_actions-Owes snap acts next x)
  apply_actions-Makes snap act (a ∷ acts) p h (inr i) =
      Says-then _ _ (λ next. apply_actions-Makes snap act acts next h i)

  pub join_tasks-Lasts :
      (tasks : List Task) (r : SyncReport)
      → Q r
      → Ensures Any
          (join_tasks T P C client K to_rfc3339 parse_from_rfc3339 stamp now self tasks r)
          (λ s _. Q s)
          Any
  unfolding join_tasks
  join_tasks-Lasts [] r q = Ensures-pure _ (λ w x. q)
  join_tasks-Lasts (t ∷ tasks) r q = Says-then _ _ (λ a.
      Ensures-fact _ _
        (join_task-Lasts T P C client K to_rfc3339 parse_from_rfc3339 stamp now self Q L t a r q)
        (λ s x. join_tasks-Lasts tasks s x))

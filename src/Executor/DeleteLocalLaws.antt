-- ===== src/Executor/DeleteLocalLaws.antt =====
-- What the deletion of a local file keeps, and when it takes place.
use oxidrive.Base.{
  ◌≡◌, refl, Bool, true, Option, none, some, Result, ok, err, ◌⊎◌, inl, inr, Option-cases,
}
use oxidrive.Text.{Text}
use oxidrive.TextMap.{lookup}
use oxidrive.Types.{
  Timestamp, Tombstone, PendingOp, PendingOpKind, PendingOpStage, planned, side_effect_started,
  side_effect_done, metadata_committed,
}
use oxidrive.Types.Path.{RelativePath}
use oxidrive.Store.Table.{Table, Codec}
use oxidrive.Store.Session.{get}
use oxidrive.Engine.Recovery.{clear_path_state_for_recovery}
use oxidrive.Executor.Tombstone.{
  read_tombstone, write_tombstone, confirm_delete_observation, first_observation,
}
use oxidrive.Executor.Effects.{
  ExecError, World, Exec, Disk, on_disk, on_store, with_disk, journal_stage, ◌>>=◌,
}
use oxidrive.Executor.Effects.Hoare.{Post, Ensures, Ensures-pure, Ensures-if, Ensures-then}
use oxidrive.Executor.Effects.Keeps.{IsFrame, Keeps-lift, Keeps-gets, Keeps-stage, Keeps-clear}
use oxidrive.Executor.LocalTrashLaws.{IsFileSystem, Holds, Holds-move}
use oxidrive.Executor.DeleteLocal.{
  SyncReport, add_skip, attempt, id_of, counted, observe, bury, or_error, or_clear, delete_file,
  forget_file, confirmed_delete, delete_local,
}

module _ {W A : Type 0} {I R : W → Type 0} where
  Keeps-attempt : (m : Exec W A) → Ensures I m (λ _. I) I → Ensures I (attempt m) (λ _. I) R
  Keeps-attempt m h = record { at = λ w x. go (m w) (h.at w x) }
    where
      go : (a : Result ExecError A × W) → Post (λ _. I) I a → I a.1
      go (ok a, w) x = x
      go (err e, w) x = x

module _ (T : Table) (P : Codec PendingOp) (C : Codec Tombstone) (D : Type 0) {F : Type 0}
    (K : Disk F) (content : RelativePath → F → Option Text) (fs : IsFileSystem K content)
    (stamp device_id : Text) (now : Timestamp) (path : RelativePath) (report : SyncReport)
    (t : Text) where
  -- Some local file holds the text.
  abbrev pub Found : World T.State D F → Type 0
  Found w = Holds K content fs stamp t w.disk

  frame : IsFrame Found Found
  frame = record { sessions = λ w u h. h; journal = λ w j h. h; fails = λ w h. h }

  stage_lem :
      (s : PendingOpStage)
      → Ensures Found
          (attempt (journal_stage T P now path PendingOpKind.delete_local s))
          (λ _. Found)
          Found
  stage_lem s = Keeps-attempt _ (Keeps-stage T P frame now path PendingOpKind.delete_local s)

  on_disk_lem :
      (m : Exec F Unit)
      → Ensures
          (Holds K content fs stamp t)
          m
          (λ _. Holds K content fs stamp t)
          (Holds K content fs stamp t)
      → Ensures Found (on_disk {S = T.State} {D = D} m) (λ _. Found) Found
  on_disk_lem m h = record { at = λ w x. go w (m w.disk) (h.at w.disk x) }
    where
      go :
          (w : World T.State D F) (a : Result ExecError Unit × F)
          → Post (λ _. Holds K content fs stamp t) (Holds K content fs stamp t) a
          → Post (λ _. Found) Found (with_disk w a)
      go w (ok u, f) x = x
      go w (err e, f) x = x

  or_error_lem :
      {A : Type 0} (a : Result ExecError A) (rest : Exec (World T.State D F) SyncReport)
      → Ensures Found rest (λ _. Found) Found
      → Ensures Found
          (or_error T P C D K true stamp device_id now path report a rest)
          (λ _. Found)
          Found
  or_error_lem (ok a) rest h = h
  or_error_lem (err e) rest h = Ensures-pure _ (λ w x. x)

  or_clear_lem :
      {A : Type 0} (a : Result ExecError A) (rest : Exec (World T.State D F) SyncReport)
      → Ensures Found rest (λ _. Found) Found
      → Ensures Found
          (or_clear T P C D K true stamp device_id now path report a rest)
          (λ _. Found)
          Found
  or_clear_lem (ok a) rest h = h
  or_clear_lem (err e) rest h =
      Ensures-then _ _ (Keeps-clear T P frame path) (λ _. Ensures-pure _ (λ w x. x))

  bury_lem :
      (id : Option Text)
      → Ensures Found (bury T P C D K true stamp device_id now path report id) (λ _. Found) Found
  unfolding bury
  bury_lem id = record {
    at = λ w h.
        go w h (
          Option-cases
            (write_tombstone T C path (first_observation id now device_id) w.tombstones));
  }
    where
      go :
          (w : World T.State D F)
          → Found w
          → (write_tombstone T C path (first_observation id now device_id) w.tombstones ≡ none)
            ⊎ ((j : T.State) × (write_tombstone T C path
                    (first_observation id now device_id)
                    w.tombstones
                  ≡ some j))
          → Post (λ _. Found) Found (bury T P C D K true stamp device_id now path report id w)
      go w h (inl e) = rw e h
      go w h (inr (j, e)) = rw e h

  counted_lem :
      (w : World T.State D F) (o : Option (Bool × T.State))
      → Found w
      → Post (λ _. Found) Found (counted T P C D K true stamp device_id now path report w o)
  counted_lem w none h = h
  counted_lem w (some (b, j)) h = h

  forget_file_lem :
      (id : Option Text)
      → Ensures Found
          (forget_file T P C D K true stamp device_id now path report id)
          (λ _. Found)
          Found
  forget_file_lem id =
      Ensures-then (on_store (clear_path_state_for_recovery path)) _ (record { at = λ w h. h })
        (λ _.
          Ensures-then _ _ (stage_lem metadata_committed)
            (λ _. Ensures-then _ _ (bury_lem id) (λ _. Ensures-pure _ (λ w h. h))))

  confirmed_delete_lem :
      (id : Option Text)
      → Ensures Found
          (confirmed_delete T P C D K true stamp device_id now path report id)
          (λ _. Found)
          Found
  unfolding delete_file
  confirmed_delete_lem id = Ensures-then _ _ (stage_lem planned) (λ a. or_error_lem a _ (
      Ensures-then _ _ (Keeps-attempt _ (Keeps-lift frame _)) (λ b. or_clear_lem b _ (
        Ensures-then _ _ (stage_lem side_effect_started) (λ c. or_error_lem c _ (
          Ensures-then _ _ (Keeps-attempt _ (on_disk_lem _ (Holds-move K content fs stamp t path)))
            (λ d. or_clear_lem d _ (
              Ensures-then _ _ (stage_lem side_effect_done)
                (λ e. or_error_lem e _ (forget_file_lem id))))))))))

  pub delete_local_lem :
      Ensures Found (delete_local T P C D K true stamp device_id now path report) (λ _. Found) Found
  unfolding delete_local observe
  delete_local_lem = Ensures-then _ _ (Keeps-gets frame _) (λ known.
      Ensures-then _ _ (record { at = λ w h. counted_lem w _ h })
        (λ confirmed.
          Ensures-if confirmed _ _ (λ _. confirmed_delete_lem _) (λ _. Ensures-pure _ (λ w h. h))))

-- With `safe_delete`, the deletion of a local file loses no content: each text that some local file
-- held is held by some local file afterwards, on every branch and behind errors. The file system is a
-- parameter with the laws of `IsFileSystem`.
pub safe_delete_loses_nothing :
    (T : Table) (P : Codec PendingOp) (C : Codec Tombstone) (D : Type 0) {F : Type 0} (K : Disk F)
    (content : RelativePath → F → Option Text) (fs : IsFileSystem K content)
    (stamp device_id : Text) (now : Timestamp) (path : RelativePath) (report : SyncReport)
    (q : RelativePath) (t : Text) (w : World T.State D F)
    → content q w.disk ≡ some t
    → Holds K content fs stamp t
        (delete_local T P C D K true stamp device_id now path report w).1.disk
safe_delete_loses_nothing T P C D {F} K content fs stamp device_id now path report q t w h =
    go (delete_local T P C D K true stamp device_id now path report w)
      ((delete_local_lem T P C D K content fs stamp device_id now path report t).at w (q, h))
  where
    go :
        (a : Result ExecError SyncReport × World T.State D F)
        → Post (λ _ v. Holds K content fs stamp t v.disk) (λ v. Holds K content fs stamp t v.disk) a
        → Holds K content fs stamp t a.1.disk
    go (ok r, v) x = x
    go (err e, v) x = x

-- If the path has no tombstone, the deletion of its file waits: the local files, the session and the
-- journal stay as they are, and unless an error is returned the report counts one more skipped path.
pub delete_local_waits :
    (T : Table) (P : Codec PendingOp) (C : Codec Tombstone) (D : Type 0) {F : Type 0} (K : Disk F)
    (safe_delete : Bool) (stamp device_id : Text) (now : Timestamp) (path : RelativePath)
    (report : SyncReport) (w : World T.State D F)
    → read_tombstone T C path w.tombstones ≡ some none
    → Post
        (λ r v.
          (r ≡ add_skip report)
          × (v.disk ≡ w.disk)
          × (v.store ≡ w.store)
          × (v.pending_ops ≡ w.pending_ops))
        (λ v. v ≡ w)
        (delete_local T P C D K safe_delete stamp device_id now path report w)
unfolding delete_local observe confirm_delete_observation get ◌>>=◌
delete_local_waits T P C D K safe_delete stamp device_id now path report w h =
    let id =
      id_of T P C D K safe_delete stamp device_id now path report (lookup path w.store.records) in
    elim (Option-cases
      (write_tombstone T C path (first_observation id now device_id) w.tombstones)) [
        | inl e ↦ rw (h, e) refl
        | inr (j, e) ↦ rw (h, e) (refl, refl, refl, refl)
      ]

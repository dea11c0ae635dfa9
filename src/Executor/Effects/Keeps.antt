-- ===== src/Executor/Effects/Keeps.antt =====
-- The parts of a transfer that leave a property of the state alone: one that does not read the
-- upload sessions and the journal.
use oxidrive.Base.{◌≡◌, refl, sym, ap, Option, none, some, List, [], ◌∷◌, Result, ok, err}
use oxidrive.Text.{Text}
use oxidrive.TextMap.{TextMap}
use oxidrive.Types.{
  Timestamp, PendingOp, PendingOpKind, PendingOpStage, UploadSession, UploadSessionMode,
}
use oxidrive.Types.Path.{RelativePath}
use oxidrive.Drive.Upload.{ResumableUploadState}
use oxidrive.Store.Table.{Table, Codec}
use oxidrive.Store.Session.{upsert_upload_session, remove_upload_session}
use oxidrive.Executor.TrashRemote.{set_pending_op}
use oxidrive.Executor.Effects.{
  ExecError, World, Transfer, lift, gets, ask, read_disk, on_store, send, with_drive, with_transfer,
  keep_progress, journaled, journal_stage, clear_pending_op,
}
use oxidrive.Executor.Effects.Hoare.{Post, Ensures}

-- A property of what an answer holds, if it holds anything.
abbrev pub IfOk : {A : Type 0} → (A → Type 0) → Result ExecError A → Type 0
IfOk Q (ok a) = Q a
IfOk Q (err e) = Unit

module _ {S D F : Type 0} where
  abbrev pub with_sessions : World S D F → TextMap UploadSession → World S D F
  with_sessions w u = record w { store = record w.store { upload_sessions = u } }

  -- A property of the state that the upload sessions and the journal have no part in.
  pub record IsFrame (I R : World S D F → Type 0) : Type 0 where
    pub sessions : (w : World S D F) (u : TextMap UploadSession) → I w → I (with_sessions w u)
    pub journal : (w : World S D F) (t : S) → I w → I (record w { pending_ops = t })
    pub fails : (w : World S D F) → I w → R w

module _ {S D F : Type 0} {I R : World S D F → Type 0} (frame : IsFrame I R) where
  pub Keeps-lift : {A : Type 0} (r : Result ExecError A) → Ensures I (lift r) (λ _. I) R
  Keeps-lift (ok a) = record { at = λ w h. h }
  Keeps-lift (err e) = record { at = frame.fails }

  pub Keeps-gets : {A : Type 0} (f : World S D F → A) → Ensures I (gets f) (λ _. I) R
  Keeps-gets f = record { at = λ w h. h }

  pub Keeps-read : {A : Type 0} (m : F → Result ExecError A) → Ensures I (read_disk m) (λ _. I) R
  Keeps-read {A = A} m = record { at = λ w h. go w h (m w.disk) }
    where
      go : (w : World S D F) → I w → (r : Result ExecError A) → Post (λ _. I) R (r, w)
      go w h (ok a) = h
      go w h (err e) = frame.fails w h

  pub Learns-lift :
      {A : Type 0} (r : Result ExecError A) → Ensures I (lift r) (λ a w. I w × (r ≡ ok a)) R
  Learns-lift (ok a) = record { at = λ w h. (h, refl) }
  Learns-lift (err e) = record { at = frame.fails }

  -- A request of which only the property of Drive's state behind it matters.
  pub Keeps-ask :
      {A : Type 0} (request : D → Result ExecError A × D)
      → ((w : World S D F) → I w → I (record w { drive = (request w.drive).1 }))
      → Ensures I (ask request) (λ _. I) R
  Keeps-ask {A = A} request h = record { at = λ w x. go w (request w.drive) (h w x) }
    where
      go :
          (w : World S D F) (a : Result ExecError A × D)
          → I (record w { drive = a.1 })
          → Post (λ _. I) R (with_drive w a)
      go w (ok a, d) x = x
      go w (err e, d) x = frame.fails (record w { drive = d }) x

  pub Learns-read :
      {A : Type 0} (m : F → Result ExecError A) (f : F)
      → ((w : World S D F) → I w → w.disk ≡ f)
      → Ensures I (read_disk m) (λ a w. I w × (m f ≡ ok a)) R
  Learns-read {A = A} m f at = record { at = λ w h. go w h (m w.disk) (ap m (sym (at w h))) }
    where
      go :
          (w : World S D F)
          → I w
          → (r : Result ExecError A) → m f ≡ r
          → Post (λ a v. I v × (m f ≡ ok a)) R (r, w)
      go w h (ok a) e = (h, e)
      go w h (err x) e = frame.fails w h

  -- A request that keeps the property, and whose answers have one.
  pub Learns-heard :
      {A : Type 0} {Said : A → Type 0} (request : D → Result ExecError A × D)
      → ((w : World S D F) → I w → I (record w { drive = (request w.drive).1 }))
      → ((d : D) → IfOk Said (request d).0)
      → Ensures I (ask request) (λ a w. I w × Said a) R
  Learns-heard {A} {Said} request h says = record {
    at = λ w x. go w (request w.drive) (h w x) (says w.drive);
  }
    where
      go :
          (w : World S D F) (a : Result ExecError A × D)
          → I (record w { drive = a.1 })
          → IfOk Said a.0
          → Post (λ a v. I v × Said a) R (with_drive w a)
      go w (ok a, d) x s = (x, s)
      go w (err e, d) x s = frame.fails (record w { drive = d }) x

  pub Learns-ask :
      {A : Type 0} {Said : A → Type 0} (request : D → Result ExecError A × D)
      → ((w : World S D F) (d : D) → I w → I (record w { drive = d }))
      → ((d : D) → IfOk Said (request d).0)
      → Ensures I (ask request) (λ a w. I w × Said a) R
  Learns-ask request free says = Learns-heard request (λ w h. free w _ h) says

  pub Keeps-remove_session :
      (path : RelativePath) → Ensures I (on_store (remove_upload_session path)) (λ _. I) R
  unfolding remove_upload_session
  Keeps-remove_session path = record { at = λ w h. frame.sessions w _ h }

  keep_progress-frame :
      (path : RelativePath) (mode : UploadSessionMode) (local_md5 : Text) (now : Timestamp)
      (states : List ResumableUploadState) (w : World S D F)
      → I w
      → I (record w { store = keep_progress path mode local_md5 now states w.store })
  unfolding keep_progress upsert_upload_session
  keep_progress-frame path mode local_md5 now [] w h = h
  keep_progress-frame path mode local_md5 now (s ∷ states) w h =
      keep_progress-frame path mode local_md5 now states (with_sessions w _) (frame.sessions w _ h)

  pub Keeps-send :
      {A : Type 0} (path : RelativePath) (mode : UploadSessionMode) (local_md5 : Text)
      (now : Timestamp) (m : F → D → Transfer D A)
      → ((w : World S D F) → I w → I (record w { drive = (m w.disk w.drive).drive }))
      → Ensures I (send path mode local_md5 now m) (λ _. I) R
  Keeps-send {A = A} path mode local_md5 now m h = record {
    at = λ w x.
        let t = m w.disk w.drive in
        go (with_transfer path mode local_md5 now w t).1 t.outcome (
          keep_progress-frame path mode local_md5 now t.progress (record w { drive = t.drive })
            (h w x));
  }
    where
      go : (w : World S D F) (a : Result ExecError A) → I w → Post (λ _. I) R (a, w)
      go w (ok a) x = x
      go w (err e) x = frame.fails w x

module _ (T : Table) (P : Codec PendingOp) {D F : Type 0} {I R : World T.State D F → Type 0}
    (frame : IsFrame I R) where
  pub Keeps-stage :
      (now : Timestamp) (path : RelativePath) (kind : PendingOpKind) (stage : PendingOpStage)
      → Ensures I (journal_stage T P now path kind stage) (λ _. I) R
  unfolding journal_stage
  Keeps-stage now path kind stage = record {
    at = λ w h. go w h (set_pending_op T P path kind stage now w.pending_ops);
  }
    where
      go :
          (w : World T.State D F)
          → I w
          → (o : Option T.State) → Post (λ _. I) R (journaled T P path w o)
      go w h none = frame.fails w h
      go w h (some t) = frame.journal w t h

  pub Keeps-clear : (path : RelativePath) → Ensures I (clear_pending_op T P path) (λ _. I) R
  unfolding clear_pending_op
  Keeps-clear path = record { at = λ w h. frame.journal w _ h }

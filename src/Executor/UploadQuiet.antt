-- ===== src/Executor/UploadQuiet.antt =====
-- An upload settles its path: the plan of the next cycle leaves the path alone.
use mathlib.Core.Path.{subst}
use oxidrive.Base.{
  ℕ, ◌≡◌, refl, sym, ◌∙◌, inl, inr, Bool, true, false, Option, none, some, Result, ok, err,
}
use oxidrive.Text.{Text}
use oxidrive.TextMap.{TextMap, insert}
use oxidrive.TextMap.Order.{IsOrdered}
use oxidrive.TextMap.Laws.{lookup-insert}
use oxidrive.Types.{Timestamp, LocalFile, SyncAction, PendingOp, PendingOpKind, WorkspaceConversion}
use oxidrive.Types.Path.{RelativePath}
use oxidrive.Drive.{DriveFile}
use oxidrive.Decision.{ConflictPolicy, determine_action_converted_with_remote_ids}
use oxidrive.Engine.Plan.{action_for, by_conversion, file_ids}
use oxidrive.Store.Table.{Table, Codec}
use oxidrive.Store.Session.{Store, get, get_conversion}
use oxidrive.Executor.Records.{synced_record, synced_is_quiet}
use oxidrive.Executor.Effects.{World, Client, Disk, Metadata, ExecError}
use oxidrive.Executor.Effects.Hoare.{Post}
use oxidrive.Executor.Upload.{Outcome, uploaded, downloaded, deleted_remote, mismatch, skipped}
use oxidrive.Executor.RunUpload.{run_upload}
use oxidrive.Executor.Settles.{Baseline, IsCommitted}
use oxidrive.Executor.UploadSettled.{Answers, IfUploaded, run_upload_lem}

abbrev ok_of : {A : Type 0} → A → Result ExecError A
ok_of a = ok a

ok-inj : {A : Type 0} (a b : A) → ok_of a ≡ ok b → a ≡ b
ok-inj a b h = cc

abbrev pub file_of : RelativePath → Text → Metadata → LocalFile
file_of path md5 m = record { path = path; md5 = md5; mtime = m.modified; size = m.len }

module _ (to_rfc3339 : Timestamp → Text) (stamp : Text) (policy : ConflictPolicy)
    (local : TextMap LocalFile) (remote : TextMap DriveFile) where
  -- The next plan's action for the path, when the listings show this file and this Drive file.
  abbrev pub next_action : RelativePath → LocalFile → DriveFile → Store → SyncAction
  next_action path l r store =
      action_for to_rfc3339 stamp policy (insert path l local) (insert path r remote) store path

  pub stored_is_quiet :
      (path : RelativePath) (l : LocalFile) (r : DriveFile) (now : Timestamp) (store : Store)
      → IsOrdered local
      → IsOrdered remote
      → get path store ≡ some (synced_record to_rfc3339 l.md5 l.mtime l.size now (some r))
      → Baseline l.md5 (get_conversion path store)
      → next_action path l r store ≡ SyncAction.skip path
  unfolding action_for determine_action_converted_with_remote_ids
  stored_is_quiet path l r now store ol or e b = go (get_conversion path store) b
    where
      go :
          (c : Option WorkspaceConversion)
          → Baseline l.md5 c
          → by_conversion to_rfc3339 stamp policy
              (insert path l local)
              (insert path r remote)
              store
              path
              c
            ≡ SyncAction.skip path
      go none b =
          rw (lookup-insert path l local ol, lookup-insert path r remote or, e)
            (synced_is_quiet to_rfc3339 stamp path policy false none
              (file_ids (insert path r remote)) l r now (inl refl))
      go (some c) b =
          rw (lookup-insert path l local ol, lookup-insert path r remote or, e)
            (synced_is_quiet to_rfc3339 stamp path policy true c.last_export_md5
              (file_ids (insert path r remote)) l r now (inr (inr b)))

module _ (T : Table) (P : Codec PendingOp) {D F : Type 0} (C : Client D F) (K : Disk F)
    (to_rfc3339 : Timestamp → Text) (parse_from_rfc3339 : Text → Option Timestamp)
    (device_id : Text) (now : Timestamp) (path : RelativePath) (Said : DriveFile → Type 0)
    (stamp : Text) (policy : ConflictPolicy) (local : TextMap LocalFile)
    (remote : TextMap DriveFile) where
  -- The path is settled for the next cycle, with a Drive file that has the property.
  abbrev pub IsQuiet : PendingOpKind → LocalFile → World T.State D F → Type 0
  IsQuiet kind l w =
      IsCommitted T P path kind now w
      × (r : DriveFile) × Said r
      × (next_action to_rfc3339 stamp policy local remote path l r w.store ≡ SyncAction.skip path)

  abbrev pub IfUploadedQuiet : LocalFile → Outcome → World T.State D F → Type 0
  IfUploadedQuiet l (uploaded p) w = (p ≡ path) × IsQuiet PendingOpKind.upload l w
  IfUploadedQuiet l outcome w = Unit

  -- If `run_upload` says that the path was uploaded, its journal entry is committed, and the next plan
  -- skips the path when the listings show the local file as it was and a Drive file that Drive answered
  -- in this run. The records, the conversions and the listings must be maps; `Said` is any property of
  -- the files that the client's answers give.
  pub uploaded_is_quiet :
      (stability_ms : ℕ) (enforce use_leases : Bool) (remote_id : Option Text)
      (row : Option DriveFile) (md5 : Text) (m : Metadata) (w : World T.State D F)
      → Answers C Said
      → IsOrdered w.store.records
      → IsOrdered w.store.conversions
      → IsOrdered local
      → IsOrdered remote
      → K.compute_md5 path w.disk ≡ ok md5
      → K.metadata path w.disk ≡ ok m
      → Post
          (IfUploadedQuiet (file_of path md5 m))
          (λ _. Unit)
          (run_upload T P C K to_rfc3339 parse_from_rfc3339 device_id now path stability_ms enforce
            use_leases remote_id row w)
  uploaded_is_quiet stability_ms enforce use_leases remote_id row md5 m w says or oc ol om e g =
      go
        (run_upload T P C K to_rfc3339 parse_from_rfc3339 device_id now path stability_ms enforce
          use_leases remote_id row w)
        ((run_upload_lem T P C K to_rfc3339 parse_from_rfc3339 device_id now path w.disk
            w.store.conversions oc Said says stability_ms enforce use_leases remote_id row).at
          w (refl, or, refl))
    where
      go :
          (a : Result ExecError Outcome × World T.State D F)
          → Post
              (IfUploaded T P C K to_rfc3339 parse_from_rfc3339 device_id now path w.disk
                w.store.conversions oc Said says)
              (λ _. Unit)
              a
          → Post (IfUploadedQuiet (file_of path md5 m)) (λ _. Unit) a
      go (err x, v) h = tt
      go (ok skipped, v) h = tt
      go (ok (downloaded p), v) h = tt
      go (ok (deleted_remote p), v) h = tt
      go (ok (mismatch p id r), v) h = tt
      go (ok (uploaded p), v) (same, (md5', m', r, e', g', said, (m2, g2, rec, base), done)) =
          let md5-eq : md5' ≡ md5 = ok-inj md5' md5 (sym e' ∙ e) in
          let m'-eq : m' ≡ m = ok-inj m' m (sym g' ∙ g) in
          let m2-eq : m2 ≡ m = ok-inj m2 m (sym g2 ∙ g) in
          (
            same,
            (
              done,
              r,
              said,
              stored_is_quiet to_rfc3339 stamp policy local remote path (file_of path md5 m) r now
                  v.store ol om
                  (subst
                    (λ x.
                      get path v.store
                      ≡ some (synced_record to_rfc3339 x m.modified m.len now (some r)))
                    md5-eq
                    (subst
                      (λ x.
                        get path v.store
                        ≡ some (synced_record to_rfc3339 md5' m.modified x.len now (some r)))
                      m'-eq
                      (subst
                        (λ x.
                          get path v.store
                          ≡ some (synced_record to_rfc3339 md5' x.modified m'.len now (some r)))
                        m2-eq rec)))
                  (subst (λ x. Baseline x (get_conversion path v.store)) md5-eq base),
            ),
          )

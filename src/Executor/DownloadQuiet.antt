-- ===== src/Executor/DownloadQuiet.antt =====
-- A download settles its path: the plan of the next cycle leaves the local file alone.
use oxidrive.Base.{◌≡◌, false, some, Result, ok, err}
use oxidrive.Text.{Text, text_eq}
use oxidrive.TextMap.{TextMap}
use oxidrive.TextMap.Order.{IsOrdered}
use oxidrive.Types.{Timestamp, LocalFile, SyncAction, PendingOp, PendingOpKind}
use oxidrive.Types.Path.{RelativePath}
use oxidrive.Drive.{DriveFile, folder}
use oxidrive.Decision.{ConflictPolicy}
use oxidrive.Store.Table.{Table, Codec}
use oxidrive.Executor.Effects.{ExecError, World, Client, Disk, Metadata}
use oxidrive.Executor.Effects.Hoare.{Post}
use oxidrive.Executor.Upload.{Outcome, uploaded, downloaded, deleted_remote, mismatch, skipped}
use oxidrive.Executor.Settles.{IsCommitted}
use oxidrive.Executor.UploadQuiet.{file_of, next_action, stored_is_quiet}
use oxidrive.Executor.DownloadLaws.{IfDownloaded, run_download_lem}
use oxidrive.Executor.Download.{run_download}

module _ (T : Table) (P : Codec PendingOp) {D F : Type 0} (C : Client D F) (K : Disk F)
    (to_rfc3339 : Timestamp → Text) (now : Timestamp) (path : RelativePath) (r : DriveFile)
    (stamp : Text) (policy : ConflictPolicy) (local : TextMap LocalFile)
    (remote : TextMap DriveFile) where
  abbrev pub IsQuiet : RelativePath → World T.State D F → Type 0
  IsQuiet p w =
      (md5 : Text) × (m : Metadata) × (K.compute_md5 p w.disk ≡ ok md5)
      × (K.metadata p w.disk ≡ ok m)
      × (next_action to_rfc3339 stamp policy local remote p (file_of p md5 m) r w.store
          ≡ SyncAction.skip p)

  abbrev pub IfDownloadedQuiet : Outcome → World T.State D F → Type 0
  IfDownloadedQuiet (downloaded p) w =
      IsQuiet p w × IsCommitted T P path PendingOpKind.download now w
  IfDownloadedQuiet outcome w = Unit

  -- If `run_download` of a Drive file that is no folder says that a path was downloaded (the file's own
  -- or that of its export), the journal's entry is committed, and the next plan skips that path when the
  -- listings show the local file as it now is and this Drive file. The records, the conversions and the
  -- listings must be maps.
  pub downloaded_is_quiet :
      (remote_id : Text) (w : World T.State D F)
      → IsOrdered w.store.records
      → IsOrdered w.store.conversions
      → IsOrdered local
      → IsOrdered remote
      → text_eq r.mime_type folder ≡ false
      → Post IfDownloadedQuiet
          (λ _. Unit)
          (run_download T P C K to_rfc3339 now path remote_id (some r) w)
  downloaded_is_quiet remote_id w or oc ol om file =
      go (run_download T P C K to_rfc3339 now path remote_id (some r) w)
        ((run_download_lem T P C K to_rfc3339 now path r remote_id file).at w (or, oc))
    where
      go :
          (a : Result ExecError Outcome × World T.State D F)
          → Post (IfDownloaded T P C K to_rfc3339 now path r) (λ _. Unit) a
          → Post IfDownloadedQuiet (λ _. Unit) a
      go (err x, v) h = tt
      go (ok skipped, v) h = tt
      go (ok (uploaded p), v) h = tt
      go (ok (deleted_remote p), v) h = tt
      go (ok (mismatch p id f), v) h = tt
      go (ok (downloaded p), v) ((md5, (m, e, g, rec), base), entry) = (
        (
          md5,
          m,
          e,
          g,
          stored_is_quiet to_rfc3339 stamp policy local remote p (file_of p md5 m) r now v.store ol
              om rec base,
        ),
        entry,
      )

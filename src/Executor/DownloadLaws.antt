-- ===== src/Executor/DownloadLaws.antt =====
-- After `run_download` says that a file was downloaded, its path is settled.
use mathlib.Core.Path.{subst}
use oxidrive.Base.{
  ◌≡◌, refl, sym, inl, inr, ◌⊎◌, true, false, none, some, Result, ok, err, arith, Result-cases,
  Bool-cases,
}
use oxidrive.Text.{Text, text_eq}
use oxidrive.Text.Order.{text_eq_refl}
use oxidrive.TextMap.Order.{IsOrdered}
use oxidrive.TextMap.Laws.{lookup-insert, lookup-remove}
use oxidrive.Types.{
  Timestamp, PendingOp, PendingOpKind, PendingOpStage, planned, side_effect_started,
  side_effect_done, WorkspaceConversion,
}
use oxidrive.Types.Path.{RelativePath}
use oxidrive.Drive.{DriveFile, folder}
use oxidrive.Drive.Names.{is_google_workspace}
use oxidrive.Store.Table.{Table, Codec}
use oxidrive.Store.Session.{
  get, get_conversion, put_record, remove_record, remove_conversion, remove_upload_session,
  upsert_conversion,
}
use oxidrive.Executor.Records.{synced_record, upsert_local_record}
use oxidrive.Executor.Effects.{
  ExecError, journal_stage, World, Client, Disk, Metadata, on_disk, on_store, fetch, with_disk,
  with_both, ◌>>=◌,
}
use oxidrive.Executor.Effects.Hoare.{
  Post, Ensures, Ensures-pure, Ensures-if, Ensures-then, Ensures-bind,
}
use oxidrive.Executor.Effects.Keeps.{IsFrame, Keeps-lift, Keeps-stage, Keeps-remove_session}
use oxidrive.Executor.Upload.{Outcome, downloaded, record_local}
use oxidrive.Executor.Settles.{Baseline, IsCommitted, commit_lem}
use oxidrive.Executor.Download.{
  forget_original, exported, download_export, download_binary, run_download, done,
  converted_relative_path,
}

module _ (T : Table) (P : Codec PendingOp) {D F : Type 0} (C : Client D F) (K : Disk F)
    (to_rfc3339 : Timestamp → Text) (now : Timestamp) (path : RelativePath) (r : DriveFile) where
  abbrev W : Type 0
  W = World T.State D F

  abbrev pub AreMaps : W → Type 0
  AreMaps w = IsOrdered w.store.records × IsOrdered w.store.conversions

  abbrev Any : W → Type 0
  Any w = Unit

  -- The record of the path `p` is that of the local file as it is, and of the Drive file.
  abbrev pub Measured : RelativePath → Text → W → Type 0
  Measured p md5 w =
      (m : Metadata) × (K.compute_md5 p w.disk ≡ ok md5)
      × (K.metadata p w.disk ≡ ok m)
      × (get p w.store ≡ some (synced_record to_rfc3339 md5 m.modified m.len now (some r)))

  abbrev pub Settled : RelativePath → W → Type 0
  Settled p w = (md5 : Text) × Measured p md5 w × Baseline md5 (get_conversion p w.store)

  maps : IsFrame AreMaps Any
  maps = record { sessions = λ w u h. h; journal = λ w t h. h; fails = λ w h. tt }

  settled : (p : RelativePath) → IsFrame (Settled p) Any
  unfolding get get_conversion
  settled p = record { sessions = λ w u h. h; journal = λ w t h. h; fails = λ w h. tt }

  Keeps-on_disk :
      (m : F → Result ExecError Unit × F)
      → Ensures AreMaps (on_disk {S = T.State} {D = D} m) (λ _. AreMaps) Any
  Keeps-on_disk m = record { at = λ w h. go w (m w.disk) h }
    where
      go :
          (w : W) (a : Result ExecError Unit × F)
          → AreMaps w
          → Post (λ _. AreMaps) Any (with_disk w a)
      go w (ok a, f) h = h
      go w (err e, f) h = tt

  Keeps-fetch :
      (m : D × F → Result ExecError Unit × (D × F))
      → Ensures AreMaps (fetch {S = T.State} m) (λ _. AreMaps) Any
  Keeps-fetch m = record { at = λ w h. go w (m (w.drive, w.disk)) h }
    where
      go :
          (w : W) (a : Result ExecError Unit × (D × F))
          → AreMaps w
          → Post (λ _. AreMaps) Any (with_both w a)
      go w (ok a, (d, f)) h = h
      go w (err e, (d, f)) h = tt

  record_local_lem :
      (p : RelativePath)
      → Ensures AreMaps
          (record_local C K to_rfc3339 now p (some r) none none)
          (λ md5 w. IsOrdered w.store.conversions × Measured p md5 w)
          Any
  unfolding record_local upsert_local_record put_record get ◌>>=◌
  record_local_lem p = record {
    at = λ w h. go w h (Result-cases (K.compute_md5 p w.disk)) (Result-cases (K.metadata p w.disk));
  }
    where
      go :
          (w : W)
          → AreMaps w
          → ((a : Text) × (K.compute_md5 p w.disk ≡ ok a))
            ⊎ ((e : ExecError) × (K.compute_md5 p w.disk ≡ err e))
          → ((m : Metadata) × (K.metadata p w.disk ≡ ok m))
            ⊎ ((e : ExecError) × (K.metadata p w.disk ≡ err e))
          → Post
              (λ md5 v. IsOrdered v.store.conversions × Measured p md5 v)
              Any
              (record_local C K to_rfc3339 now p (some r) none none w)
      go w h (inl (a, e)) (inl (m, g)) =
          rw (e, g) (h.1, (m, e, g, lookup-insert p _ w.store.records h.0))
      go w h (inl (a, e)) (inr (x, g)) = rw (e, g) tt
      go w h (inr (x, e)) b = rw e tt

  upsert_conversion_lem :
      (p : RelativePath) (md5 : Text) (c : WorkspaceConversion)
      → c.last_export_md5 ≡ some md5
      → Ensures
          (λ w. IsOrdered w.store.conversions × Measured p md5 w)
          (on_store {S = T.State} {D = D} {F = F} (upsert_conversion p c))
          (λ _. Settled p)
          Any
  unfolding upsert_conversion get get_conversion
  upsert_conversion_lem p md5 c e = record {
    at =
        λ w h. (md5, h.1, subst (Baseline md5) (sym (lookup-insert p c w.store.conversions h.0)) e);
  }

  remove_conversion_lem :
      (p : RelativePath) (md5 : Text)
      → Ensures
          (λ w. IsOrdered w.store.conversions × Measured p md5 w)
          (on_store {S = T.State} {D = D} {F = F} (remove_conversion p))
          (λ _. Settled p)
          Any
  unfolding remove_conversion get get_conversion
  remove_conversion_lem p md5 = record {
    at = λ w h. (md5, h.1, rw (lookup-remove p p w.store.conversions, text_eq_refl p) tt);
  }

  forget_original_lem :
      (p : RelativePath)
      → Ensures
          (Settled p)
          (on_store {S = T.State} {D = D} {F = F} (forget_original T P C K to_rfc3339 now path p))
          (λ _. Settled p)
          Any
  unfolding forget_original remove_record remove_conversion remove_upload_session get get_conversion
  forget_original_lem p = record { at = λ w h. go w h (Bool-cases (text_eq p path)) }
    where
      go :
          (w : W)
          → Settled p w
          → (text_eq p path ≡ true) ⊎ (text_eq p path ≡ false)
          → Settled p (record w { store = forget_original T P C K to_rfc3339 now path p w.store })
      go w h (inl e) = rw e h
      go w (md5, (m, a, b, g), c) (inr e) = rw e (
        md5,
        (m, a, b, rw (lookup-remove p path w.store.records, e) g),
        rw (lookup-remove p path w.store.conversions, e) c,
      )

  -- What a download that was reported leaves.
  abbrev pub IfDownloaded : Outcome → W → Type 0
  IfDownloaded (downloaded p) w = Settled p w × IsCommitted T P path PendingOpKind.download now w
  IfDownloaded outcome w = Unit

  done_lem :
      (p : RelativePath) → Ensures (Settled p) (done T P C K to_rfc3339 now path p) IfDownloaded Any
  done_lem p =
      Ensures-bind _ _ (commit_lem T P (settled p) now path PendingOpKind.download)
        (λ _. Ensures-pure _ (λ w h. h))

  stage_lem :
      (s : PendingOpStage)
      → Ensures AreMaps (journal_stage T P now path PendingOpKind.download s) (λ _. AreMaps) Any
  stage_lem s = Keeps-stage T P maps now path PendingOpKind.download s

  download_binary_lem :
      (remote_id : Text)
      → Ensures AreMaps
          (download_binary T P C K to_rfc3339 now path remote_id (some r))
          IfDownloaded
          Any
  unfolding download_binary
  download_binary_lem remote_id = Ensures-then _ _ (stage_lem side_effect_started) (λ _.
      Ensures-then _ _ (Keeps-fetch (C.download_file remote_id path)) (λ _.
        Ensures-then _ _ (stage_lem side_effect_done) (λ _.
          Ensures-bind _ _ (record_local_lem path) (λ md5.
            Ensures-bind _ _ (remove_conversion_lem path md5) (λ _.
              Ensures-then _ _ (Keeps-remove_session (settled path) path) (λ _. done_lem path))))))

  exported_lem :
      (p : RelativePath) (remote_id : Text)
      → Ensures AreMaps (exported T P C K to_rfc3339 now path p remote_id r) IfDownloaded Any
  exported_lem p remote_id = Ensures-bind _ _ (record_local_lem p) (λ md5.
      Ensures-bind _ _ (upsert_conversion_lem p md5 _ refl) (λ _.
        Ensures-then _ _ (Keeps-remove_session (settled p) p)
          (λ _. Ensures-then _ _ (forget_original_lem p) (λ _. done_lem p))))

  download_export_lem :
      (remote_id : Text)
      → Ensures AreMaps (download_export T P C K to_rfc3339 now path remote_id r) IfDownloaded Any
  unfolding download_export
  download_export_lem remote_id = Ensures-then _ _ (Keeps-lift maps _) (λ fmt.
      Ensures-then _ _ (Keeps-lift maps _) (λ _. Ensures-then _ _ (Keeps-on_disk _) (λ _.
        Ensures-then _ _ (stage_lem side_effect_started) (λ _.
          Ensures-then _ _
            (Keeps-fetch (
              C.export_file_with_fallback remote_id fmt.export_mime
                (converted_relative_path path fmt.extension)))
            (λ _.
              Ensures-then _ _ (stage_lem side_effect_done)
                (λ _. exported_lem (converted_relative_path path fmt.extension) remote_id))))))

  pub run_download_lem :
      (remote_id : Text)
      → text_eq r.mime_type folder ≡ false
      → Ensures AreMaps
          (run_download T P C K to_rfc3339 now path remote_id (some r))
          IfDownloaded
          Any
  unfolding run_download
  run_download_lem remote_id file = Ensures-then _ _ (Keeps-lift maps _) (λ _.
      Ensures-then _ _ (Keeps-on_disk _) (λ _. Ensures-then _ _ (stage_lem planned) (λ _.
        Ensures-if (text_eq r.mime_type folder) _ _ (λ e. absurd (ground (arith, e, file)))
          (λ _.
            Ensures-if (is_google_workspace r.mime_type) _ _ (λ _. download_export_lem remote_id)
              (λ _. download_binary_lem remote_id)))))

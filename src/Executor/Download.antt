-- ===== src/Executor/Download.antt =====
-- `run_download` of src/sync/executor.rs, with the local name of an exported file.
use oxidrive.Base.{not, Option, none, some, ◌++◌, ◌∷◌, if◌then◌else◌, Result, ok, err}
use oxidrive.Text.{Text, text_eq, rsplit_once}
use oxidrive.Types.{
  Timestamp, PendingOp, PendingOpKind, PendingOpStage, planned, side_effect_started,
  side_effect_done, metadata_committed,
}
use oxidrive.Types.Path.{RelativePath, from_text, normalize_relative}
use oxidrive.Drive.{DriveFile, folder}
use oxidrive.Drive.Names.{
  ExportFormat, with_export_extension, export_format_sync, is_google_workspace,
}
use oxidrive.Store.Table.{Table, Codec}
use oxidrive.Store.Session.{
  Store, remove_record, remove_conversion, remove_upload_session, upsert_conversion,
}
use oxidrive.Executor.Effects.{
  ExecError, no_export_format, World, Exec, Client, Disk, pure, lift, on_disk, on_store, fetch,
  journal_stage, resolve_local_path, ◌>>=◌,
}
use oxidrive.Executor.Upload.{Outcome, downloaded, record_local}

abbrev renamed : RelativePath → Text → Option (Text × Text) → RelativePath
renamed path extension none = from_text (with_export_extension path extension)
renamed path extension (some (d, f)) = from_text (d ++ b'/' ∷ with_export_extension f extension)

unfoldable pub converted_relative_path : RelativePath → Text → RelativePath
unfolding with_export_extension rsplit_once normalize_relative
converted_relative_path path extension = renamed path extension (rsplit_once b'/' path)

abbrev pub format_of : Text → Option ExportFormat → Result ExecError ExportFormat
format_of mime none = err (no_export_format mime)
format_of mime (some fmt) = ok fmt

module _ (T : Table) (P : Codec PendingOp) {D F : Type 0} (C : Client D F) (K : Disk F)
    (to_rfc3339 : Timestamp → Text) (now : Timestamp) (path : RelativePath) where
  abbrev Action : Type 0 → Type 0
  Action A = Exec (World T.State D F) A

  abbrev pub stage : PendingOpStage → Action Unit
  stage s = journal_stage T P now path PendingOpKind.download s

  abbrev pub done : RelativePath → Action Outcome
  done p = do _ ← stage metadata_committed; pure (downloaded p)

  unfoldable pub download_folder : Action Outcome
  unfolding journal_stage
  download_folder = do
    _ ← stage side_effect_started
    _ ← on_disk (K.create_dir_all path)
    _ ← stage side_effect_done
    done path

  -- `let _ = store.remove(&path)` and so on.
  unfoldable pub forget_original : RelativePath → Store → Store
  unfolding remove_record remove_conversion remove_upload_session
  forget_original local_path s =
      if not (text_eq local_path path)
      then remove_upload_session path (remove_conversion path (remove_record path s))
      else s

  abbrev pub exported : RelativePath → Text → DriveFile → Action Outcome
  exported local_path remote_id r = do
    export_md5 ← record_local C K to_rfc3339 now local_path (some r) none none
    _ ← on_store (
        upsert_conversion local_path (record {
          drive_file_id = remote_id;
          google_mime = r.mime_type;
          last_export_md5 = some export_md5;
        }))
    _ ← on_store (remove_upload_session local_path)
    _ ← on_store (forget_original local_path)
    done local_path

  unfoldable pub download_export : Text → DriveFile → Action Outcome
  unfolding converted_relative_path export_format_sync resolve_local_path journal_stage record_local
      upsert_conversion remove_upload_session forget_original
  download_export remote_id r = do
    fmt ← lift (format_of r.mime_type (export_format_sync r.mime_type))
    let local_path = converted_relative_path path fmt.extension
    _ ← lift (resolve_local_path local_path)
    _ ← on_disk (K.create_parent_dirs local_path)
    _ ← stage side_effect_started
    _ ← fetch (C.export_file_with_fallback remote_id fmt.export_mime local_path)
    _ ← stage side_effect_done
    exported local_path remote_id r

  unfoldable pub download_binary : Text → Option DriveFile → Action Outcome
  unfolding journal_stage record_local remove_conversion remove_upload_session
  download_binary remote_id remote_meta = do
    _ ← stage side_effect_started
    _ ← fetch (C.download_file remote_id path)
    _ ← stage side_effect_done
    _ ← record_local C K to_rfc3339 now path remote_meta none none
    _ ← on_store (remove_conversion path)
    _ ← on_store (remove_upload_session path)
    done path

  abbrev pub download_as : Text → Option DriveFile → Action Outcome
  download_as remote_id none = download_binary remote_id none
  download_as remote_id (some r) =
      if text_eq r.mime_type folder
      then download_folder
      else if is_google_workspace r.mime_type
      then download_export remote_id r
      else download_binary remote_id (some r)

  unfoldable pub run_download : Text → Option DriveFile → Action Outcome
  unfolding resolve_local_path journal_stage download_folder download_export download_binary
      is_google_workspace
  run_download remote_id remote_meta = do
    _ ← lift (resolve_local_path path)
    _ ← on_disk (K.create_parent_dirs path)
    _ ← stage planned
    download_as remote_id remote_meta

-- ===== src/Executor/RunUpload.antt =====
-- The body of `run_upload` of src/sync/executor.rs.
use oxidrive.Base.{ℕ, Bool, true, false, Option, none, some, if◌then◌else◌}
use oxidrive.Text.{Text, is_empty}
use oxidrive.Types.{
  Timestamp, PendingOp, PendingOpKind, PendingOpStage, planned, side_effect_started,
  side_effect_done, metadata_committed, UploadSessionMode, WorkspaceConversion,
}
use oxidrive.Types.Path.{RelativePath}
use oxidrive.Drive.{DriveFile}
use oxidrive.Drive.Upload.{ResumableUploadState}
use oxidrive.Scan.{is_stable}
use oxidrive.Store.Table.{Table, Codec}
use oxidrive.Store.Session.{
  get, get_conversion, parent_drive_id, remove_conversion, remove_upload_session, upsert_conversion,
}
use oxidrive.Executor.ForeignLease.{skip_upload_for_active_foreign_lease}
use oxidrive.Executor.Guard.{revision_guard_from_record}
use oxidrive.Executor.Guarded.{
  GuardedUpdate, updated, revision_mismatch, preflight_revision_mismatch,
  update_file_with_resume_guarded, resume_media,
}
use oxidrive.Executor.Effects.{
  World, Exec, Client, Disk, Metadata, pure, lift, gets, ask, read_disk, on_store, of_store, send,
  journal_stage, clear_pending_op, resolve_local_path, ◌>>=◌,
}
use oxidrive.Executor.Upload.{
  Outcome, uploaded, mismatch, skipped, Candidate, split_name, root_id, parent_id_of, with_baseline,
  has_open_lock, next_app_properties, record_local, resume_state,
}

module _ (T : Table) (P : Codec PendingOp) {D F : Type 0} (C : Client D F) (K : Disk F)
    (to_rfc3339 : Timestamp → Text) (parse_from_rfc3339 : Text → Option Timestamp)
    (device_id : Text) (now : Timestamp) (path : RelativePath) where
  abbrev pub Action : Type 0 → Type 0
  Action A = Exec (World T.State D F) A

  abbrev pub stage : PendingOpStage → Action Unit
  stage s = journal_stage T P now path PendingOpKind.upload s

  abbrev pub save_conversion : Option WorkspaceConversion → Text → Action Unit
  save_conversion none local_md5 = pure tt
  save_conversion (some c) local_md5 = on_store (upsert_conversion path (with_baseline c local_md5))

  -- The media of an existing Drive file.
  abbrev pub convert_media :
      Candidate
      → Text
      → WorkspaceConversion
      → UploadSessionMode
      → Option ResumableUploadState
      → Action GuardedUpdate
  convert_media f id c mode resume = do
    _ ←
        send path mode f.local_md5 now
          (C.upload_with_conversion_with_resume path id c.google_mime resume)
    fresh ← ask (C.get_file_metadata id)
    pure (updated fresh)

  abbrev pub unless_changed : Option DriveFile → Action GuardedUpdate → Action GuardedUpdate
  unless_changed none m w = m w
  unless_changed (some remote) m w = pure (revision_mismatch remote) w

  unfoldable pub existing_media :
      Bool
      → Candidate
      → Text
      → UploadSessionMode
      → Option ResumableUploadState
      → Option WorkspaceConversion
      → Action GuardedUpdate
  unfolding revision_guard_from_record preflight_revision_mismatch update_file_with_resume_guarded
  existing_media true f id mode resume (some c) = do
    changed ←
        preflight_revision_mismatch C K to_rfc3339 path id
          (revision_guard_from_record f.existing_record)
    unless_changed changed (convert_media f id c mode resume)
  existing_media false f id mode resume (some c) = convert_media f id c mode resume
  existing_media true f id mode resume none =
      update_file_with_resume_guarded C K to_rfc3339 path mode f.local_md5 now id
        (revision_guard_from_record f.existing_record) resume
  existing_media false f id mode resume none =
      resume_media C K to_rfc3339 path mode f.local_md5 now id resume

  abbrev pub existing_mode : Text → Option WorkspaceConversion → UploadSessionMode
  existing_mode id none = UploadSessionMode.update id
  existing_mode id (some c) = UploadSessionMode.convert id c.google_mime

  abbrev pub committed : Action Outcome
  committed = do _ ← stage metadata_committed; pure (uploaded path)

  -- The writes behind the media of an existing file, or the early return.
  unfoldable pub finish_existing : Candidate → Text → GuardedUpdate → Action Outcome
  unfolding journal_stage record_local upsert_conversion remove_upload_session clear_pending_op
  finish_existing f id (updated _) = do
    _ ← stage side_effect_done
    refreshed ← ask (C.update_app_properties id f.app_properties)
    _ ← record_local C K to_rfc3339 now path (some refreshed) (some f.local_md5) (some f.local_size)
    _ ← save_conversion f.conversion f.local_md5
    _ ← on_store (remove_upload_session path)
    committed
  finish_existing f id (revision_mismatch remote) = do
    _ ← clear_pending_op T P path
    pure (mismatch path id remote)

  unfoldable pub upload_existing : Bool → Candidate → Text → Action Outcome
  unfolding existing_media finish_existing journal_stage resume_state
  upload_existing enforce f id = do
    let mode = existing_mode id f.conversion
    resume ← resume_state C K to_rfc3339 now path mode f.local_md5 f.local_size
    _ ← stage side_effect_started
    done ← existing_media enforce f id mode resume f.conversion
    finish_existing f id done

  abbrev pub forget_or_save : Option WorkspaceConversion → Text → Action Unit
  forget_or_save none local_md5 = on_store (remove_conversion path)
  forget_or_save (some c) local_md5 = on_store (upsert_conversion path (with_baseline c local_md5))

  -- The id of the Drive file that holds the content: one that is there already, or a new one.
  unfoldable pub new_id : Candidate → Option Text → Action Text
  unfolding journal_stage resume_state remove_upload_session
  new_id f (some existing_id) = do _ ← on_store (remove_upload_session path); pure existing_id
  new_id f none = do
    let name = (split_name path).1
    let mode = UploadSessionMode.create f.parent_id name
    resume ← resume_state C K to_rfc3339 now path mode f.local_md5 f.local_size
    _ ← stage side_effect_started
    id ←
        send path mode f.local_md5 now
          (C.upload_file_with_resume path f.parent_id name f.app_properties resume)
    _ ← stage side_effect_done
    pure id

  unfoldable pub upload_new : Candidate → Action Outcome
  unfolding new_id record_local remove_conversion upsert_conversion remove_upload_session
      journal_stage
  upload_new f = do
    identical ← ask (C.find_remote_file_id_by_content (split_name path).1 f.parent_id f.local_md5)
    id ← new_id f identical
    remote ← ask (C.get_file_metadata id)
    _ ← record_local C K to_rfc3339 now path (some remote) (some f.local_md5) (some f.local_size)
    _ ← forget_or_save f.conversion f.local_md5
    _ ← on_store (remove_upload_session path)
    committed

  abbrev pub nonempty_id : Option Text → Option Text
  nonempty_id none = none
  nonempty_id (some id) = if is_empty id then none else some id

  abbrev pub transfer : Bool → Option Text → Candidate → Action Outcome
  transfer enforce none f = upload_new f
  transfer enforce (some id) f = upload_existing enforce f id

  -- The Drive file whose lease counts.
  abbrev pub lease_remote : Option DriveFile → Option Text → Action (Option DriveFile)
  lease_remote (some remote) id = pure (some remote)
  lease_remote none none = pure none
  lease_remote none (some id) = do remote ← ask (C.get_file_metadata id); pure (some remote)

  abbrev pub foreign_lease : Option DriveFile → Bool
  foreign_lease none = false
  foreign_lease (some remote) =
      skip_upload_for_active_foreign_lease parse_from_rfc3339 remote device_id now

  unfoldable pub leased_elsewhere : Bool → Option DriveFile → Option Text → Action Bool
  unfolding skip_upload_for_active_foreign_lease
  leased_elsewhere false listing_row id = pure false
  leased_elsewhere true listing_row id = do
    remote ← lease_remote listing_row id
    pure (foreign_lease remote)

  -- The part behind the checks for a lock, a lease and a file still being written.
  unfoldable pub upload_stable : Bool → Option Text → Option DriveFile → Metadata → Action Outcome
  unfolding parent_drive_id get get_conversion next_app_properties journal_stage upload_new
      upload_existing
  upload_stable enforce remote_id listing_row meta = do
    set_root ← of_store (λ s. s.root_drive_folder_id)
    root_folder_id ← lift (root_id set_root)
    parent ← of_store (parent_drive_id path root_folder_id)
    parent_id ← lift (parent_id_of parent)
    conversion ← of_store (get_conversion path)
    local_md5 ← read_disk (K.compute_md5 path)
    existing_record ← of_store (get path)
    _ ← stage planned
    transfer enforce (nonempty_id remote_id) (record {
      parent_id = parent_id;
      conversion = conversion;
      local_size = meta.len;
      local_md5 = local_md5;
      existing_record = existing_record;
      app_properties = next_app_properties device_id existing_record listing_row;
    })

  unfoldable pub upload_unlocked : ℕ → Bool → Bool → Option Text → Option DriveFile → Action Outcome
  unfolding leased_elsewhere upload_stable is_stable
  upload_unlocked stability_ms enforce use_leases remote_id listing_row = do
    leased ← leased_elsewhere use_leases listing_row (nonempty_id remote_id)
    if leased then pure skipped else do
      meta ← read_disk (K.metadata path)
      if is_stable meta.modified now stability_ms
          then upload_stable enforce remote_id listing_row meta
          else pure skipped

  unfoldable pub run_upload : ℕ → Bool → Bool → Option Text → Option DriveFile → Action Outcome
  unfolding resolve_local_path has_open_lock upload_unlocked
  run_upload stability_ms enforce use_leases remote_id listing_row = do
    _ ← lift (resolve_local_path path)
    locked ← gets (λ w. has_open_lock K path w.disk)
    if locked
        then pure skipped
        else upload_unlocked stability_ms enforce use_leases remote_id listing_row

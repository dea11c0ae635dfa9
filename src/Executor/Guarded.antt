-- ===== src/Executor/Guarded.antt =====
-- The guarded uploads of src/drive/upload.rs: the Drive file is looked at before it is written.
use oxidrive.Base.{ℕ, Bool, true, false, not, ◌&&◌, Option, none, some, leb, if◌then◌else◌}
use oxidrive.Base.Int.{ℤ}
use oxidrive.Text.{Text}
use oxidrive.Types.{Timestamp, UploadSessionMode}
use oxidrive.Types.Path.{RelativePath}
use oxidrive.Drive.{DriveFile}
use oxidrive.Drive.Upload.{ResumableUploadState}
use oxidrive.Executor.Guard.{RevisionGuard, revision_guard_matches}
use oxidrive.Executor.Effects.{World, Exec, Client, Disk, pure, ask, read_disk, send, ◌>>=◌}

abbrev pub resumable_upload_threshold_bytes : ℕ
resumable_upload_threshold_bytes = 33_554_432

pub data GuardedUpdate : Type 0 where
  updated : DriveFile → GuardedUpdate
  revision_mismatch : DriveFile → GuardedUpdate

abbrev pub from_expected : Option Text → Option ℤ → RevisionGuard
from_expected expected_head_revision_id expected_version = record {
  head_revision_id = expected_head_revision_id;
  version = expected_version;
  remote_fingerprint = none;
  modified_time = none;
}

abbrev pub is_none : {A : Type 0} → Option A → Bool
is_none none = true
is_none (some a) = false

module _ {S D F : Type 0} (C : Client D F) (K : Disk F) (to_rfc3339 : Timestamp → Text)
    (path : RelativePath) where
  abbrev pub replace_media : Text → Exec (World S D F) GuardedUpdate
  replace_media drive_id = do
    _ ← (λ w. ask (C.update_file_media path drive_id w.disk) w)
    fresh ← ask (C.get_file_metadata drive_id)
    pure (updated fresh)

  unfoldable pub update_file_media_guarded :
      Text → Option Text → Option ℤ → Exec (World S D F) GuardedUpdate
  unfolding revision_guard_matches
  update_file_media_guarded drive_id head version = do
    current ← ask (C.get_file_metadata_preflight drive_id)
    if not (revision_guard_matches to_rfc3339 current (from_expected head version))
        then pure (revision_mismatch current)
        else replace_media drive_id

  unfoldable pub preflight_revision_mismatch :
      Text → RevisionGuard → Exec (World S D F) (Option DriveFile)
  unfolding revision_guard_matches
  preflight_revision_mismatch drive_id expected = do
    current ← ask (C.get_file_metadata_preflight drive_id)
    pure (if revision_guard_matches to_rfc3339 current expected then none else some current)

  abbrev pub resume_media :
      UploadSessionMode
      → Text
      → Timestamp
      → Text
      → Option ResumableUploadState
      → Exec (World S D F) GuardedUpdate
  resume_media mode local_md5 now drive_id resume_state = do
    _ ← send path mode local_md5 now (C.update_file_with_resume path drive_id resume_state)
    fresh ← ask (C.get_file_metadata drive_id)
    pure (updated fresh)

  abbrev pub resume_guarded :
      UploadSessionMode
      → Text
      → Timestamp
      → Text
      → RevisionGuard
      → Option ResumableUploadState
      → Exec (World S D F) GuardedUpdate
  resume_guarded mode local_md5 now drive_id expected resume_state = do
    current ← ask (C.get_file_metadata_preflight drive_id)
    if not (revision_guard_matches to_rfc3339 current expected)
        then pure (revision_mismatch current)
        else resume_media mode local_md5 now drive_id resume_state

  -- The callback of the transfer keeps the upload session of the path.
  unfoldable pub update_file_with_resume_guarded :
      UploadSessionMode
      → Text
      → Timestamp
      → Text
      → RevisionGuard
      → Option ResumableUploadState
      → Exec (World S D F) GuardedUpdate
  unfolding revision_guard_matches update_file_media_guarded
  update_file_with_resume_guarded mode local_md5 now drive_id expected resume_state = do
    meta ← read_disk (K.metadata path)
    if leb meta.len resumable_upload_threshold_bytes
          && is_none expected.remote_fingerprint
          && is_none expected.modified_time
        then update_file_media_guarded drive_id expected.head_revision_id expected.version
        else resume_guarded mode local_md5 now drive_id expected resume_state

-- ===== src/Executor/Upload.antt =====
-- `run_upload` of src/sync/executor.rs: the checks before an upload, the two kinds of it, and what
-- it writes to the session, the journal and Drive.
use oxidrive.Base.{
  ℕ, Bool, true, false, not, Option, none, some, [], ◌++◌, ◌∷◌, ltb, if◌then◌else◌, Result, ok, err,
}
use oxidrive.Text.{Text, text, rsplit_once}
use oxidrive.TextMap.{TextMap}
use oxidrive.Types.{Timestamp, SyncRecord, UploadSession, UploadSessionMode, WorkspaceConversion}
use oxidrive.Types.Path.{RelativePath, is_safe_non_empty}
use oxidrive.Coordination.{
  VersionVector, from_map, from_app_properties, merge, increment, write_into_app_properties,
}
use oxidrive.Drive.{DriveFile}
use oxidrive.Drive.Upload.{ResumableUploadState}
use oxidrive.Store.Session.{ParentResult, found, failed, get_upload_session, remove_upload_session}
use oxidrive.Store.Resume.{session_is_valid}
use oxidrive.Executor.Records.{upsert_local_record}
use oxidrive.Executor.Guarded.{resumable_upload_threshold_bytes}
use oxidrive.Executor.Effects.{
  ExecError, no_root_folder, no_parent, World, Exec, Client, Disk, pure, read_disk, on_store,
  of_store, ◌>>=◌,
}

pub data Outcome : Type 0 where
  uploaded : RelativePath → Outcome
  downloaded : RelativePath → Outcome
  deleted_remote : RelativePath → Outcome
  mismatch : RelativePath → (remote_id : Text) → DriveFile → Outcome
  skipped : Outcome

-- The directory with its separator, and the file name.
abbrev pub split_name : RelativePath → Text × Text
split_name path = elim (rsplit_once b'/' path) [
  | none ↦ ([], path)
  | some (parent, name) ↦ (parent ++ b'/' ∷ [], name)
]

module _ {F : Type 0} (K : Disk F) where
  abbrev has_lock_beside : Text × Text → F → Bool
  has_lock_beside (parent, name) f =
      if K.exists_file (parent ++ text "~$" ++ name) f
      then true
      else K.exists_file (parent ++ text ".~lock." ++ name ++ text "#") f

  unfoldable pub has_open_lock : RelativePath → F → Bool
  unfolding rsplit_once
  has_open_lock path f =
      if not (is_safe_non_empty path) then false else has_lock_beside (split_name path) f

abbrev pub root_id : Option Text → Result ExecError Text
root_id none = err no_root_folder
root_id (some id) = ok id

abbrev pub parent_id_of : ParentResult → Result ExecError Text
parent_id_of (found id) = ok id
parent_id_of (failed e) = err (no_parent e)

abbrev stored_vector : Option SyncRecord → VersionVector
stored_vector none = record { entries = [] }
stored_vector (some r) = from_map r.version_vector

abbrev listed_vector : Option DriveFile → VersionVector
listed_vector none = record { entries = [] }
listed_vector (some r) = from_app_properties r.app_properties

abbrev listed_properties : Option DriveFile → TextMap Text
listed_properties none = []
listed_properties (some r) = r.app_properties

-- The properties that an upload publishes.
unfoldable pub next_app_properties : Text → Option SyncRecord → Option DriveFile → TextMap Text
unfolding merge increment write_into_app_properties from_app_properties
next_app_properties device_id existing_record listing_row =
    write_into_app_properties
      (increment device_id (merge (stored_vector existing_record) (listed_vector listing_row)))
      (listed_properties listing_row) device_id

abbrev pub with_baseline : WorkspaceConversion → Text → WorkspaceConversion
with_baseline c local_md5 = record c { last_export_md5 = some local_md5 }

abbrev pub size_or : Option ℕ → ℕ → ℕ
size_or none len = len
size_or (some size) len = size

-- What the first part of the function found out about the file.
pub record Candidate : Type 0 where
  pub parent_id : Text
  pub conversion : Option WorkspaceConversion
  pub local_size : ℕ
  pub local_md5 : Text
  pub existing_record : Option SyncRecord
  pub app_properties : TextMap Text

module _ {S D F : Type 0} (C : Client D F) (K : Disk F) (to_rfc3339 : Timestamp → Text)
    (now : Timestamp) where
  abbrev pub known_or : Option Text → Exec (World S D F) Text → Exec (World S D F) Text
  known_or none compute w = compute w
  known_or (some md5) compute w = (ok md5, w)

  unfoldable pub record_local :
      RelativePath → Option DriveFile → Option Text → Option ℕ → Exec (World S D F) Text
  unfolding upsert_local_record
  record_local path remote known_md5 known_size = do
    md5 ← known_or known_md5 (read_disk (K.compute_md5 path))
    meta ← read_disk (K.metadata path)
    _ ← on_store (
        upsert_local_record to_rfc3339 path md5 meta.modified (size_or known_size meta.len) now
          remote)
    pure md5

  abbrev pub no_session : RelativePath → Exec (World S D F) (Option ResumableUploadState)
  no_session path = do _ ← on_store (remove_upload_session path); pure none

  abbrev pub picked :
      RelativePath
      → UploadSessionMode
      → Text
      → ℕ
      → Option UploadSession
      → Exec (World S D F) (Option ResumableUploadState)
  picked path mode local_md5 local_size none = pure none
  picked path mode local_md5 local_size (some u) =
      if session_is_valid u mode local_md5 local_size now
      then pure (
          some (record {
            session_url = u.session_url;
            next_offset = u.next_offset;
            file_size = u.file_size;
          }))
      else no_session path

  abbrev pub stored_session :
      RelativePath → UploadSessionMode → Text → ℕ → Exec (World S D F) (Option ResumableUploadState)
  stored_session path mode local_md5 local_size = do
    session ← of_store (get_upload_session path)
    picked path mode local_md5 local_size session

  unfoldable pub resume_state :
      RelativePath → UploadSessionMode → Text → ℕ → Exec (World S D F) (Option ResumableUploadState)
  unfolding session_is_valid get_upload_session remove_upload_session
  resume_state path mode local_md5 local_size =
      if ltb resumable_upload_threshold_bytes local_size
      then stored_session path mode local_md5 local_size
      else no_session path

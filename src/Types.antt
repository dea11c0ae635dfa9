-- ===== src/Types.antt =====
-- src/types.rs: the values shared by the store, the decisions and the executor. Instants
-- (`DateTime<Utc>`) are numbers of nanoseconds, which is what chrono compares them by.
pub mod Path
pub mod PathSafety
use oxidrive.Base.{ℕ, Bool, Option, List}
use oxidrive.Base.Int.{ℤ}
use oxidrive.Text.{Text}
use oxidrive.TextMap.{TextMap}
pub use Path.{RelativePath}

abbrev pub Timestamp : Type 0
Timestamp = ℕ

pub record LocalFile : Type 0 where
  pub path : RelativePath
  pub md5 : Text
  pub mtime : Timestamp
  pub size : ℕ

pub record SyncRecord : Type 0 where
  pub drive_file_id : Option Text
  pub remote_md5 : Option Text
  pub remote_mime_type : Option Text
  pub remote_modified_at : Option Timestamp
  pub local_md5 : Text
  pub local_mtime : Timestamp
  pub local_size : ℕ
  pub last_synced_at : Timestamp
  pub remote_head_revision_id : Option Text
  pub remote_version : Option ℤ
  pub version_vector : TextMap ℕ

pub record Tombstone : Type 0 where
  pub drive_file_id : Option Text
  pub deleted_at : Timestamp
  pub by_device : Text
  pub confirmations : ℕ

pub record Lease : Type 0 where
  pub drive_file_id : Text
  pub owner_device : Text
  pub expires_at : Timestamp

pub record WorkspaceConversion : Type 0 where
  pub drive_file_id : Text
  pub google_mime : Text
  pub last_export_md5 : Option Text

pub data UploadSessionMode : Type 0 where
  create : (parent_id name : Text) → UploadSessionMode
  update : (drive_id : Text) → UploadSessionMode
  convert : (drive_id google_mime : Text) → UploadSessionMode

pub record UploadSession : Type 0 where
  pub mode : UploadSessionMode
  pub session_url : Text
  pub next_offset : ℕ
  pub file_size : ℕ
  pub local_md5 : Text
  pub updated_at : Timestamp

pub data PendingOpKind : Type 0 where
  upload download delete_local delete_remote : PendingOpKind

pub data PendingOpStage : Type 0 where
  planned side_effect_started side_effect_done metadata_committed : PendingOpStage

pub record PendingOp : Type 0 where
  pub kind : PendingOpKind
  pub stage : PendingOpStage
  pub updated_at : Timestamp

pub data ConflictResolution : Type 0 where
  local_wins : ConflictResolution
  remote_wins : ConflictResolution
  rename : (suffix : Text) → ConflictResolution
  conflict_copy : (suffix : Text) → ConflictResolution

pub data SyncAction : Type 0 where
  skip : RelativePath → SyncAction
  upload : RelativePath → (remote_id : Option Text) → SyncAction
  download : RelativePath → (remote_id : Text) → SyncAction
  delete_local : RelativePath → SyncAction
  delete_remote : RelativePath → (remote_id : Text) → SyncAction
  conflict :
      RelativePath
      → (remote_id : Option Text) → (local_md5 : Option Text) → ConflictResolution
      → SyncAction
  cleanup_metadata : RelativePath → SyncAction
  touch_metadata : RelativePath → SyncAction

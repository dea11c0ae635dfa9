-- ===== src/Executor/Records.antt =====
-- `upsert_local_record` of src/sync/executor.rs, and that a file just synced needs no action.
use oxidrive.Base.{ℕ, ◌≡◌, ◌⊎◌, Bool, false, Option, none, some, List, [], arith}
use oxidrive.Text.{Text}
use oxidrive.Text.Order.{text_cmp_refl}
use oxidrive.TextMap.{TextMap}
use oxidrive.Types.{Timestamp, LocalFile, SyncRecord, SyncAction}
use oxidrive.Types.Path.{RelativePath}
use oxidrive.Drive.{DriveFile, remote_content_fingerprint}
use oxidrive.Coordination.{from_app_properties}
use oxidrive.Store.Session.{Store, put_record}
use oxidrive.Decision.{
  remote_changed, resolve_dual_content_change, conflict_action, upload_action, ConflictPolicy,
  determine_action_converted_with_remote_ids,
}
use oxidrive.Decision.Safety.{decide}

abbrev pub from_remote {ℓ} : {A : Type ℓ} → Option DriveFile → (DriveFile → A) → Option A
from_remote none f = none
from_remote (some r) f = some (f r)

-- `remote.and_then(f)`
abbrev pub from_remote_field {ℓ} :
    {A : Type ℓ} → Option DriveFile → (DriveFile → Option A) → Option A
from_remote_field none f = none
from_remote_field (some r) f = f r

abbrev pub vector_of : Option DriveFile → TextMap ℕ
vector_of none = []
vector_of (some r) = (from_app_properties r.app_properties).entries

module _ (to_rfc3339 : Timestamp → Text) where
  -- The record of a file with this checksum, time and size, and this Drive file.
  unfoldable pub synced_record : Text → Timestamp → ℕ → Timestamp → Option DriveFile → SyncRecord
  synced_record md5 mtime size now remote = record {
    drive_file_id = from_remote remote (λ r. r.id);
    remote_md5 = from_remote remote (remote_content_fingerprint to_rfc3339);
    remote_mime_type = from_remote remote (λ r. r.mime_type);
    remote_modified_at = from_remote remote (λ r. r.modified_time);
    local_md5 = md5;
    local_mtime = mtime;
    local_size = size;
    last_synced_at = now;
    remote_head_revision_id = from_remote_field remote (λ r. r.head_revision_id);
    remote_version = from_remote_field remote (λ r. r.version);
    version_vector = vector_of remote;
  }

  unfoldable pub upsert_local_record :
      RelativePath → Text → Timestamp → ℕ → Timestamp → Option DriveFile → Store → Store
  unfolding synced_record put_record
  upsert_local_record path md5 mtime size now remote store =
      put_record path (synced_record md5 mtime size now remote) store

  -- Once a file is recorded with the Drive file that it was synced with, the next decision for the
  -- same two files is to skip, also for a converted file whose export baseline is its checksum.
  pub synced_is_quiet :
      (stamp : Text) (path : RelativePath) (policy : ConflictPolicy) (is_converted : Bool)
      (last : Option Text) (ids : List Text) (l : LocalFile) (r : DriveFile) (now : Timestamp)
      → (is_converted ≡ false) ⊎ ((last ≡ none) ⊎ (last ≡ some l.md5))
      → decide to_rfc3339 stamp path policy is_converted last ids
          (some l)
          (some r)
          (some (synced_record l.md5 l.mtime l.size now (some r)))
        ≡ SyncAction.skip path
  unfolding determine_action_converted_with_remote_ids synced_record
  synced_is_quiet stamp path policy is_converted last ids l r now h =
      ground (arith, text_cmp_refl l.md5, text_cmp_refl (remote_content_fingerprint to_rfc3339 r))

-- The record that `run_touch_metadata` writes for a path's record and the file as it is.
unfoldable pub touched_record : SyncRecord → Text → Timestamp → ℕ → Timestamp → SyncRecord
touched_record existing local_md5 mtime local_size now = record existing {
  local_md5 = local_md5;
  local_mtime = mtime;
  local_size = local_size;
  last_synced_at = now;
}

module _ (to_rfc3339 : Timestamp → Text) where
  -- If the decision for a plain file with a record is to touch the record, then for the same two
  -- files and the touched record it is to skip: the touch is not repeated.
  pub touched_is_quiet :
      (stamp : Text) (path : RelativePath) (policy : ConflictPolicy) (ids : List Text)
      (l : LocalFile) (r : DriveFile) (m : SyncRecord) (now : Timestamp)
      → decide to_rfc3339 stamp path policy false none ids (some l) (some r) (some m)
        ≡ SyncAction.touch_metadata path
      → decide to_rfc3339 stamp path policy false none ids
          (some l)
          (some r)
          (some (touched_record m l.md5 l.mtime l.size now))
        ≡ SyncAction.skip path
  unfolding determine_action_converted_with_remote_ids touched_record resolve_dual_content_change
      conflict_action upload_action
  touched_is_quiet stamp path policy ids l r m now h =
      let same : remote_changed to_rfc3339 r m ≡ false = ground (arith, h) in
      ground (arith, same, text_cmp_refl l.md5)

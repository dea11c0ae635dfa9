-- ===== src/Decision.antt =====
-- src/sync/decision.rs: the next action for a path, from its local file, its Drive file and the record
-- of the last sync. `stamp` is the text of the current time, which chrono formats; `to_rfc3339` is
-- chrono's too. A set of ids is a list.
pub mod Safety
pub mod Causality
pub mod Edited
use oxidrive.Base.{
  ℕ, Bool, true, false, not, ◌&&◌, ◌||◌, Option, none, some, List, [], ◌∷◌, ◌++◌, ◌==◌,
  if◌then◌else◌,
}
use oxidrive.Text.{Text, text, text_eq, is_empty}
use oxidrive.Types.{Timestamp, LocalFile, SyncRecord, SyncAction, ConflictResolution}
use oxidrive.Types.Path.{RelativePath}
use oxidrive.Drive.{DriveFile, remote_content_fingerprint}
use oxidrive.Coordination.{
  Ordering3, equal, dominates, dominated_by, concurrent, VersionVector, from_app_properties,
  from_map, no_entries, dominance,
}

-- `ConflictPolicy` of src/config.rs.
pub data ConflictPolicy : Type 0 where
  conflict_copy : ConflictPolicy
  local_wins : ConflictPolicy
  remote_wins : ConflictPolicy
  rename : (suffix : Text) → ConflictPolicy

pub data LocalDelta : Type 0 where
  unchanged meta_only content : LocalDelta

-- `HashSet::contains`
unfoldable pub contains : List Text → Text → Bool
contains [] id = false
contains (x ∷ ids) id = text_eq x id || contains ids id

abbrev or_id : Option Text → Text → Text
or_id none id = id
or_id (some own) id = own

unfoldable pub local_delta : LocalFile → SyncRecord → LocalDelta
local_delta local meta =
    if not (text_eq local.md5 meta.local_md5)
    then content
    else if local.size == meta.local_size && local.mtime == meta.local_mtime
    then unchanged
    else meta_only

-- The checksum that a converted file is compared with.
abbrev pub converted_baseline : SyncRecord → Option Text → Text
converted_baseline meta none = meta.local_md5
converted_baseline meta (some last) = last

unfoldable pub local_delta_converted : LocalFile → SyncRecord → Option Text → LocalDelta
local_delta_converted local meta last_export_md5 =
    if not (text_eq local.md5 (converted_baseline meta last_export_md5))
    then content
    else if local.size == meta.local_size && local.mtime == meta.local_mtime
    then unchanged
    else meta_only

abbrev modified_differs : Option Timestamp → Timestamp → Bool
modified_differs none t = true
modified_differs (some s) t = not (s == t)

unfoldable pub drive_object_still_present : SyncRecord → List Text → Bool
unfolding contains
drive_object_still_present meta remote_file_ids = elim (meta.drive_file_id) [
  | some id ↦ contains remote_file_ids id
  | none ↦ false
]

-- `format!(".conflict.{ts}")` where the policy gives no suffix of its own.
unfoldable pub conflict_resolution_from_policy : Text → ConflictPolicy → ConflictResolution
conflict_resolution_from_policy stamp conflict_copy =
    ConflictResolution.conflict_copy (text ".conflict." ++ stamp)
conflict_resolution_from_policy stamp local_wins = ConflictResolution.local_wins
conflict_resolution_from_policy stamp remote_wins = ConflictResolution.remote_wins
conflict_resolution_from_policy stamp (rename suffix) =
    ConflictResolution.rename
      (if is_empty suffix then text ".conflict." ++ stamp else suffix ++ text "." ++ stamp)

abbrev pub upload_id : SyncRecord → DriveFile → Option Text
upload_id meta remote = some (or_id meta.drive_file_id remote.id)

unfoldable pub upload_action : RelativePath → DriveFile → SyncRecord → SyncAction
upload_action path remote meta = SyncAction.upload path (upload_id meta remote)

module _ (to_rfc3339 : Timestamp → Text) where
  unfoldable pub remote_changed : DriveFile → SyncRecord → Bool
  remote_changed remote meta = elim (meta.remote_md5) [
    | some stored ↦ not (text_eq stored (remote_content_fingerprint to_rfc3339 remote))
    | none ↦ modified_differs meta.remote_modified_at remote.modified_time
  ]

-- The arm for a local file whose Drive file is not at its path.
abbrev pub decide_remote_absent : RelativePath → SyncRecord → List Text → LocalDelta → SyncAction
decide_remote_absent path m remote_file_ids content =
    SyncAction.upload path
      (if drive_object_still_present m remote_file_ids then m.drive_file_id else none)
decide_remote_absent path m remote_file_ids _ =
    if drive_object_still_present m remote_file_ids
    then SyncAction.skip path
    else SyncAction.delete_local path

module _ (stamp : Text) where
  unfoldable pub conflict_action :
      RelativePath → DriveFile → LocalFile → ConflictPolicy → SyncAction
  unfolding conflict_resolution_from_policy
  conflict_action path remote local policy =
      SyncAction.conflict path (some remote.id) (some local.md5)
        (conflict_resolution_from_policy stamp policy)

  abbrev by_dominance :
      RelativePath → LocalFile → DriveFile → SyncRecord → ConflictPolicy → Ordering3 → SyncAction
  by_dominance path local remote meta policy equal = upload_action path remote meta
  by_dominance path local remote meta policy dominated_by = upload_action path remote meta
  by_dominance path local remote meta policy dominates = conflict_action path remote local policy
  by_dominance path local remote meta policy concurrent = conflict_action path remote local policy

  unfoldable pub resolve_dual_content_change :
      RelativePath → LocalFile → DriveFile → SyncRecord → ConflictPolicy → SyncAction
  unfolding upload_action conflict_action dominance from_app_properties
  resolve_dual_content_change path local remote meta policy =
      let remote_vv = from_app_properties remote.app_properties in
      let stored_vv = from_map meta.version_vector in
      if no_entries remote_vv && no_entries stored_vv
      then conflict_action path remote local policy
      else by_dominance path local remote meta policy (dominance remote_vv stored_vv)

  -- The inner match on `(lc, rc)`, which both decision functions share.
  abbrev pub decide_all :
      RelativePath
      → LocalFile
      → DriveFile
      → SyncRecord
      → ConflictPolicy
      → LocalDelta
      → Bool
      → SyncAction
  decide_all path l r m policy unchanged false = SyncAction.skip path
  decide_all path l r m policy unchanged true = SyncAction.download path r.id
  decide_all path l r m policy meta_only false = SyncAction.touch_metadata path
  decide_all path l r m policy meta_only true = SyncAction.download path r.id
  decide_all path l r m policy content false = SyncAction.upload path (upload_id m r)
  decide_all path l r m policy content true = resolve_dual_content_change path l r m policy

  -- The arm for a file on both sides that was never synced.
  abbrev pub decide_unsynced : RelativePath → LocalFile → DriveFile → ConflictPolicy → SyncAction
  decide_unsynced path l r policy = elim (r.md5_checksum) [
    | some rm ↦ if text_eq rm l.md5 then SyncAction.skip path else conflict_action path r l policy
    | none ↦ conflict_action path r l policy
  ]

module _ (to_rfc3339 : Timestamp → Text) (stamp : Text) where
  abbrev pub decide_local_absent : RelativePath → DriveFile → SyncRecord → SyncAction
  decide_local_absent path r m =
      if remote_changed to_rfc3339 r m
      then SyncAction.download path r.id
      else SyncAction.delete_remote path (or_id m.drive_file_id r.id)

  unfoldable pub determine_action_with_remote_ids :
      RelativePath
      → Option LocalFile
      → Option DriveFile
      → Option SyncRecord
      → ConflictPolicy
      → List Text
      → SyncAction
  unfolding local_delta remote_changed drive_object_still_present resolve_dual_content_change
  determine_action_with_remote_ids path (some l) (some r) (some m) policy ids =
      decide_all stamp path l r m policy (local_delta l m) (remote_changed to_rfc3339 r m)
  determine_action_with_remote_ids path (some l) (some r) none policy ids =
      decide_unsynced stamp path l r policy
  determine_action_with_remote_ids path (some l) none (some m) policy ids =
      decide_remote_absent path m ids (local_delta l m)
  determine_action_with_remote_ids path (some l) none none policy ids = SyncAction.upload path none
  determine_action_with_remote_ids path none (some r) (some m) policy ids =
      decide_local_absent path r m
  determine_action_with_remote_ids path none (some r) none policy ids =
      SyncAction.download path r.id
  determine_action_with_remote_ids path none none (some m) policy ids =
      SyncAction.cleanup_metadata path
  determine_action_with_remote_ids path none none none policy ids = SyncAction.skip path

  abbrev pub determine_action :
      RelativePath
      → Option LocalFile
      → Option DriveFile
      → Option SyncRecord
      → ConflictPolicy
      → SyncAction
  determine_action path local remote metadata policy =
      determine_action_with_remote_ids path local remote metadata policy []

  -- The arms of a converted file.
  abbrev determine_converted :
      RelativePath
      → Option LocalFile
      → Option DriveFile
      → Option SyncRecord
      → ConflictPolicy
      → Option Text
      → List Text
      → SyncAction
  determine_converted path (some l) (some r) (some m) policy last ids =
      decide_all stamp path l r m policy (local_delta_converted l m last)
        (remote_changed to_rfc3339 r m)
  determine_converted path (some l) none (some m) policy last ids =
      decide_remote_absent path m ids (local_delta_converted l m last)
  determine_converted path local remote metadata policy last ids =
      determine_action_with_remote_ids path local remote metadata policy ids

  unfoldable pub determine_action_converted_with_remote_ids :
      RelativePath
      → Option LocalFile
      → Option DriveFile
      → Option SyncRecord
      → ConflictPolicy
      → Bool
      → Option Text
      → List Text
      → SyncAction
  unfolding determine_action_with_remote_ids local_delta_converted
  determine_action_converted_with_remote_ids path local remote metadata policy is_converted last
        ids =
      if not is_converted
      then determine_action_with_remote_ids path local remote metadata policy ids
      else determine_converted path local remote metadata policy last ids

  abbrev pub determine_action_converted :
      RelativePath
      → Option LocalFile
      → Option DriveFile
      → Option SyncRecord
      → ConflictPolicy
      → Bool
      → Option Text
      → SyncAction
  determine_action_converted path local remote metadata policy is_converted last =
      determine_action_converted_with_remote_ids path local remote metadata policy is_converted last
        []

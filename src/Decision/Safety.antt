-- ===== src/Decision/Safety.antt =====
-- When the decision deletes, overwrites or uploads: no side that changed since the last sync is lost.
use oxidrive.Base.{◌≡◌, ◌↔◌, Bool, true, false, Option, none, some, List, arith, if◌then◌else◌}
use oxidrive.Text.{Text}
use oxidrive.Text.Order.{text_eq_iff}
use oxidrive.Types.{Timestamp, LocalFile, SyncRecord, SyncAction}
use oxidrive.Types.Path.{RelativePath}
use oxidrive.Drive.{DriveFile}
use oxidrive.Decision.{
  ConflictPolicy, converted_baseline, drive_object_still_present, remote_changed, or_id,
  conflict_action, resolve_dual_content_change, determine_action_converted_with_remote_ids,
}

-- The checksum that the local content is held against: of the last export for a converted file.
abbrev pub baseline : Bool → Option Text → SyncRecord → Text
baseline is_converted last m = if is_converted then converted_baseline m last else m.local_md5

-- The path that an action names.
abbrev pub action_path : SyncAction → RelativePath
action_path (SyncAction.skip p) = p
action_path (SyncAction.upload p _) = p
action_path (SyncAction.download p _) = p
action_path (SyncAction.delete_local p) = p
action_path (SyncAction.delete_remote p _) = p
action_path (SyncAction.conflict p _ _ _) = p
action_path (SyncAction.cleanup_metadata p) = p
action_path (SyncAction.touch_metadata p) = p

-- The local content is the one of the last sync.
abbrev pub IsKept : Bool → Option Text → LocalFile → SyncRecord → Type 0
IsKept is_converted last l m = l.md5 ≡ baseline is_converted last m

-- A local file may go: its Drive file is absent from its path, it was synced before, its content is
-- that of the last sync, and its Drive object is nowhere in the listing.
abbrev pub MayDeleteLocal :
    Bool
    → Option Text
    → List Text
    → Option LocalFile
    → Option DriveFile
    → Option SyncRecord
    → Type 0
MayDeleteLocal is_converted last ids (some l) none (some m) =
    IsKept is_converted last l m × (drive_object_still_present m ids ≡ false)
MayDeleteLocal is_converted last ids _ _ _ = ⊥

-- A Drive file may go: its local file is gone, it was synced before, and it did not change since.
abbrev pub MayDeleteRemote :
    (Timestamp → Text) → Option LocalFile → Option DriveFile → Option SyncRecord → Text → Type 0
MayDeleteRemote to_rfc3339 none (some r) (some m) id =
    (remote_changed to_rfc3339 r m ≡ false) × (id ≡ or_id m.drive_file_id r.id)
MayDeleteRemote to_rfc3339 _ _ _ id = ⊥

-- The Drive content may be fetched over the local file: there is none, or its content is that of the
-- last sync and the Drive side changed.
abbrev pub MayDownload :
    (Timestamp → Text)
    → Bool
    → Option Text
    → Option LocalFile
    → Option DriveFile
    → Option SyncRecord
    → Text
    → Type 0
MayDownload to_rfc3339 is_converted last none (some r) none id = id ≡ r.id
MayDownload to_rfc3339 is_converted last none (some r) (some m) id =
    (remote_changed to_rfc3339 r m ≡ true) × (id ≡ r.id)
MayDownload to_rfc3339 is_converted last (some l) (some r) (some m) id =
    IsKept is_converted last l m × (remote_changed to_rfc3339 r m ≡ true) × (id ≡ r.id)
MayDownload to_rfc3339 is_converted last _ _ _ id = ⊥

module _ (to_rfc3339 : Timestamp → Text) (stamp : Text) (path : RelativePath)
    (policy : ConflictPolicy) (is_converted : Bool) (last : Option Text) (ids : List Text) where
  -- The decision as the engine asks for it.
  abbrev pub decide : Option LocalFile → Option DriveFile → Option SyncRecord → SyncAction
  decide local remote metadata =
      determine_action_converted_with_remote_ids to_rfc3339 stamp path local remote metadata policy
        is_converted last ids

  -- A local file is deleted exactly when no Drive file is at its path, it was synced before, its
  -- content is that of the last sync (of the last export, for a converted file), and its recorded
  -- Drive object is not in the listing.
  pub delete_local_iff :
      (local : Option LocalFile) (remote : Option DriveFile) (metadata : Option SyncRecord)
      → (decide local remote metadata ≡ SyncAction.delete_local path)
        ↔ MayDeleteLocal is_converted last ids local remote metadata
  unfolding determine_action_converted_with_remote_ids resolve_dual_content_change conflict_action
  delete_local_iff none none none = ground arith
  delete_local_iff none none (some m) = ground arith
  delete_local_iff none (some r) none = ground arith
  delete_local_iff none (some r) (some m) = ground arith
  delete_local_iff (some l) none none = ground arith
  delete_local_iff (some l) none (some m) =
      ground (arith, text_eq_iff l.md5 (baseline is_converted last m))
  delete_local_iff (some l) (some r) none = ground arith
  delete_local_iff (some l) (some r) (some m) = ground arith

  -- A Drive file is deleted exactly when no local file is at its path, it was synced before and it did
  -- not change since; it is deleted under the recorded id or else its own.
  pub delete_remote_iff :
      (local : Option LocalFile) (remote : Option DriveFile) (metadata : Option SyncRecord)
      (id : Text)
      → (decide local remote metadata ≡ SyncAction.delete_remote path id)
        ↔ MayDeleteRemote to_rfc3339 local remote metadata id
  unfolding determine_action_converted_with_remote_ids resolve_dual_content_change conflict_action
  delete_remote_iff none none none id = ground arith
  delete_remote_iff none none (some m) id = ground arith
  delete_remote_iff none (some r) none id = ground arith
  delete_remote_iff none (some r) (some m) id = ground arith
  delete_remote_iff (some l) none none id = ground arith
  delete_remote_iff (some l) none (some m) id = ground arith
  delete_remote_iff (some l) (some r) none id = ground arith
  delete_remote_iff (some l) (some r) (some m) id = ground arith

  -- The Drive file at a path is downloaded, under its own id, exactly when there is no local file and
  -- the path was never synced or its Drive side changed since, or when the local content is that of
  -- the last sync and the Drive side changed.
  pub download_iff :
      (local : Option LocalFile) (remote : Option DriveFile) (metadata : Option SyncRecord)
      (id : Text)
      → (decide local remote metadata ≡ SyncAction.download path id)
        ↔ MayDownload to_rfc3339 is_converted last local remote metadata id
  unfolding determine_action_converted_with_remote_ids resolve_dual_content_change conflict_action
  download_iff none none none id = ground arith
  download_iff none none (some m) id = ground arith
  download_iff none (some r) none id = ground arith
  download_iff none (some r) (some m) id = ground arith
  download_iff (some l) none none id = ground arith
  download_iff (some l) none (some m) id = ground arith
  download_iff (some l) (some r) none id = ground arith
  download_iff (some l) (some r) (some m) id =
      ground (arith, text_eq_iff l.md5 (baseline is_converted last m))

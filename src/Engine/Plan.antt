-- ===== src/Engine/Plan.antt =====
-- The planning part of `run_sync` in src/sync/engine.rs: one decision for each path that the local
-- directory, Drive or the records know. The set of paths is the ordered set of its elements.
use oxidrive.Base.{if◌then◌else◌, Bool, false, true, Option, none, some, List, [], ◌∷◌, map}
use oxidrive.Text.{Text}
use oxidrive.TextMap.{TextMap, lookup, insert, upsert, keys}
use oxidrive.Types.{Timestamp, LocalFile, SyncAction, ConflictResolution, WorkspaceConversion}
use oxidrive.Types.Path.{RelativePath}
use oxidrive.Drive.{DriveFile}
use oxidrive.Store.Session.{Store, get, get_conversion}
use oxidrive.Decision.{
  contains, ConflictPolicy, determine_action_with_remote_ids,
  determine_action_converted_with_remote_ids,
}

abbrev pub PathSet : Type 0
PathSet = TextMap (Unit {0})

-- `paths.extend(map.keys().cloned())`
unfoldable pub extend_keys : {V : Type 0} → TextMap V → PathSet → PathSet
unfolding upsert
extend_keys [] set = set
extend_keys ((k, v) ∷ m) set = extend_keys m (insert k tt set)

unfoldable pub known_paths : TextMap LocalFile → TextMap DriveFile → Store → List RelativePath
unfolding extend_keys
known_paths local remote store =
    keys (extend_keys store.records (extend_keys remote (extend_keys local [])))

abbrev pub file_ids : TextMap DriveFile → List Text
file_ids remote = map (λ e. e.1.id) remote

module _ (to_rfc3339 : Timestamp → Text) (stamp : Text) (policy : ConflictPolicy)
    (local : TextMap LocalFile) (remote : TextMap DriveFile) (store : Store) where
  abbrev pub by_conversion : RelativePath → Option WorkspaceConversion → SyncAction
  by_conversion p (some conversion) =
      determine_action_converted_with_remote_ids to_rfc3339 stamp p (lookup p local)
        (lookup p remote) (get p store) policy true conversion.last_export_md5 (file_ids remote)
  by_conversion p none =
      determine_action_with_remote_ids to_rfc3339 stamp p (lookup p local) (lookup p remote)
        (get p store) policy (file_ids remote)

  -- The body of the loop.
  unfoldable pub action_for : RelativePath → SyncAction
  unfolding determine_action_converted_with_remote_ids lookup get get_conversion
  action_for p = by_conversion p (get_conversion p store)

  unfoldable pub plan_actions : List SyncAction
  unfolding action_for known_paths
  plan_actions = map action_for (known_paths local remote store)

abbrev uploads_local_file : ConflictResolution → Bool
uploads_local_file ConflictResolution.local_wins = true
uploads_local_file ConflictResolution.remote_wins = false
uploads_local_file (ConflictResolution.rename suffix) = true
uploads_local_file (ConflictResolution.conflict_copy suffix) = true

abbrev upload_target : SyncAction → Option RelativePath
upload_target (SyncAction.upload p remote_id) = some p
upload_target (SyncAction.conflict p remote_id local_md5 resolution) =
    if uploads_local_file resolution then some p else none
upload_target _ = none

abbrev once_more :
    Option RelativePath
    → List RelativePath
    → (List RelativePath → List RelativePath)
    → List RelativePath
once_more none seen rest = rest seen
once_more (some p) seen rest = if contains seen p then rest seen else p ∷ rest (p ∷ seen)

abbrev targets_behind : List RelativePath → List SyncAction → List RelativePath
targets_behind seen [] = []
targets_behind seen (a ∷ actions) =
    once_more (upload_target a) seen (λ seen'. targets_behind seen' actions)

-- The paths whose parent folders are created on Drive before the uploads.
unfoldable pub upload_targets_from_actions : List SyncAction → List RelativePath
unfolding contains
upload_targets_from_actions actions = targets_behind [] actions

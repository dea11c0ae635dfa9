-- ===== src/Decision/Causality.antt =====
-- A file that changed on both sides: version vectors decide between an upload and a conflict.
use oxidrive.Base.{
  ◌≡◌, ◌≢◌, refl, ◌↔◌, ◌⊎◌, Bool, true, false, ◌&&◌, Option, some, List, arith, if◌then◌else◌,
}
use oxidrive.Text.{Text}
use oxidrive.Text.Order.{text_eq_iff}
use oxidrive.Types.{Timestamp, LocalFile, SyncRecord, SyncAction}
use oxidrive.Types.Path.{RelativePath}
use oxidrive.Drive.{DriveFile}
use oxidrive.Coordination.{
  VersionVector, Ordering3, from_app_properties, from_map, no_entries, dominance,
}
use oxidrive.Coordination.Dominance.{Le, Exceeds, advanced, advanced-dominance}
use oxidrive.Decision.{
  ConflictPolicy, remote_changed, upload_id, conflict_action, resolve_dual_content_change,
  upload_action, determine_action_converted_with_remote_ids, by_dominance,
}
use oxidrive.Decision.Safety.{baseline, decide}

abbrev pub remote_vector : DriveFile → VersionVector
remote_vector r = from_app_properties r.app_properties

abbrev pub stored_vector : SyncRecord → VersionVector
stored_vector m = from_map m.version_vector

abbrev pub no_vectors : DriveFile → SyncRecord → Bool
no_vectors r m = no_entries (remote_vector r) && no_entries (stored_vector m)

abbrev pub is_conflict : SyncAction → Bool
is_conflict (SyncAction.conflict _ _ _ _) = true
is_conflict (SyncAction.skip _) = false
is_conflict (SyncAction.upload _ _) = false
is_conflict (SyncAction.download _ _) = false
is_conflict (SyncAction.delete_local _) = false
is_conflict (SyncAction.delete_remote _ _) = false
is_conflict (SyncAction.cleanup_metadata _) = false
is_conflict (SyncAction.touch_metadata _) = false

module _ (stamp : Text) (path : RelativePath) (policy : ConflictPolicy) where
  -- The outcome of a change on both sides, from the two tests.
  abbrev outcome : LocalFile → DriveFile → SyncRecord → Bool → Ordering3 → SyncAction
  outcome l r m empty o =
      if empty
      then conflict_action stamp path r l policy
      else by_dominance stamp path l r m policy o

  outcome_upload :
      (l : LocalFile) (r : DriveFile) (m : SyncRecord) (id : Option Text) (empty : Bool)
      (o : Ordering3)
      → (outcome l r m empty o ≡ SyncAction.upload path id)
        ↔ ((empty ≡ false) × (advanced o ≡ false) × (id ≡ upload_id m r))
  unfolding conflict_action upload_action
  outcome_upload l r m id empty o = ground arith

  outcome_conflict :
      (l : LocalFile) (r : DriveFile) (m : SyncRecord) (empty : Bool) (o : Ordering3)
      → (is_conflict (outcome l r m empty o) ≡ true) ↔ ((empty ≡ true) ⊎ (advanced o ≡ true))
  unfolding conflict_action upload_action
  outcome_conflict l r m empty o = ground arith

  resolve-outcome :
      (l : LocalFile) (r : DriveFile) (m : SyncRecord)
      → resolve_dual_content_change stamp path l r m policy
        ≡ outcome l r m (no_vectors r m) (dominance (remote_vector r) (stored_vector m))
  unfolding resolve_dual_content_change
  resolve-outcome l r m = refl

module _ (to_rfc3339 : Timestamp → Text) (stamp : Text) (path : RelativePath)
    (policy : ConflictPolicy) (is_converted : Bool) (last : Option Text) (ids : List Text)
    (l : LocalFile) (r : DriveFile) (m : SyncRecord) where
  abbrev decision : SyncAction
  decision = decide to_rfc3339 stamp path policy is_converted last ids (some l) (some r) (some m)

  -- A synced file on both sides is uploaded exactly when its local content is not that of the last
  -- sync, and the Drive side is unchanged or some vector is known and the Drive vector has no counter
  -- above the recorded one.
  pub upload_iff :
      (id : Option Text)
      → (decision ≡ SyncAction.upload path id) ↔ (
          (l.md5 ≢ baseline is_converted last m)
          × (id ≡ upload_id m r)
          × ((remote_changed to_rfc3339 r m ≡ false)
              ⊎ ((no_vectors r m ≡ false) × Le (remote_vector r) (stored_vector m))))
  unfolding determine_action_converted_with_remote_ids
  upload_iff id =
      let empty = no_vectors r m in
      let o = dominance (remote_vector r) (stored_vector m) in
      ground (
        arith,
        text_eq_iff l.md5 (baseline is_converted last m),
        resolve-outcome stamp path policy l r m,
        outcome_upload stamp path policy l r m id empty o,
        (advanced-dominance (remote_vector r) (stored_vector m)).1,
      )

  -- It is a conflict exactly when both contents changed and either no vector is known on either side
  -- or the Drive vector has a counter above the recorded one.
  pub conflict_iff : (is_conflict decision ≡ true) ↔ (
      (l.md5 ≢ baseline is_converted last m)
      × (remote_changed to_rfc3339 r m ≡ true)
      × ((no_vectors r m ≡ true) ⊎ Exceeds (remote_vector r) (stored_vector m)))
  unfolding determine_action_converted_with_remote_ids
  conflict_iff =
      let empty = no_vectors r m in
      let o = dominance (remote_vector r) (stored_vector m) in
      ground (
        arith,
        text_eq_iff l.md5 (baseline is_converted last m),
        resolve-outcome stamp path policy l r m,
        outcome_conflict stamp path policy l r m empty o,
        (advanced-dominance (remote_vector r) (stored_vector m)).0,
      )

-- ===== src/Decision/Edited.antt =====
-- What becomes of an edit: on either side it is carried over or reported.
use oxidrive.Base.{◌≡◌, ◌≢◌, Bool, Option, none, some, List, arith}
use oxidrive.Text.{Text}
use oxidrive.Text.Order.{text_eq_iff}
use oxidrive.Types.{Timestamp, LocalFile, SyncRecord, SyncAction}
use oxidrive.Types.Path.{RelativePath}
use oxidrive.Drive.{DriveFile}
use oxidrive.Decision.{
  ConflictPolicy, conflict_action, resolve_dual_content_change, upload_action,
  determine_action_converted_with_remote_ids,
}
use oxidrive.Decision.Safety.{baseline, decide}

-- The action sends the local file to Drive or reports a conflict, for this path.
abbrev pub Spares : RelativePath → SyncAction → Type 0
Spares path (SyncAction.upload p _) = p ≡ path
Spares path (SyncAction.conflict p _ _ _) = p ≡ path
Spares path _ = ⊥

dual-Spares :
    (stamp : Text) (path : RelativePath) (l : LocalFile) (r : DriveFile) (m : SyncRecord)
    (policy : ConflictPolicy)
    → Spares path (resolve_dual_content_change stamp path l r m policy)
unfolding resolve_dual_content_change conflict_action upload_action
dual-Spares stamp path l r m policy = ground arith

module _ (to_rfc3339 : Timestamp → Text) (stamp : Text) (path : RelativePath)
    (policy : ConflictPolicy) (is_converted : Bool) (last : Option Text) (ids : List Text) where
  -- A local file whose content is not that of the last sync (of the last export, for a converted file)
  -- is uploaded or reported as a conflict under its path, whatever became of its Drive file: it is
  -- never deleted, skipped or downloaded over.
  pub edited_is_spared :
      (l : LocalFile) (remote : Option DriveFile) (m : SyncRecord)
      → l.md5 ≢ baseline is_converted last m
      → Spares path
          (decide to_rfc3339 stamp path policy is_converted last ids (some l) remote (some m))
  unfolding determine_action_converted_with_remote_ids
  edited_is_spared l none m h = ground (arith, h, text_eq_iff l.md5 (baseline is_converted last m))
  edited_is_spared l (some r) m h = ground (
    arith,
    h,
    text_eq_iff l.md5 (baseline is_converted last m),
    dual-Spares stamp path l r m policy,
  )

-- ===== src/Executor/Conflict.antt =====
-- The follow-ups of a conflict, src/sync/executor.rs. `stamp` is the formatted current time.
use oxidrive.Base.{ℕ, Bool, not, ◌||◌, Option, none, some, List, [], ◌∷◌, ◌++◌, ◌==◌, if◌then◌else◌}
use oxidrive.Text.{
  Text, text, is_empty, is_digit, is_ascii_alphabetic, rsplit_once, trim_start_char, trim_end_char,
  ends_with,
}
use oxidrive.Types.{SyncAction, ConflictResolution}
use oxidrive.Types.Path.{RelativePath, from_text, normalize_relative}

abbrev pub is_device_char : ℕ → Bool
is_device_char c = is_ascii_alphabetic c || is_digit c || c == b'-' || c == b'_' || c == b'.'

-- The loop over the characters, with the text written so far.
unfoldable pub sanitize_loop : Text → Text → Text
unfolding ends_with
sanitize_loop out [] = out
sanitize_loop out (ch ∷ rest) =
    sanitize_loop
      (if is_device_char ch
        then out ++ ch ∷ []
        else if not (ends_with out b'-')
        then out ++ b'-' ∷ []
        else out)
      rest

abbrev pub or_device : Text → Text
or_device compact = if is_empty compact then text "device" else compact

-- Also `sanitize_device_component` of src/store/session.rs, which has the same body.
unfoldable pub suffix_device_component : Text → Text
unfolding sanitize_loop trim_start_char trim_end_char
suffix_device_component device_id =
    or_device (trim_end_char b'-' (trim_start_char b'-' (sanitize_loop [] device_id)))

unfoldable pub conflict_copy_suffix : Text → Text → Text
unfolding suffix_device_component
conflict_copy_suffix stamp device_id =
    text ".conflict." ++ (suffix_device_component device_id ++ b'.' ∷ stamp)

unfoldable pub tag_conflict_copy_resolution : Text → ConflictResolution → Text → ConflictResolution
unfolding conflict_copy_suffix
tag_conflict_copy_resolution stamp (ConflictResolution.conflict_copy _) device_id =
    ConflictResolution.conflict_copy (conflict_copy_suffix stamp device_id)
tag_conflict_copy_resolution stamp other device_id = other

-- `name.rfind('.')` at a position above 0 splits the name before the dot.
abbrev insert_suffix : Text → Text → Option (Text × Text) → Text
insert_suffix name suffix none = name ++ suffix
insert_suffix name suffix (some (stem, ext)) =
    if is_empty stem then name ++ suffix else stem ++ (suffix ++ b'.' ∷ ext)

unfoldable pub apply_suffix_to_file_name : Text → Text → Text
unfolding rsplit_once
apply_suffix_to_file_name name suffix = insert_suffix name suffix (rsplit_once b'.' name)

abbrev renamed_path : Text → Text → Option (Text × Text) → RelativePath
renamed_path raw suffix none = from_text (apply_suffix_to_file_name raw suffix)
renamed_path raw suffix (some (d, f)) = from_text (d ++ b'/' ∷ apply_suffix_to_file_name f suffix)

unfoldable pub path_with_suffix : RelativePath → Text → RelativePath
unfolding apply_suffix_to_file_name rsplit_once normalize_relative
path_with_suffix path suffix = renamed_path path suffix (rsplit_once b'/' path)

-- The actions, or the mode of the resolution that lacks a remote id.
pub data FollowUps : Type 0 where
  actions : List SyncAction → FollowUps
  needs_remote_id : (mode : Text) → FollowUps

unfoldable pub rename_like_actions : RelativePath → Option Text → Text → Text → FollowUps
unfolding path_with_suffix
rename_like_actions path none suffix mode = needs_remote_id mode
rename_like_actions path (some id) suffix mode =
    actions (
      SyncAction.download (path_with_suffix path suffix) id ∷ SyncAction.upload path (some id) ∷ [])

unfoldable pub conflict_resolution_actions :
    RelativePath → Option Text → ConflictResolution → FollowUps
unfolding rename_like_actions
conflict_resolution_actions path remote_id ConflictResolution.local_wins =
    actions (SyncAction.upload path remote_id ∷ [])
conflict_resolution_actions path none ConflictResolution.remote_wins =
    needs_remote_id (text "remote_wins")
conflict_resolution_actions path (some id) ConflictResolution.remote_wins =
    actions (SyncAction.download path id ∷ [])
conflict_resolution_actions path remote_id (ConflictResolution.rename suffix) =
    rename_like_actions path remote_id suffix (text "rename")
conflict_resolution_actions path remote_id (ConflictResolution.conflict_copy suffix) =
    rename_like_actions path remote_id suffix (text "conflict_copy")

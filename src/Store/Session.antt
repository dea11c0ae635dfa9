-- ===== src/Store/Session.antt =====
-- `Store` of src/store/session.rs: the in-memory state of one run. Its locks are never poisoned here,
-- so the accessors do not fail.
use oxidrive.Base.{ℕ, ◌-◌, Bool, ◌&&◌, Option, none, some, [], ltb, leb, if◌then◌else◌, length}
use oxidrive.Text.{Text, text_eq, is_empty, rsplit_once, trim_start_char, trim_end_char}
use oxidrive.TextMap.{TextMap, lookup, insert, remove, retain, upsert}
use oxidrive.Types.{Timestamp, SyncRecord, WorkspaceConversion, UploadSession}
use oxidrive.Types.Path.{RelativePath, normalize_relative, from_text}
use oxidrive.Drive.{DriveFile, folder}

pub record Store : Type 0 where
  pub sync_dir : Text
  pub records : TextMap SyncRecord
  pub conversions : TextMap WorkspaceConversion
  pub upload_sessions : TextMap UploadSession
  pub remote_snapshot : Option (TextMap DriveFile)
  pub root_drive_folder_id : Option Text
  pub folder_ids : TextMap Text

abbrev pub open_store : Text → Store
open_store dir = record {
  sync_dir = dir;
  records = [];
  conversions = [];
  upload_sessions = [];
  remote_snapshot = none;
  root_drive_folder_id = none;
  folder_ids = [];
}

unfoldable pub get : RelativePath → Store → Option SyncRecord
unfolding lookup
get path s = lookup path s.records

unfoldable pub put_record : RelativePath → SyncRecord → Store → Store
unfolding upsert
put_record path r s = record s { records = insert path r s.records }

unfoldable pub remove_record : RelativePath → Store → Store
unfolding remove
remove_record path s = record s { records = remove path s.records }

unfoldable pub get_conversion : RelativePath → Store → Option WorkspaceConversion
unfolding lookup
get_conversion path s = lookup path s.conversions

unfoldable pub upsert_conversion : RelativePath → WorkspaceConversion → Store → Store
unfolding upsert
upsert_conversion path c s = record s { conversions = insert path c s.conversions }

unfoldable pub remove_conversion : RelativePath → Store → Store
unfolding remove
remove_conversion path s = record s { conversions = remove path s.conversions }

unfoldable pub get_upload_session : RelativePath → Store → Option UploadSession
unfolding lookup
get_upload_session path s = lookup path s.upload_sessions

unfoldable pub upsert_upload_session : RelativePath → UploadSession → Store → Store
unfolding upsert
upsert_upload_session path u s = record s { upload_sessions = insert path u s.upload_sessions }

unfoldable pub remove_upload_session : RelativePath → Store → Store
unfolding remove
remove_upload_session path s = record s { upload_sessions = remove path s.upload_sessions }

-- A session that is young enough and has bytes left to send. A time before the last update gives a
-- negative age, which is young enough.
unfoldable pub is_live : Timestamp → ℕ → UploadSession → Bool
is_live now max_age u =
    leb (now - u.updated_at) max_age && ltb u.next_offset u.file_size && ltb 0 u.file_size

-- The store without the dead sessions, and how many they were.
unfoldable pub purge_stale_upload_sessions : Timestamp → ℕ → Store → ℕ × Store
unfolding retain is_live
purge_stale_upload_sessions now max_age s =
    let left = retain (λ _ u. is_live now max_age u) s.upload_sessions in
    (length s.upload_sessions - length left, record s { upload_sessions = left })

abbrev pub set_remote_snapshot : TextMap DriveFile → Store → Store
set_remote_snapshot snap s = record s { remote_snapshot = some snap }

abbrev pub clear_remote_snapshot : Store → Store
clear_remote_snapshot s = record s { remote_snapshot = none }

abbrev pub set_root_drive_folder_id : Option Text → Store → Store
set_root_drive_folder_id id s = record s { root_drive_folder_id = id }

-- `rel_path.replace('\\', "/").trim_matches('/')`
unfoldable pub folder_key : Text → Text
unfolding normalize_relative trim_start_char trim_end_char
folder_key rel_path = trim_end_char b'/' (trim_start_char b'/' (normalize_relative rel_path))

unfoldable pub set_folder_id : Text → Text → Store → Store
unfolding folder_key upsert
set_folder_id rel_path drive_id s = record s {
  folder_ids = insert (folder_key rel_path) drive_id s.folder_ids;
}

unfoldable pub get_folder_id : Text → Store → Option Text
unfolding folder_key lookup
get_folder_id rel_path s = lookup (folder_key rel_path) s.folder_ids

abbrev pub parent_part : Option (Text × Text) → Text
parent_part none = []
parent_part (some (p, _)) = p

unfoldable pub parent_relative_path : RelativePath → RelativePath
unfolding rsplit_once normalize_relative
parent_relative_path child = from_text (parent_part (rsplit_once b'/' child))

-- Why the parent of a path is unknown.
pub data ParentError : Type 0 where
  snapshot_missing : ParentError
  not_a_folder : (path mime : Text) → ParentError
  no_folder : (path : Text) → ParentError

pub data ParentResult : Type 0 where
  found : (id : Text) → ParentResult
  failed : ParentError → ParentResult

abbrev folder_row : RelativePath → Option DriveFile → ParentResult
folder_row parent none = failed (no_folder parent)
folder_row parent (some f) =
    if text_eq f.mime_type folder then found f.id else failed (not_a_folder parent f.mime_type)

abbrev in_snapshot : RelativePath → Option (TextMap DriveFile) → ParentResult
in_snapshot parent none = failed snapshot_missing
in_snapshot parent (some snap) = folder_row parent (lookup (from_text parent) snap)

abbrev known_folder : RelativePath → Option Text → Option (TextMap DriveFile) → ParentResult
known_folder parent (some id) snap = found id
known_folder parent none snap = in_snapshot parent snap

unfoldable pub parent_drive_id : RelativePath → Text → Store → ParentResult
unfolding parent_relative_path get_folder_id
parent_drive_id child root_folder_id s =
    let parent = parent_relative_path child in
    if is_empty parent
    then found root_folder_id
    else known_folder parent (get_folder_id parent s) s.remote_snapshot

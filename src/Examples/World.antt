-- ===== src/Examples/World.antt =====
-- The values that the examples share.
use oxidrive.Base.{◌≢◌, true, false, Option, none, some, [], ◌∷◌}
use oxidrive.Base.Int.{pos}
use oxidrive.Text.{Text, text, text_cmp}
use oxidrive.Text.Order.{text_eq_iff}
use oxidrive.Types.{Timestamp, LocalFile, SyncRecord}
use oxidrive.Drive.{DriveFile}
use oxidrive.Store.Session.{Store}
use oxidrive.Store.Persist.{RedbStore}
use oxidrive.Examples.Codecs.{table, no_rows}

-- Instants print as their number, in this world.
abbrev pub to_rfc3339 : Timestamp → Text
to_rfc3339 t = t ∷ []

abbrev pub parse_from_rfc3339 : Text → Option Timestamp
parse_from_rfc3339 (t ∷ []) = some t
parse_from_rfc3339 _ = none

abbrev pub notes : Text
notes = text "docs/notes.md"

abbrev pub local_file : LocalFile
local_file = record { path = notes; md5 = text "aa11"; mtime = 100; size = 7 }

abbrev pub edited_file : LocalFile
edited_file = record local_file { md5 = text "bb22"; mtime = 300 }

abbrev pub drive_file : DriveFile
drive_file = record {
  id = text "drive-1";
  name = text "notes.md";
  mime_type = text "text/markdown";
  md5_checksum = some (text "aa11");
  modified_time = 90;
  size = some 7;
  head_revision_id = some (text "r1");
  version = some (pos 4);
  app_properties = (text "ox_vv", text "laptop:2") ∷ [];
  parents = text "root" ∷ [];
  trashed = false;
}

-- The file after another device's edit.
abbrev pub changed_drive_file : DriveFile
changed_drive_file = record drive_file {
  md5_checksum = some (text "cc33");
  modified_time = 200;
  head_revision_id = some (text "r2");
  app_properties = (text "ox_vv", text "laptop:2;phone:1") ∷ [];
}

abbrev pub sync_record : SyncRecord
sync_record = record {
  drive_file_id = some (text "drive-1");
  remote_md5 = some (text "aa11");
  remote_mime_type = some (text "text/markdown");
  remote_modified_at = some 90;
  local_md5 = text "aa11";
  local_mtime = 100;
  local_size = 7;
  last_synced_at = 110;
  remote_head_revision_id = some (text "r1");
  remote_version = some (pos 4);
  version_vector = (text "laptop", 2) ∷ [];
}

abbrev pub session : Store
session = record {
  sync_dir = text "/home/me/drive";
  records = (text "a.txt", sync_record) ∷ (notes, sync_record) ∷ [];
  conversions =
      (
        text "plan.docx",
        record {
          drive_file_id = text "drive-2";
          google_mime = text "application/vnd.google-apps.document";
          last_export_md5 = some (text "dd44");
        },
      )
      ∷ [];
  upload_sessions = [];
  remote_snapshot = none;
  root_drive_folder_id = some (text "root");
  folder_ids = (text "docs", text "folder-1") ∷ [];
}

-- The journal of a run that stopped while it downloaded the notes.
abbrev pub journal : table.State
journal = ((text "docs/notes.md", 1 ∷ 1 ∷ 400 ∷ []) ∷ [], (tt, tt))

abbrev pub database : RedbStore table
database = record {
  sync_metadata = ((text "old.txt", 1 ∷ []) ∷ [], (tt, tt));
  conversions = no_rows;
  upload_sessions = no_rows;
  folder_ids = no_rows;
  config = no_rows;
  pending_ops = journal;
  tombstones = no_rows;
}

false-ne-true : false ≢ true
false-ne-true h = cc

pub edited_md5-ne : edited_file.md5 ≢ text "aa11"
unfolding text_cmp
edited_md5-ne e = false-ne-true ((text_eq_iff (text "bb22") (text "aa11")).1 e)

-- ===== src/Drive.antt =====
-- src/drive/: the value types of the Drive API, the names of exported files, and the advisory leases. `to_rfc3339` and `parse_from_rfc3339` are chrono's: parameters.
pub mod Names
pub mod Listing
pub mod ListingLaws
pub mod Lease
pub mod Changes
pub mod Folders
pub mod FoldersRooted
pub mod FoldersLaws
pub mod FoldersNeeded
pub mod FoldersMade
pub mod Query
pub mod Upload
pub mod UploadLaws
pub mod UploadDone
pub mod Resumed
use oxidrive.Base.{ℕ, Bool, Option, none, some, List, ◌++◌}
use oxidrive.Base.Int.{ℤ}
use oxidrive.Text.{Text, text}
use oxidrive.TextMap.{TextMap}
use oxidrive.Types.{Timestamp}

pub record DriveFile : Type 0 where
  pub id : Text
  pub name : Text
  pub mime_type : Text
  pub md5_checksum : Option Text
  pub modified_time : Timestamp
  pub size : Option ℕ
  pub head_revision_id : Option Text
  pub version : Option ℤ
  pub app_properties : TextMap Text
  pub parents : List Text
  pub trashed : Bool

pub record DriveChange : Type 0 where
  pub file_id : Text
  pub file : Option DriveFile
  pub removed : Bool
  pub time : Timestamp

abbrev pub google_doc : Text
google_doc = text "application/vnd.google-apps.document"

abbrev pub google_sheet : Text
google_sheet = text "application/vnd.google-apps.spreadsheet"

abbrev pub google_slides : Text
google_slides = text "application/vnd.google-apps.presentation"

abbrev pub google_drawing : Text
google_drawing = text "application/vnd.google-apps.drawing"

abbrev pub folder : Text
folder = text "application/vnd.google-apps.folder"

module _ (to_rfc3339 : Timestamp → Text) where
  abbrev pub fingerprint_of : Option Text → Timestamp → Text
  fingerprint_of (some md5) modified_time = md5
  fingerprint_of none modified_time = text "mtime:" ++ to_rfc3339 modified_time

  abbrev pub remote_content_fingerprint : DriveFile → Text
  remote_content_fingerprint remote = fingerprint_of remote.md5_checksum remote.modified_time

-- ===== src/Drive/Listing.antt =====
-- src/drive/list.rs: the local names that the files of one Drive folder get, and the choice among
-- files of equal content. A map of `n` names leaves one of the first `n + 1` candidates free, so that
-- many rounds are the fuel of the search.
use oxidrive.Base.{ℕ, suc, Option, none, some, List, [], ◌∷◌, ◌++◌, Ordering, if◌then◌else◌, length}
use oxidrive.Text.{Text, text, text_cmp, option_text_eq, rsplit_once}
use oxidrive.Text.Decimal.{show_u64}
use oxidrive.TextMap.{TextMap, lookup, insert, upsert, contains_key}
use oxidrive.TextMap.Search.{first_free}
use oxidrive.Drive.{DriveFile}
use oxidrive.Drive.Names.{export_format_sync, local_sync_name}
use oxidrive.Engine.Placement.{stem_and_ext}

abbrev pub split_file_name : Text → Text × Text
split_file_name name = stem_and_ext name (rsplit_once b'.' name)

unfoldable pub suffixed : Text → ℕ → Text
unfolding rsplit_once show_u64
suffixed name index =
    let parts = split_file_name name in (parts.0 ++ text " (") ++ (show_u64 index ++ b')' ∷ parts.1)

-- None if the fuel runs out.
unfoldable pub dedupe_name_for_folder : Text → TextMap Text → Option Text
unfolding first_free suffixed lookup
dedupe_name_for_folder name assigned_names =
    if contains_key name assigned_names
    then first_free (suffixed name) assigned_names (suc (length assigned_names)) 2
    else some name

-- Files without and files with an export format, in their order.
abbrev pub plain_and_exported : List DriveFile → List DriveFile × List DriveFile
plain_and_exported [] = ([], [])
plain_and_exported (file ∷ files) =
    let (plain, exported) = plain_and_exported files in
    elim (export_format_sync file.mime_type) [
      | none ↦ (file ∷ plain, exported)
      | some fmt ↦ (plain, file ∷ exported)
    ]

abbrev pub cons_named :
    Text → DriveFile → Option (List (Text × DriveFile)) → Option (List (Text × DriveFile))
cons_named name file none = none
cons_named name file (some named) = some ((name, file) ∷ named)

-- The loop that claims a name for each file.
unfoldable pub assign_names : List DriveFile → TextMap Text → Option (List (Text × DriveFile))
unfolding dedupe_name_for_folder local_sync_name upsert
assign_names [] assigned_names = some []
assign_names (file ∷ files) assigned_names =
    elim (dedupe_name_for_folder (local_sync_name file.name file.mime_type) assigned_names) [
      | none ↦ none
      | some name ↦ cons_named name file (assign_names files (insert name file.id assigned_names))
    ]

unfoldable pub local_names_in_assignment_order : List DriveFile → Option (List (Text × DriveFile))
unfolding assign_names export_format_sync
local_names_in_assignment_order files =
    let (plain, exported) = plain_and_exported files in assign_names (plain ++ exported) []

pub record FileContentMatch : Type 0 where
  pub id : Text
  pub md5_checksum : Option Text

-- `min_by` on the ids keeps the first of equal ones.
abbrev pub smaller_id : FileContentMatch → Option Text → Option Text
smaller_id file none = some file.id
smaller_id file (some other) = elim (text_cmp file.id other) [
  | Ordering.gt ↦ some other
  | _ ↦ some file.id
]

unfoldable pub pick_content_match : List FileContentMatch → Text → Option Text
unfolding text_cmp
pick_content_match [] local_md5 = none
pick_content_match (file ∷ files) local_md5 =
    let rest = pick_content_match files local_md5 in
    if option_text_eq file.md5_checksum (some local_md5) then smaller_id file rest else rest

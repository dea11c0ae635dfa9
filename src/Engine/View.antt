-- ===== src/Engine/View.antt =====
-- `build_incremental_remote_view` of src/sync/engine.rs and what it calls: the changes that Drive
-- reports, applied to the view that is made of the records.
use oxidrive.Base.{
  ℕ, zero, suc, ◌+◌, Bool, true, false, not, ◌||◌, Option, none, some, List, [], ◌∷◌, ◌++◌, ◌==◌,
  if◌then◌else◌, length, Result, ok, err,
}
use oxidrive.Text.{Text, text_eq, is_empty, rsplit_once}
use oxidrive.TextMap.{TextMap, lookup, insert, remove, upsert}
use oxidrive.Types.Path.{
  RelativePath, from_text, is_safe_non_empty, normalize_relative, is_safe_normalized_relative,
}
use oxidrive.Drive.{DriveFile, DriveChange, folder}
use oxidrive.Drive.Names.{local_sync_name}
use oxidrive.Store.Session.{Store}
use oxidrive.Engine.Stub.{file_name_from_relative, remote_from_records}
use oxidrive.Engine.Placement.{place_without_clobber}

-- The three maps that the loop updates.
pub record View : Type 0 where
  pub remote : TextMap DriveFile
  pub id_to_path : TextMap RelativePath
  pub folder_by_id : TextMap Text

pub data ChangePlacement : Type 0 where
  apply : RelativePath → ChangePlacement
  later : ChangePlacement
  skip : ChangePlacement

-- The errors, on which the engine lists the whole tree instead. `out_of_fuel` is the model's own, and
-- never comes up.
pub data ViewError : Type 0 where
  remote_rename : (file_id current incoming : Text) → ViewError
  remote_move : (file_id : Text) (path : RelativePath) → ViewError
  missing_metadata : (file_id : Text) → ViewError
  out_of_fuel : ViewError

abbrev parent_str : Option (Text × Text) → Text
parent_str none = []
parent_str (some (parent, _)) = parent

unfoldable pub parent_relative_str : RelativePath → Text
unfolding rsplit_once
parent_relative_str path = parent_str (rsplit_once b'/' path)

abbrev is_path : Option Text → Text → Bool
is_path none path = false
is_path (some p) path = text_eq p path

-- `file.parents.iter().any(…)`
unfoldable pub has_parent : List Text → Text → Text → TextMap Text → Bool
unfolding lookup
has_parent [] current_parent root_id folder_by_id = false
has_parent (parent_id ∷ parents) current_parent root_id folder_by_id =
    (if is_empty current_parent
      then text_eq parent_id root_id
      else is_path (lookup parent_id folder_by_id) current_parent)
    || has_parent parents current_parent root_id folder_by_id

abbrev under_folder : Text → Text → RelativePath
under_folder folder_rel sync_name =
    if is_empty folder_rel then from_text sync_name else from_text (folder_rel ++ b'/' ∷ sync_name)

-- The path under one parent, or none for a parent that is not known.
abbrev under_parent : Text → Text → Text → TextMap Text → Option RelativePath
under_parent parent_id sync_name root_id folder_by_id =
    if text_eq parent_id root_id
    then some (from_text sync_name)
    else elim (lookup parent_id folder_by_id) [
      | none ↦ none
      | some folder_rel ↦ some (under_folder folder_rel sync_name)
    ]

abbrev safe_or : Option RelativePath → Option RelativePath → Option RelativePath
safe_or none rest = rest
safe_or (some relative) rest = if is_safe_non_empty relative then some relative else rest

-- The loop over the parents.
unfoldable pub first_safe_parent : List Text → Text → Text → TextMap Text → Option RelativePath
unfolding lookup normalize_relative is_safe_normalized_relative
first_safe_parent [] sync_name root_id folder_by_id = none
first_safe_parent (parent_id ∷ parents) sync_name root_id folder_by_id =
    safe_or (under_parent parent_id sync_name root_id folder_by_id)
      (first_safe_parent parents sync_name root_id folder_by_id)

unfoldable pub path_under_known_parent : DriveFile → TextMap Text → Text → Option RelativePath
unfolding first_safe_parent local_sync_name
path_under_known_parent file folder_by_id root_id =
    first_safe_parent file.parents (local_sync_name file.name file.mime_type) root_id folder_by_id

-- A change of an id that has a path.
abbrev pub resolve_known :
    DriveChange
    → RelativePath
    → Option DriveFile
    → TextMap Text
    → Text
    → Result ViewError ChangePlacement
resolve_known change existing none folder_by_id root_id = ok (apply existing)
resolve_known change existing (some file) folder_by_id root_id =
    let current_name = file_name_from_relative existing in
    let incoming_name = local_sync_name file.name file.mime_type in
    if not (text_eq incoming_name current_name)
    then err (remote_rename change.file_id current_name incoming_name)
    else if not (has_parent file.parents (parent_relative_str existing) root_id folder_by_id)
    then err (remote_move change.file_id existing)
    else ok (apply existing)

abbrev or_later : Option RelativePath → ChangePlacement
or_later none = later
or_later (some path) = apply path

-- A change of an id that has no path.
abbrev pub resolve_unknown : Bool → Option DriveFile → TextMap Text → Text → ChangePlacement
resolve_unknown true file folder_by_id root_id = skip
resolve_unknown false none folder_by_id root_id = later
resolve_unknown false (some file) folder_by_id root_id =
    or_later (path_under_known_parent file folder_by_id root_id)

abbrev resolve_at :
    DriveChange → Option RelativePath → TextMap Text → Text → Result ViewError ChangePlacement
resolve_at change (some existing) folder_by_id root_id =
    resolve_known change existing change.file folder_by_id root_id
resolve_at change none folder_by_id root_id =
    ok (resolve_unknown change.removed change.file folder_by_id root_id)

unfoldable pub resolve_change_path : DriveChange → View → Text → Result ViewError ChangePlacement
unfolding lookup file_name_from_relative local_sync_name has_parent parent_relative_str
    path_under_known_parent
resolve_change_path change view root_id =
    resolve_at change (lookup change.file_id view.id_to_path) view.folder_by_id root_id

abbrev pub forget : RelativePath → Text → View → View
forget path file_id view = record {
  remote = remove path view.remote;
  id_to_path = remove file_id view.id_to_path;
  folder_by_id = remove file_id view.folder_by_id;
}

abbrev pub place_file : DriveFile → View → Option RelativePath → Result ViewError View
place_file file view none = err out_of_fuel
place_file file view (some path) = ok (record {
  remote = insert path file view.remote;
  id_to_path = insert file.id path view.id_to_path;
  folder_by_id =
      if text_eq file.mime_type folder
      then insert file.id path view.folder_by_id
      else view.folder_by_id;
})

abbrev pub apply_file : DriveChange → RelativePath → Option DriveFile → View → Result ViewError View
apply_file change path none view = err (missing_metadata change.file_id)
apply_file change path (some file) view =
    if file.trashed
    then ok (forget path change.file_id view)
    else place_file file view (place_without_clobber view.remote path file.id)

unfoldable pub apply_remote_change : DriveChange → RelativePath → View → Result ViewError View
unfolding place_without_clobber remove upsert
apply_remote_change change path view =
    if change.removed
    then ok (forget path change.file_id view)
    else apply_file change path change.file view

-- The result of one pass over the pending changes.
pub record Pass : Type 0 where
  pub view : View
  pub deferred : List DriveChange
  pub applied : ℕ

abbrev pub one_applied : Result ViewError Pass → Result ViewError Pass
one_applied (ok p) = ok (record p { applied = p.applied + 1 })
one_applied (err e) = err e

abbrev pub defer : DriveChange → Result ViewError Pass → Result ViewError Pass
defer change (ok p) = ok (record p { deferred = change ∷ p.deferred })
defer change (err e) = err e

unfoldable pub one_pass : List DriveChange → Text → View → Result ViewError Pass
unfolding resolve_change_path apply_remote_change
one_pass [] root_id view = ok (record { view = view; deferred = []; applied = 0 })
one_pass (change ∷ pending) root_id view = elim (resolve_change_path change view root_id) [
  | err e ↦ err e
  | ok (apply path) ↦ elim (apply_remote_change change path view) [
    | err e ↦ err e
    | ok view' ↦ one_applied (one_pass pending root_id view')
  ]
  | ok later ↦ defer change (one_pass pending root_id view)
  | ok skip ↦ one_pass pending root_id view
]

abbrev pub is_nil : List DriveChange → Bool
is_nil [] = true
is_nil (_ ∷ _) = false

-- The loop over the passes, with the changes that stay outside the tree.
unfoldable pub passes : ℕ → List DriveChange → Text → View → Result ViewError Pass
unfolding one_pass
passes zero pending root_id view = err out_of_fuel
passes (suc fuel) pending root_id view = elim (one_pass pending root_id view) [
  | err e ↦ err e
  | ok p ↦ elim (is_nil p.deferred || p.applied == 0) [
    | true ↦ ok p
    | false ↦ passes fuel p.deferred root_id p.view
  ]
]

unfoldable pub ids_of : TextMap DriveFile → TextMap RelativePath → TextMap RelativePath
unfolding upsert
ids_of [] ids = ids
ids_of ((path, file) ∷ remote) ids = ids_of remote (insert file.id path ids)

unfoldable pub paths_of : TextMap Text → TextMap Text → TextMap Text
unfolding upsert
paths_of [] paths = paths
paths_of ((path, id) ∷ folder_ids) paths = paths_of folder_ids (insert id path paths)

unfoldable pub start_view : Store → Text → View
unfolding ids_of paths_of remote_from_records
start_view store root_id = record {
  remote = remote_from_records store root_id;
  id_to_path = ids_of (remote_from_records store root_id) [];
  folder_by_id = paths_of store.folder_ids [];
}

-- The loop as the engine runs it, which ends within one round more than there are changes.
unfoldable pub settle_changes : Store → Text → List DriveChange → Result ViewError Pass
unfolding passes start_view
settle_changes store root_id changes =
    passes (suc (length changes)) changes root_id (start_view store root_id)

abbrev remote_of : Result ViewError Pass → Result ViewError (TextMap DriveFile)
remote_of (ok p) = ok p.view.remote
remote_of (err e) = err e

unfoldable pub build_incremental_remote_view :
    Store → Text → List DriveChange → Result ViewError (TextMap DriveFile)
unfolding settle_changes
build_incremental_remote_view store root_id changes =
    remote_of (settle_changes store root_id changes)

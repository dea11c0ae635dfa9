-- ===== src/Drive/Folders.antt =====
-- The folders of a cycle's new files, src/drive/folders.rs: which are needed, and their creation from
-- the top down. A `HashSet` is a list without repetitions, whose order the sorting makes irrelevant.
use oxidrive.Base.{
  ℕ, Bool, true, false, Option, none, some, List, [], ◌∷◌, ◌++◌, Ordering, compare, length,
  if◌then◌else◌, Result, ok, err,
}
use oxidrive.Text.{
  Text, text_cmp, text_eq, is_empty, split, rsplit_once, trim_start_char, trim_end_char,
}
use oxidrive.TextMap.{TextMap, lookup, insert, upsert}
use oxidrive.Types.Path.{normalize_relative}

pub data FolderError : Type 0 where
  request_failed : FolderError
  missing_parent : (path : Text) → FolderError

-- The requests of the Drive client.
pub record FolderClient (D : Type 0) : Type 0 where
  pub list_folders : (name parent_id : Text) → D → Option (List Text) × D
  pub create_folder : (name parent_id : Text) → D → Option Text × D

abbrev pub trim_slashes : Text → Text
trim_slashes s = trim_end_char b'/' (trim_start_char b'/' s)

unfoldable pub normalize_relative_path : Text → Text
unfolding normalize_relative trim_start_char trim_end_char
normalize_relative_path raw = trim_slashes (normalize_relative raw)

abbrev pub parent_or_empty : Option (Text × Text) → Text
parent_or_empty none = []
parent_or_empty (some (prefix, _)) = prefix

abbrev pub set_contains : Text → List Text → Bool
set_contains k [] = false
set_contains k (j ∷ set) = if text_eq k j then true else set_contains k set

abbrev pub set_insert : Text → List Text → List Text
set_insert k set = if set_contains k set then set else k ∷ set

abbrev pub joined : Text → Text → Text
joined current segment = if is_empty current then segment else current ++ b'/' ∷ segment

-- The loop over the segments of a parent, with the path so far.
unfoldable pub add_prefixes : Text → List Text → List Text → List Text
add_prefixes current [] unique = unique
add_prefixes current (segment ∷ segments) unique =
    if is_empty segment
    then add_prefixes current segments unique
    else add_prefixes (joined current segment) segments (set_insert (joined current segment) unique)

abbrev pub add_parents : Text → List Text → List Text
add_parents parent unique =
    if is_empty parent then unique else add_prefixes [] (split b'/' parent) unique

-- The directory of a path.
unfoldable pub parent_folder : Text → Text
unfolding normalize_relative_path rsplit_once
parent_folder raw = trim_slashes (parent_or_empty (rsplit_once b'/' (normalize_relative_path raw)))

unfoldable pub unique_parents : List Text → List Text → List Text
unfolding parent_folder add_prefixes split
unique_parents [] unique = unique
unique_parents (raw ∷ paths) unique = unique_parents paths (add_parents (parent_folder raw) unique)

unfoldable pub depth : Text → ℕ
unfolding split
depth s = length (split b'/' s)

-- The comparison that the list is sorted by.
abbrev pub compare_paths : Text → Text → Ordering
compare_paths a b = elim (compare (depth a) (depth b)) [
  | Ordering.lt ↦ Ordering.lt
  | Ordering.eq ↦ text_cmp a b
  | Ordering.gt ↦ Ordering.gt
]

abbrev pub placed : Text → Text → List Text → List Text → Ordering → List Text
placed a b bs rest Ordering.lt = a ∷ b ∷ bs
placed a b bs rest Ordering.eq = a ∷ b ∷ bs
placed a b bs rest Ordering.gt = b ∷ rest

unfoldable pub insert_sorted : Text → List Text → List Text
unfolding depth text_cmp
insert_sorted a [] = a ∷ []
insert_sorted a (b ∷ bs) = placed a b bs (insert_sorted a bs) (compare_paths a b)

unfoldable pub sort_paths : List Text → List Text
unfolding insert_sorted
sort_paths [] = []
sort_paths (a ∷ rest) = insert_sorted a (sort_paths rest)

unfoldable pub collect_parent_folders : List Text → List Text
unfolding unique_parents sort_paths
collect_parent_folders paths = sort_paths (unique_parents paths [])

abbrev least : Text → List Text → Text
least a [] = a
least a (b ∷ bs) = elim (text_cmp b a) [ Ordering.lt ↦ least b bs | _ ↦ least a bs ]

abbrev pub parts_or_name : Text → Option (Text × Text) → Text × Text
parts_or_name rel none = ([], rel)
parts_or_name rel (some parts) = parts

abbrev pub id_or_missing : Text → Option Text → Result FolderError Text
id_or_missing rel none = err (missing_parent rel)
id_or_missing rel (some id) = ok id

-- The folders that are known already are left alone.
abbrev pub when_new : {A : Type 0} → Option Text → A → A → A
when_new none known new = new
when_new (some id) known new = known

module _ {D : Type 0} (client : FolderClient D) where
  abbrev pub created : Option Text × D → Result FolderError Text × D
  created (none, d) = (err request_failed, d)
  created (some id, d) = (ok id, d)

  -- The smallest id of the folders found, or a new folder.
  abbrev pub found_or_create : Text → Text → Option (List Text) × D → Result FolderError Text × D
  found_or_create name parent_id (none, d) = (err request_failed, d)
  found_or_create name parent_id (some [], d) = created (client.create_folder name parent_id d)
  found_or_create name parent_id (some (a ∷ rest), d) = (ok (least a rest), d)

  unfoldable pub find_or_create_folder : Text → Text → D → Result FolderError Text × D
  unfolding text_cmp
  find_or_create_folder name parent_id d =
      found_or_create name parent_id (client.list_folders name parent_id d)

  -- The parent and the name of a folder.
  abbrev pub parent_and_name : Text → Text × Text
  parent_and_name rel = parts_or_name rel (rsplit_once b'/' rel)

  abbrev pub parent_folder_id : Text → Text → Text → TextMap Text → Result FolderError Text
  parent_folder_id root rel parent folders =
      if is_empty parent then ok root else id_or_missing rel (lookup parent folders)

  abbrev pub inserted :
      Text
      → TextMap Text
      → (TextMap Text → D → Result FolderError (TextMap Text) × D)
      → Result FolderError Text × D
      → Result FolderError (TextMap Text) × D
  inserted rel folders rest (err e, d) = (err e, d)
  inserted rel folders rest (ok id, d) = rest (insert rel id folders) d

  abbrev pub with_parent :
      Text
      → Text
      → TextMap Text
      → (TextMap Text → D → Result FolderError (TextMap Text) × D)
      → Result FolderError Text
      → D
      → Result FolderError (TextMap Text) × D
  with_parent rel name folders rest (err e) d = (err e, d)
  with_parent rel name folders rest (ok parent_id) d =
      inserted rel folders rest (find_or_create_folder name parent_id d)

  -- The loop over the needed folders.
  unfoldable pub make_folders :
      Text → List Text → TextMap Text → D → Result FolderError (TextMap Text) × D
  unfolding find_or_create_folder lookup rsplit_once upsert
  make_folders root [] folders d = (ok folders, d)
  make_folders root (rel ∷ needed) folders d =
      when_new (lookup rel folders) (make_folders root needed folders d) (
        with_parent rel (parent_and_name rel).1 folders (make_folders root needed)
          (parent_folder_id root rel (parent_and_name rel).0 folders) d)

  unfoldable pub ensure_folder_hierarchy :
      List Text → Text → TextMap Text → D → Result FolderError (TextMap Text) × D
  unfolding collect_parent_folders make_folders
  ensure_folder_hierarchy paths root existing_folders d =
      make_folders root (collect_parent_folders paths) existing_folders d

-- ===== src/Examples/Requests.antt =====
-- Pages of changes, and a Drive that makes folders.
use oxidrive.Base.{
  inl, inr, ℕ, ◌+◌, ◌≡◌, refl, arith, none, true, some, List, [], ◌∷◌, Result, ok, err,
  if◌then◌else◌,
}
use oxidrive.Text.{Text, text, text_eq, text_cmp}
use oxidrive.TextMap.{TextMap}
use oxidrive.Drive.{DriveChange}
use oxidrive.Drive.Changes.{
  ChangesPage, ChangesError, request_failed, fetch_changes, with_token, all_changes, last_token,
  fetch_changes_all,
}
use oxidrive.Drive.Folders.{
  normalize_relative_path, FolderClient, collect_parent_folders, ensure_folder_hierarchy,
}
use oxidrive.Text.{split}
use oxidrive.Drive.FoldersNeeded.{directory}
use oxidrive.Drive.FoldersMade.{Has, Made, ensure_folder_hierarchy_makes}

abbrev gone : DriveChange
gone = record { file_id = text "drive-1"; file = none; removed = true; time = 10 }

abbrev first_page : ChangesPage
first_page = record {
  changes = gone ∷ [];
  next_page_token = some (text "p2");
  new_start_page_token = none;
}

abbrev last_page : ChangesPage
last_page = record {
  changes = gone ∷ gone ∷ [];
  next_page_token = none;
  new_start_page_token = some (text "s9");
}

abbrev page_of : Text → Result ChangesError ChangesPage
page_of token =
    if text_eq token (text "p1")
    then ok first_page
    else if text_eq token (text "p2")
    then ok last_page
    else err request_failed

fetch_changes_all_example :
    fetch_changes page_of 5 (text "p1")
    ≡ with_token
        (all_changes (first_page ∷ last_page ∷ []))
        (last_token none (first_page ∷ last_page ∷ []))
unfolding text_cmp
fetch_changes_all_example =
    fetch_changes_all page_of 5 (text "p1") (first_page ∷ last_page ∷ [])
      (refl, text "p2", refl, (refl, refl)) (omega arith)

-- Ids are numbers, counted up.
abbrev maker : FolderClient ℕ
maker = record {
  list_folders = λ name parent d. (some [], d);
  create_folder = λ name parent d. (some (d ∷ []), d + 1);
}

abbrev new_paths : List Text
new_paths = text "a/b/c.txt" ∷ text "docs/x/y.md" ∷ []

abbrev known : TextMap Text
known = (text "docs", text "folder-1") ∷ []

ensure_folder_hierarchy_makes_example :
    Made
      (λ f. Has f (directory (text "docs/x")))
      (ensure_folder_hierarchy maker new_paths (text "root") known 0)
unfolding split normalize_relative_path
ensure_folder_hierarchy_makes_example =
    ensure_folder_hierarchy_makes maker new_paths (text "root") known 0 (text "docs/x/y.md")
      (text "docs/x") (text "y.md") (tt, tt) (inr (inl refl)) refl refl

needed_folders :
    collect_parent_folders new_paths ≡ text "a" ∷ text "docs" ∷ text "a/b" ∷ text "docs/x" ∷ []
unfolding collect_parent_folders
needed_folders = refl

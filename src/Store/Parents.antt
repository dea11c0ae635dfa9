-- ===== src/Store/Parents.antt =====
-- The Drive folder of a new file: `parent_drive_id` after the folders of a cycle were made.
use oxidrive.Base.{◌≡◌, refl, if◌then◌else◌, inl, inr, Bool-cases}
use oxidrive.Text.{Text, is_empty}
use oxidrive.TextMap.Order.{IsOrdered}
use oxidrive.TextMap.Laws.{lookup-insert}
use oxidrive.Types.Path.{RelativePath}
use oxidrive.Store.Session.{
  Store, folder_key, set_folder_id, get_folder_id, parent_relative_path, parent_drive_id, found,
}

-- If the folder ids are a map, then once the id of a file's parent directory is stored, the parent of
-- the file is that id, or the root folder for a file without a directory.
pub parent_drive_id-set_folder_id :
    (child : RelativePath) (root id : Text) (s : Store)
    → IsOrdered s.folder_ids
    → parent_drive_id child root (set_folder_id (parent_relative_path child) id s)
      ≡ found (if is_empty (parent_relative_path child) then root else id)
unfolding parent_drive_id get_folder_id set_folder_id
parent_drive_id-set_folder_id child root id s o =
    elim (Bool-cases (is_empty (parent_relative_path child))) [
      | inl e ↦ rw e refl
      | inr e ↦
          rw (e, lookup-insert (folder_key (parent_relative_path child)) id s.folder_ids o) refl
    ]

-- ===== src/Executor/LocalTrash.antt =====
-- The local trash of src/sync/executor.rs: a deleted file is moved to `.trash/`, under a name that no
-- file has.
use oxidrive.Base.{
  ℕ, zero, suc, ◌+◌, Bool, not, ◌&&◌, ◌==◌, Option, none, some, ◌++◌, ◌∷◌, if◌then◌else◌, Result,
  ok, err,
}
use oxidrive.Text.{Text, text, is_empty, rsplit_once}
use oxidrive.Text.Decimal.{show_u64}
use oxidrive.Types.Path.{RelativePath}
use oxidrive.Executor.Effects.{ExecError, no_trash_path, Disk, Exec, ◌>>=◌}
use oxidrive.Executor.Upload.{split_name}

abbrev numbered : Text → ℕ → Text
numbered stamp attempt = if attempt == 0 then stamp else stamp ++ b'-' ∷ show_u64 attempt

abbrev with_number : Text → Text → Option (Text × Text) → Text
with_number name number none = name ++ b'.' ∷ number
with_number name number (some (stem, ext)) =
    if not (is_empty stem) && not (is_empty ext)
    then stem ++ b'.' ∷ number ++ b'.' ∷ ext
    else name ++ b'.' ∷ number

unfoldable pub with_collision_suffix : RelativePath → Text → ℕ → RelativePath
unfolding show_u64 rsplit_once
with_collision_suffix path stamp attempt =
    let name = (split_name path).1 in
    (split_name path).0 ++ with_number name (numbered stamp attempt) (rsplit_once b'.' name)

-- The candidate if it does not exist.
abbrev pub chosen :
    RelativePath
    → Result ExecError RelativePath
    → Result ExecError Bool
    → Result ExecError RelativePath
chosen candidate rest (err e) = err e
chosen candidate rest (ok found) = if not found then ok candidate else rest

module _ {F : Type 0} (K : Disk F) (stamp : Text) where
  abbrev pub max_attempts : ℕ
  max_attempts = 1024

  -- The loop from an attempt on, with so many max_attempts left.
  unfoldable pub find_free : RelativePath → ℕ → ℕ → F → Result ExecError RelativePath
  unfolding with_collision_suffix
  find_free initial attempt zero f = err (no_trash_path initial)
  find_free initial attempt (suc left) f =
      let candidate = with_collision_suffix initial stamp attempt in
      let rest = find_free initial (attempt + 1) left f in
      chosen candidate rest (K.try_exists candidate f)

  abbrev pub unique_trash_collision_path : RelativePath → F → Result ExecError RelativePath
  unique_trash_collision_path initial f = find_free initial 0 max_attempts f

  abbrev pub trash_path : RelativePath → RelativePath
  trash_path rel_path = text ".trash/" ++ rel_path

  -- The name in the trash.
  unfoldable pub trash_target : RelativePath → F → Result ExecError RelativePath
  unfolding find_free
  trash_target target f =
      chosen target (unique_trash_collision_path target f) (K.try_exists target f)

  abbrev pub read : (F → Result ExecError RelativePath) → Exec F RelativePath
  read m f = (m f, f)

  unfoldable pub move_local_file_to_trash : RelativePath → Exec F Unit
  unfolding trash_target
  move_local_file_to_trash rel_path = do
    _ ← K.create_parent_dirs (trash_path rel_path)
    target ← read (trash_target (trash_path rel_path))
    K.rename rel_path target

-- ===== src/Examples/Names.antt =====
-- Paths, names and the follow-ups of a conflict.
use mathlib.Core.List.{reverse}
use oxidrive.Base.{◌≡◌, refl, some, [], ◌∷◌, ◌++◌}
use oxidrive.Text.{text, text_cmp, split, ends_with}
use oxidrive.Types.Path.{is_safe_normalized_relative}
use oxidrive.Types.PathSafety.{walk, safe_path_descends}
use oxidrive.Drive.Query.{
  escape_drive_query_value, read_literal, read_literal-escape_drive_query_value,
}
use oxidrive.Decision.{ConflictPolicy, conflict_resolution_from_policy}
use oxidrive.Executor.Conflict.{conflict_resolution_actions, tag_conflict_copy_resolution}
use oxidrive.Executor.ConflictLaws.{KeepsLocal, conflict-KeepsLocal}
use oxidrive.Examples.World.{notes}

safe_path_descends_example :
    walk (text "drive" ∷ []) (split b'/' notes) ≡ reverse (split b'/' notes) ++ text "drive" ∷ []
unfolding is_safe_normalized_relative ends_with text_cmp
safe_path_descends_example = safe_path_descends notes (text "drive" ∷ []) refl

conflict-KeepsLocal_example : KeepsLocal notes (
    conflict_resolution_actions notes (some (text "drive-1")) (
      tag_conflict_copy_resolution
        (text "20260101")
        (conflict_resolution_from_policy (text "20260101") (ConflictPolicy.rename (text "old")))
        (text "laptop")))
conflict-KeepsLocal_example =
    conflict-KeepsLocal (text "20260101") (text "laptop") (ConflictPolicy.rename (text "old")) notes
      (text "drive-1") (λ e. cc)

read_literal-escape_drive_query_value_example :
    read_literal
      (escape_drive_query_value (text "it's \\ mine") ++ b'\'' ∷ text " and trashed = false")
    ≡ some (text "it's \\ mine", text " and trashed = false")
read_literal-escape_drive_query_value_example =
    read_literal-escape_drive_query_value (text "it's \\ mine") (text " and trashed = false")

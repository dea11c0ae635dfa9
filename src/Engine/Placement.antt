-- ===== src/Engine/Placement.antt =====
-- `place_without_clobber` of src/sync/engine.rs: a path for a Drive file whose own path another Drive
-- file has. The loop counts up until a name is free; a map of `n` entries leaves one of the first
-- `n + 1` names free, so that many rounds are the fuel.
use oxidrive.Base.{ℕ, suc, Option, none, some, [], ◌∷◌, ◌++◌, if◌then◌else◌, length}
use oxidrive.Text.{Text, text, text_eq, is_empty, rsplit_once}
use oxidrive.Text.Decimal.{show_u64}
use oxidrive.TextMap.{TextMap, lookup}
use oxidrive.TextMap.Search.{first_free}
use oxidrive.Types.Path.{RelativePath, from_text, normalize_relative}
use oxidrive.Drive.{DriveFile}

-- `{dir}/` or nothing, and the name.
abbrev pub dir_and_name : Text → Option (Text × Text) → Text × Text
dir_and_name raw none = ([], raw)
dir_and_name raw (some (dir, name)) = (dir ++ b'/' ∷ [], name)

-- `&name[..dot]` and `&name[dot..]`, if the last dot is not the first character.
abbrev pub stem_and_ext : Text → Option (Text × Text) → Text × Text
stem_and_ext name none = (name, [])
stem_and_ext name (some (stem, ext)) = if is_empty stem then (name, []) else (stem, b'.' ∷ ext)

unfoldable pub candidate : RelativePath → ℕ → RelativePath
unfolding rsplit_once show_u64 normalize_relative
candidate path index =
    let parts = dir_and_name path (rsplit_once b'/' path) in
    let name = stem_and_ext parts.1 (rsplit_once b'.' parts.1) in
    from_text (parts.0 ++ ((name.0 ++ text " (") ++ (show_u64 index ++ b')' ∷ name.1)))

abbrev pub place_at :
    TextMap DriveFile → RelativePath → Text → Option DriveFile → Option RelativePath
place_at remote path file_id none = some path
place_at remote path file_id (some existing) =
    let moved = first_free (candidate path) remote (suc (length remote)) 2 in
    if text_eq existing.id file_id then some path else moved

unfoldable pub place_without_clobber : TextMap DriveFile → RelativePath → Text → Option RelativePath
unfolding first_free candidate lookup
place_without_clobber remote path file_id = place_at remote path file_id (lookup path remote)

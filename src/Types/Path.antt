-- ===== src/Types/Path.antt =====
-- `RelativePath` of src/types.rs: the newtype is its text, and `from_text` is `From<&str>`.
use oxidrive.Base.{Bool, true, false, not, ◌&&◌, ◌||◌, List, [], ◌∷◌, map, ◌==◌, if◌then◌else◌}
use oxidrive.Text.{
  Text, text, text_eq, is_empty, split, contains_char, starts_with, ends_with, is_ascii_alphabetic,
}

abbrev pub RelativePath : Type 0
RelativePath = Text

-- `s.replace('\\', "/")`
unfoldable pub normalize_relative : Text → Text
normalize_relative s = map (λ c. if c == b'\\' then b'/' else c) s

abbrev pub from_text : Text → RelativePath
from_text s = normalize_relative s

unfoldable pub is_windows_drive_path : Text → Bool
is_windows_drive_path [] = false
is_windows_drive_path (a ∷ []) = false
is_windows_drive_path (a ∷ b ∷ s) = b == b':' && is_ascii_alphabetic a

-- The loop over the segments.
unfoldable pub segments_safe : List Text → Bool
segments_safe [] = true
segments_safe (segment ∷ rest) =
    if is_empty segment || text_eq segment (text ".") || text_eq segment (text "..")
    then false
    else segments_safe rest

unfoldable pub is_safe_normalized_relative : Text → Bool
unfolding is_windows_drive_path segments_safe split contains_char
is_safe_normalized_relative s =
    if is_empty s
    then true
    else if contains_char 0 s
        || starts_with s (text "/")
        || ends_with s b'/'
        || is_windows_drive_path s
    then false
    else segments_safe (split b'/' s)

abbrev pub is_safe : RelativePath → Bool
is_safe p = is_safe_normalized_relative p

abbrev pub is_safe_non_empty : RelativePath → Bool
is_safe_non_empty p = not (is_empty p) && is_safe p

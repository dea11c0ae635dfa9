-- ===== src/Scan.antt =====
-- src/sync/scan.rs: which local files a cycle sees, and the ignore patterns of src/config.rs. What the
-- directories hold is data: `Entries`.
pub mod Glob
pub mod Meaning
pub mod Anchor
pub mod GlobLaws
pub mod Ignored
pub mod Walk
pub mod WalkGrows
pub mod WalkLaws
use oxidrive.Base.{
  ℕ, ◌-◌, ◌/◌, Bool, true, false, not, ◌&&◌, ◌||◌, Option, none, some, List, [], ◌∷◌, ◌++◌, ltb,
  leb, ◌==◌, if◌then◌else◌,
}
use oxidrive.Text.{
  Text, text, text_eq, is_empty, trim, trim_end_char, starts_with, contains_char, rsplit_once,
}
use oxidrive.Types.{Timestamp}
use oxidrive.Types.Path.{RelativePath, from_text, normalize_relative}
use oxidrive.Engine.Stub.{name_part}
use oxidrive.Decision.{contains}
use oxidrive.Scan.Glob.{glob_match}

abbrev cons_some : ℕ → Option Text → Option Text
cons_some c none = none
cons_some c (some s) = some (c ∷ s)

-- `str::strip_suffix`
unfoldable pub strip_suffix : Text → Text → Option Text
strip_suffix [] suffix = if is_empty suffix then some [] else none
strip_suffix (c ∷ s) suffix =
    let rest = cons_some c (strip_suffix s suffix) in
    if text_eq (c ∷ s) suffix then some [] else rest

-- The meaning of a matcher's answer; it always gives one.
abbrev pub or_false : Option Bool → Bool
or_false none = false
or_false (some b) = b

-- The last segment: `path.rsplit('/').next()`.
abbrev pub base_name : Text → Text
base_name path = name_part path (rsplit_once b'/' path)

abbrev matches_prefix : Text → Text → Bool
matches_prefix path prefix =
    if is_empty prefix then true else text_eq path prefix || starts_with path (prefix ++ text "/")

abbrev matches_name : Text → Text → Bool
matches_name path pat =
    if contains_char b'/' pat
    then or_false (glob_match path pat)
    else or_false (glob_match (base_name path) pat)

abbrev matches_trimmed : Text → Text → Option Text → Bool
matches_trimmed path pat (some prefix) = matches_prefix path (trim_end_char b'/' prefix)
matches_trimmed path pat none = matches_name path pat

unfoldable pub pattern_matches : Text → Text → Bool
unfolding trim trim_end_char strip_suffix contains_char rsplit_once glob_match
pattern_matches path pat =
    if is_empty (trim pat)
    then false
    else matches_trimmed path (trim pat) (strip_suffix (trim pat) (text "/**"))

unfoldable pub is_ignored : Text → List Text → Bool
unfolding pattern_matches
is_ignored rel_path [] = false
is_ignored rel_path (pat ∷ patterns) = pattern_matches rel_path pat || is_ignored rel_path patterns

abbrev i64_max : ℕ
i64_max = 9_223_372_036_854_775_807

-- The number of milliseconds that fits an i64, or the largest one.
abbrev as_i64 : ℕ → ℕ
as_i64 n = if leb n i64_max then n else i64_max

unfoldable pub is_stable : Timestamp → Timestamp → ℕ → Bool
is_stable mtime now stability_ms =
    if ltb now mtime then true else leb (as_i64 stability_ms) ((now - mtime) / 1_000_000)

unfoldable pub ensure_pattern : List Text → Text → List Text
unfolding contains
ensure_pattern patterns pattern =
    if contains patterns pattern then patterns else patterns ++ pattern ∷ []

abbrev pub ensure_patterns : List Text → List Text → List Text
ensure_patterns patterns [] = patterns
ensure_patterns patterns (p ∷ more) = ensure_patterns (ensure_pattern patterns p) more

abbrev pub mandatory_patterns : List Text
mandatory_patterns =
    text ".oxidrive/**"
    ∷ text ".index/**"
    ∷ text ".trash/**"
    ∷ text "*.part"
    ∷ text "~$*"
    ∷ text ".~lock.*#"
    ∷ text "*.tmp"
    ∷ text "*.temp"
    ∷ text "*.swp"
    ∷ text "*.swo"
    ∷ text "*~"
    ∷ text "4913"
    ∷ text ".DS_Store"
    ∷ text "Thumbs.db"
    ∷ text "*.crdownload"
    ∷ text "*.partial"
    ∷ []

-- With the path of the token file below the local directory, if it lies there.
unfoldable pub effective_ignore_patterns : List Text → Option Text → List Text
unfolding ensure_pattern
effective_ignore_patterns ignore_patterns none = ensure_patterns ignore_patterns mandatory_patterns
effective_ignore_patterns ignore_patterns (some rel_token) =
    ensure_pattern (ensure_patterns ignore_patterns mandatory_patterns) rel_token

abbrev pub is_internal_name : Text → Bool
is_internal_name name =
    text_eq name (text ".index") || text_eq name (text ".oxidrive") || text_eq name (text ".trash")

abbrev pub child_path : RelativePath → Text → RelativePath
child_path rel_dir name =
    if is_empty rel_dir then from_text name else from_text (rel_dir ++ text "/" ++ name)

-- Both tests of an entry before its metadata is read.
unfoldable pub is_passed_over : RelativePath → Text → List Text → Bool
unfolding is_ignored normalize_relative
is_passed_over rel_dir name patterns =
    is_internal_name name || is_ignored (child_path rel_dir name) patterns

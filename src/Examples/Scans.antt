-- ===== src/Examples/Scans.antt =====
-- A small directory, its ignore patterns, and the view of Drive after one change.
use oxidrive.Base.{◌≡◌, refl, not, true, false, none, some, List, [], ◌∷◌, inl, map, ◌++◌}
use oxidrive.Text.{Text, text, text_cmp}
use oxidrive.TextMap.{TextMap, lookup, contains_key}
use oxidrive.Types.{LocalFile}
use oxidrive.Drive.{DriveFile, DriveChange}
use oxidrive.Drive.Listing.{local_names_in_assignment_order}
use oxidrive.Drive.ListingLaws.{IsDistinct, is_plain, filter, local_names_IsDistinct}
use oxidrive.Engine.View.{start_view, settle_changes}
use oxidrive.Engine.ViewKept.{KeepsView, settle_changes-IsConsistent}
use oxidrive.Scan.{is_ignored, effective_ignore_patterns}
use oxidrive.Scan.Glob.{glob_match}
use oxidrive.Scan.Meaning.{means}
use oxidrive.Scan.GlobLaws.{glob_match-means}
use oxidrive.Scan.Ignored.{internal_is_ignored}
use oxidrive.Scan.Walk.{Entries, entry, end, file, directory, symlink, scan_local}
use oxidrive.Scan.WalkLaws.{IsVisible, scan_local-IsVisible}
use oxidrive.Examples.World.{session, notes, drive_file, changed_drive_file}

glob_match-means_example :
    glob_match (text "aab/abab") (text "*b/?*b") ≡ some (means (text "*b/?*b") (text "aab/abab"))
glob_match-means_example = glob_match-means (text "aab/abab") (text "*b/?*b")

-- A file, a link and a directory with an ignored file and one more.
abbrev root : Entries
root = entry (text "a.md") (file (text "aa11") 100 7) (
    entry (text "link") symlink (
      entry (text "sub")
        (directory (
          entry (text "b.tmp") (file (text "bb22") 200 8)
            (entry (text "c.md") (file (text "cc33") 300 9) end)))
        end))

abbrev patterns : List Text
patterns = text "*.tmp" ∷ []

abbrev found : TextMap LocalFile
found =
    (text "a.md", record { path = text "a.md"; md5 = text "aa11"; mtime = 100; size = 7 })
    ∷ (text "sub/c.md", record { path = text "sub/c.md"; md5 = text "cc33"; mtime = 300; size = 9 })
    ∷ []

scan_local-IsVisible_example :
    ((f : LocalFile) → IsVisible patterns [] root f → contains_key f.path found ≡ true)
    × ((p : Text) (f : LocalFile)
        → lookup p found ≡ some f
        → (f.path ≡ p) × IsVisible patterns [] root f × (is_ignored p patterns ≡ false))
unfolding scan_local text_cmp
scan_local-IsVisible_example = scan_local-IsVisible root patterns found refl

internal_is_ignored_example :
    is_ignored
      (text ".oxidrive/state.redb")
      (effective_ignore_patterns (text "*.log" ∷ []) (some (text "token.json")))
    ≡ true
unfolding text_cmp
internal_is_ignored_example =
    internal_is_ignored (text ".oxidrive/state.redb") (text "*.log" ∷ []) (some (text "token.json"))
      (inl refl)

-- A file in a folder that is not known, and the removal of a known file.
abbrev arrival : DriveChange
arrival = record {
  file_id = text "drive-9";
  file = some (record drive_file { id = text "drive-9"; parents = text "folder-9" ∷ [] });
  removed = false;
  time = 500;
}

abbrev removal : DriveChange
removal = record { file_id = text "drive-1"; file = none; removed = true; time = 500 }

-- The known file is in the trash.
abbrev trashing : DriveChange
trashing = record {
  file_id = text "drive-1";
  file = some (record drive_file { trashed = true });
  removed = false;
  time = 600;
}

settle_changes-IsConsistent_example :
    KeepsView (settle_changes session (text "root") (arrival ∷ trashing ∷ []))
unfolding start_view text_cmp lookup
settle_changes-IsConsistent_example =
    settle_changes-IsConsistent session (text "root") (arrival ∷ trashing ∷ [])
      ((refl, tt), (λ t. cc), (tt, (λ t. (notes, refl)), tt))

-- Two Drive files with one name.
abbrev twins : List DriveFile
twins = drive_file ∷ changed_drive_file ∷ []

local_names_IsDistinct_example :
    (named : List (Text × DriveFile)) × (local_names_in_assignment_order twins ≡ some named)
    × IsDistinct (map (λ e. e.0) named)
    × (map (λ e. e.1) named ≡ filter is_plain twins ++ filter (λ f. not (is_plain f)) twins)
local_names_IsDistinct_example = local_names_IsDistinct twins

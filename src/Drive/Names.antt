-- ===== src/Drive/Names.antt =====
-- src/drive/types.rs: the local name of a Drive object, with its export extension.
use oxidrive.Base.{
  ℕ, ◌≡◌, refl, Bool, true, false, not, ◌&&◌, ◌||◌, Option, none, some, [], ◌∷◌, ◌++◌, arith,
  if◌then◌else◌,
}
use oxidrive.Text.{
  Text, text, text_eq, is_empty, rsplit_once, eq_ignore_ascii_case, starts_with, contains_char,
}
use oxidrive.Drive.{google_doc, google_sheet, google_slides, google_drawing, folder}

pub record ExportFormat : Type 0 where
  pub google_mime : Text
  pub export_mime : Text
  pub extension : Text

abbrev extension_matches : Text → Option (Text × Text) → Bool
extension_matches extension none = false
extension_matches extension (some (stem, ext)) =
    not (is_empty stem) && not (is_empty ext) && eq_ignore_ascii_case ext extension

name_has_extension : Text → Text → Bool
name_has_extension name extension = extension_matches extension (rsplit_once b'.' name)

unfoldable pub with_export_extension : Text → Text → Text
unfolding name_has_extension rsplit_once eq_ignore_ascii_case
with_export_extension name extension =
    if is_empty extension || name_has_extension name extension
    then name
    else name ++ b'.' ∷ extension

unfoldable pub export_format_sync : Text → Option ExportFormat
export_format_sync mime =
    if text_eq mime google_doc
    then some (record {
      google_mime = google_doc;
      export_mime = text "application/vnd.openxmlformats-officedocument.wordprocessingml.document";
      extension = text "docx";
    })
    else if text_eq mime google_sheet
    then some (record {
      google_mime = google_sheet;
      export_mime = text "application/vnd.openxmlformats-officedocument.spreadsheetml.sheet";
      extension = text "xlsx";
    })
    else if text_eq mime google_slides
    then some (record {
      google_mime = google_slides;
      export_mime =
          text "application/vnd.openxmlformats-officedocument.presentationml.presentation";
      extension = text "pptx";
    })
    else if text_eq mime google_drawing
    then some (record {
      google_mime = google_drawing;
      export_mime = text "image/svg+xml";
      extension = text "svg";
    })
    else none

abbrev sync_name : Text → Option ExportFormat → Text
sync_name name none = name
sync_name name (some fmt) = with_export_extension name fmt.extension

unfoldable pub local_sync_name : Text → Text → Text
unfolding export_format_sync with_export_extension
local_sync_name drive_name mime = sync_name drive_name (export_format_sync mime)

unfoldable pub is_google_workspace : Text → Bool
is_google_workspace mime =
    starts_with mime (text "application/vnd.google-apps.") && not (text_eq mime folder)

-- A text without the separator does not split.
pub rsplit_once-none : (d : ℕ) (s : Text) → contains_char d s ≡ false → rsplit_once d s ≡ none
unfolding rsplit_once contains_char
rsplit_once-none d [] h = refl
rsplit_once-none d (c ∷ s) h = ground (arith, rsplit_once-none d s)

pub rsplit_once-append :
    (d : ℕ) (s t : Text) → contains_char d t ≡ false → rsplit_once d (s ++ d ∷ t) ≡ some (s, t)
unfolding rsplit_once contains_char
rsplit_once-append d [] t h = ground (arith, rsplit_once-none d t h)
rsplit_once-append d (c ∷ s) t h = ground (arith, rsplit_once-append d s t h)

eq_ignore_ascii_case_refl : (s : Text) → eq_ignore_ascii_case s s ≡ true
unfolding eq_ignore_ascii_case
eq_ignore_ascii_case_refl [] = refl
eq_ignore_ascii_case_refl (c ∷ s) = ground (arith, eq_ignore_ascii_case_refl s)

with_export_extension_idem :
    (name ext : Text)
    → is_empty name ≡ false
    → contains_char b'.' ext ≡ false
    → with_export_extension (with_export_extension name ext) ext ≡ with_export_extension name ext
unfolding with_export_extension
with_export_extension_idem name ext f d =
    ground (arith, rsplit_once-append b'.' name ext d, eq_ignore_ascii_case_refl ext)

-- The extension of an export format has no dot.
abbrev PlainExtension : Option ExportFormat → Type 0
PlainExtension none = Unit
PlainExtension (some fmt) = contains_char b'.' fmt.extension ≡ false

export_format_sync-PlainExtension : (mime : Text) → PlainExtension (export_format_sync mime)
unfolding export_format_sync contains_char
export_format_sync-PlainExtension mime = ground arith

-- The local name of an object with a name does not grow when it is derived again: deriving the local
-- name of a local name gives that name back, for every MIME type.
pub local_sync_name_idem :
    (name mime : Text)
    → is_empty name ≡ false
    → local_sync_name (local_sync_name name mime) mime ≡ local_sync_name name mime
unfolding local_sync_name
local_sync_name_idem name mime f =
    go (export_format_sync mime) (export_format_sync-PlainExtension mime)
  where
    go :
        (o : Option ExportFormat)
        → PlainExtension o
        → sync_name (sync_name name o) o ≡ sync_name name o
    go none h = refl
    go (some fmt) h = with_export_extension_idem name fmt.extension f h

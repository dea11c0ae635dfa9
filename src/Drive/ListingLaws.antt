-- ===== src/Drive/ListingLaws.antt =====
-- The names of one folder are distinct, and no file is lost.
use oxidrive.Base.{
  ℕ, ◌≡◌, refl, ap, arith, Bool, true, false, not, none, some, List, [], ◌∷◌, ◌++◌, map, All,
  Bool-cases, Option-cases, inl, inr, if◌then◌else◌,
}
use oxidrive.Text.{Text, text, text_eq}
use oxidrive.TextMap.{TextMap, insert, contains_key}
use oxidrive.TextMap.Order.{IsOrdered, upsert-IsOrdered}
use oxidrive.TextMap.Laws.{lookup-insert_at}
use oxidrive.TextMap.Search.{first_free-total}
use oxidrive.Types.Path.{normalize_relative}
use oxidrive.Drive.{DriveFile}
use oxidrive.Drive.Names.{local_sync_name, export_format_sync}
use oxidrive.Drive.Listing.{
  split_file_name, suffixed, dedupe_name_for_folder, plain_and_exported, assign_names,
  local_names_in_assignment_order,
}
use oxidrive.Engine.PlacementLaws.{number-inj}

suffixed-inj : (name : Text) (i j : ℕ) → suffixed name i ≡ suffixed name j → i ≡ j
unfolding suffixed normalize_relative
suffixed-inj name i j h =
    let parts = split_file_name name in
    number-inj [] (parts.0 ++ text " (") parts.1 i j (ap normalize_relative h)

-- The search ends, at a name that is not taken.
dedupe-free :
    (name : Text) (m : TextMap Text)
    → (p : Text) × (dedupe_name_for_folder name m ≡ some p) × (contains_key p m ≡ false)
unfolding dedupe_name_for_folder
dedupe-free name m = elim (Bool-cases (contains_key name m)) [
  | inr e ↦ (name, rw e refl, e)
  | inl e ↦
      let (p, g, free) = first_free-total (suffixed name) m 2 (suffixed-inj name) in
      (p, rw e g, rw (contains_key, free) refl)
]

abbrev names_of : List (Text × DriveFile) → List Text
names_of named = map (λ e. e.0) named

-- No text of the list occurs twice.
abbrev pub IsDistinct : List Text → Type 0
IsDistinct [] = Unit
IsDistinct (n ∷ names) = All (λ k. text_eq k n ≡ false) names × IsDistinct names

abbrev IsFree : TextMap Text → List Text → Type 0
IsFree m names = All (λ k. contains_key k m ≡ false) names

insert-IsFree :
    (p id : Text) (m : TextMap Text) (names : List Text)
    → IsOrdered m
    → IsFree (insert p id m) names
    → All (λ k. text_eq k p ≡ false) names × IsFree m names
insert-IsFree p id m [] o h = (tt, tt)
insert-IsFree p id m (k ∷ names) o h =
    let (apart, free) = insert-IsFree p id m names o h.1 in
    let at = lookup-insert_at k p id m o in
    let first = h.0 in ((ground (arith, at, first), apart), (ground (arith, at, first), free))

assign_names-IsDistinct :
    (files : List DriveFile) (m : TextMap Text)
    → IsOrdered m
    → (named : List (Text × DriveFile)) × (assign_names files m ≡ some named)
      × (map (λ e. e.1) named ≡ files)
      × IsDistinct (names_of named)
      × IsFree m (names_of named)
unfolding assign_names
assign_names-IsDistinct [] m o = ([], refl, refl, tt, tt)
assign_names-IsDistinct (file ∷ files) m o =
    let (p, e, free) = dedupe-free (local_sync_name file.name file.mime_type) m in
    let (named, g, kept, distinct, fresh) =
      assign_names-IsDistinct files (insert p file.id m)
        (upsert-IsOrdered (λ _. file.id) p file.id m o) in
    let (apart, fresh') = insert-IsFree p file.id m (names_of named) o fresh in
    (
      (p, file) ∷ named,
      rw (assign_names, e, g) refl,
      ap (λ r. file ∷ r) kept,
      (apart, distinct),
      (free, fresh'),
    )

-- The files that keep their Drive name.
abbrev pub is_plain : DriveFile → Bool
is_plain file = elim (export_format_sync file.mime_type) [ none ↦ true | some fmt ↦ false ]

abbrev pub filter : (DriveFile → Bool) → List DriveFile → List DriveFile
filter keep [] = []
filter keep (file ∷ files) = let rest = filter keep files in if keep file then file ∷ rest else rest

plain_and_exported-filter :
    (files : List DriveFile)
    → plain_and_exported files ≡ (filter is_plain files, filter (λ f. not (is_plain f)) files)
plain_and_exported-filter [] = refl
plain_and_exported-filter (file ∷ files) = elim (Option-cases (export_format_sync file.mime_type)) [
  | inl e ↦ ground (arith, e, plain_and_exported-filter files)
  | inr (fmt, e) ↦ ground (arith, e, plain_and_exported-filter files)
]

-- The files of one folder always get names, no two the same. Each file of the listing gets one: the
-- named files are those of the listing that have no export format, and behind them the others, both
-- in the order of the listing and as often as they are in it.
pub local_names_IsDistinct :
    (files : List DriveFile)
    → (named : List (Text × DriveFile)) × (local_names_in_assignment_order files ≡ some named)
      × IsDistinct (map (λ e. e.0) named)
      × (map (λ e. e.1) named ≡ filter is_plain files ++ filter (λ f. not (is_plain f)) files)
unfolding local_names_in_assignment_order
local_names_IsDistinct files =
    let plain = filter is_plain files in
    let exported = filter (λ f. not (is_plain f)) files in
    let (named, e, kept, distinct, free) = assign_names-IsDistinct (plain ++ exported) [] tt in
    (named, rw (plain_and_exported-filter files) e, distinct, kept)

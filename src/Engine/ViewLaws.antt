-- ===== src/Engine/ViewLaws.antt =====
-- What the changes of Drive keep true of the incremental view: every path that is known for an id
-- holds the file with that id.
use oxidrive.Base.{
  ◌≡◌, refl, ap, ◌∙◌, inl, inr, Bool, true, false, not, Option, none, some, [], arith,
  if◌then◌else◌, Option-cases, Result, ok, err,
}
use oxidrive.Text.{Text, text_eq}
use oxidrive.TextMap.{TextMap, lookup}
use oxidrive.TextMap.Order.{IsOrdered, upsert-IsOrdered, remove-IsOrdered}
use oxidrive.Types.Path.{RelativePath}
use oxidrive.Drive.{DriveFile, DriveChange}
use oxidrive.Store.Session.{Store}
use oxidrive.Engine.Stub.{
  file_name_from_relative, remote_from_records, remote_from_records-IsOrdered,
}
use oxidrive.Engine.Placement.{place_without_clobber}
use oxidrive.Engine.PlacementLaws.{place_without_clobber_safe}
use oxidrive.Engine.ViewLinks.{IsLinked, forget-IsLinked, place-IsLinked, ids_of-IsLinked}
use oxidrive.Engine.View.{
  View, apply, ViewError, resolve_known, resolve_change_path, forget, place_file, apply_file,
  apply_remote_change, start_view, has_parent, parent_relative_str,
}
use oxidrive.Drive.Names.{local_sync_name}

-- The maps of the view are maps, and every path that is known for an id holds the file with that id.
abbrev pub IsConsistent : View → Type 0
IsConsistent v = IsOrdered v.remote × IsOrdered v.id_to_path × IsLinked v.remote v.id_to_path

forget-IsConsistent :
    (v : View) (path : RelativePath) (file_id : Text)
    → IsConsistent v
    → lookup file_id v.id_to_path ≡ some path
    → IsConsistent (forget path file_id v)
forget-IsConsistent v path file_id (o, oi, linked) tracked = (
  remove-IsOrdered path v.remote o,
  remove-IsOrdered file_id v.id_to_path oi,
  forget-IsLinked v.remote v.id_to_path path file_id linked tracked,
)

-- The view that an operation gives, if it gives one, is consistent.
abbrev pub KeepsConsistent : {E : Type 0} → Result E View → Type 0
KeepsConsistent (ok v) = IsConsistent v
KeepsConsistent (err e) = Unit

place_file-KeepsConsistent :
    (file : DriveFile) (v : View) (path : RelativePath)
    → IsConsistent v
    → KeepsConsistent (place_file file v (place_without_clobber v.remote path file.id))
place_file-KeepsConsistent file v path (o, oi, linked) =
    let (p, e, free) = place_without_clobber_safe v.remote path file.id in
    rw e (
      upsert-IsOrdered _ p file v.remote o,
      upsert-IsOrdered _ file.id p v.id_to_path oi,
      place-IsLinked v.remote v.id_to_path p file o oi linked free,
    )

abbrev if-Keeps :
    {E : Type 0} (b : Bool) (x y : Result E View)
    → (b ≡ true → KeepsConsistent x)
    → KeepsConsistent y
    → KeepsConsistent (if b then x else y)
if-Keeps true x y h g = h refl
if-Keeps false x y h g = g

-- A file in the trash is removed only from the path that is known for it.
abbrev pub IsTracked : Text → View → RelativePath → Option DriveFile → Type 0
IsTracked id v path none = Unit
IsTracked id v path (some f) = f.trashed ≡ true → lookup id v.id_to_path ≡ some path

apply_file-KeepsConsistent :
    (c : DriveChange) (path : RelativePath) (f : Option DriveFile) (v : View)
    → IsConsistent v
    → IsTracked c.file_id v path f
    → KeepsConsistent (apply_file c path f v)
apply_file-KeepsConsistent c path none v ok_v tracked = tt
apply_file-KeepsConsistent c path (some f) v ok_v tracked =
    if-Keeps f.trashed (ok (forget path c.file_id v))
      (place_file f v (place_without_clobber v.remote path f.id))
      (λ t. forget-IsConsistent v path c.file_id ok_v (tracked t))
      (place_file-KeepsConsistent f v path ok_v)

resolved-apply :
    (c : DriveChange) (existing path : RelativePath) (f : Option DriveFile) (folders : TextMap Text)
    (root_id : Text)
    → resolve_known c existing f folders root_id ≡ ok (apply path)
    → existing ≡ path
resolved-apply c existing path none folders root_id h = cc
resolved-apply c existing path (some f) folders root_id h =
    let current = file_name_from_relative existing in
    let incoming = local_sync_name f.name f.mime_type in
    let here = has_parent f.parents (parent_relative_str existing) root_id folders in
    go (ViewError.remote_rename c.file_id current incoming)
      (ViewError.remote_move c.file_id existing) (text_eq incoming current) here h
  where
    go :
        (d e : ViewError) (same here : Bool)
        → (if not same then err d else if not here then err e else ok (apply existing))
          ≡ ok (apply path)
        → existing ≡ path
    go d e true true h = cc
    go d e true false h = cc
    go d e false here h = cc

-- A change of an id with a known path is applied at that path.
pub known-tracked :
    (c : DriveChange) (v : View) (root_id : Text) (p path : RelativePath)
    → lookup c.file_id v.id_to_path ≡ some p
    → resolve_change_path c v root_id ≡ ok (apply path)
    → lookup c.file_id v.id_to_path ≡ some path
unfolding resolve_change_path
known-tracked c v root_id p path e h =
    let known : resolve_known c p c.file v.folder_by_id root_id ≡ ok (apply path) =
      ground (arith, e, h) in
    e ∙ ap some (resolved-apply c p path c.file v.folder_by_id root_id known)

-- A removed file is resolved to the path that is known for it.
removed-tracked :
    (c : DriveChange) (v : View) (root_id : Text) (path : RelativePath)
    → resolve_change_path c v root_id ≡ ok (apply path)
    → c.removed ≡ true
    → lookup c.file_id v.id_to_path ≡ some path
unfolding resolve_change_path
removed-tracked c v root_id path h t = elim (Option-cases (lookup c.file_id v.id_to_path)) [
  | inl e ↦ ground (arith, e, t, h)
  | inr (p, e) ↦ known-tracked c v root_id p path e h
]

pub apply_remote_change-KeepsConsistent :
    (c : DriveChange) (path : RelativePath) (v : View) (root_id : Text)
    → IsConsistent v
    → resolve_change_path c v root_id ≡ ok (apply path)
    → IsTracked c.file_id v path c.file
    → KeepsConsistent (apply_remote_change c path v)
unfolding apply_remote_change
apply_remote_change-KeepsConsistent c path v root_id ok_v h tracked =
    if-Keeps c.removed (ok (forget path c.file_id v)) (apply_file c path c.file v)
      (λ t. forget-IsConsistent v path c.file_id ok_v (removed-tracked c v root_id path h t))
      (apply_file-KeepsConsistent c path c.file v ok_v tracked)

pub start_view-IsConsistent :
    (store : Store) (root_id : Text) → IsConsistent (start_view store root_id)
unfolding start_view lookup
start_view-IsConsistent store root_id =
    let remote = remote_from_records store root_id in
    let o = remote_from_records-IsOrdered store root_id in
    let (oi, linked) = ids_of-IsLinked remote remote [] (λ p f h. h) o tt (λ id p h. cc) in
    (o, oi, linked)

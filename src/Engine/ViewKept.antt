-- ===== src/Engine/ViewKept.antt =====
-- The loop over Drive's changes keeps the incremental view consistent.
use mathlib.Core.Path.{subst}
use oxidrive.Base.{
  ℕ, zero, suc, ◌≡◌, sym, inl, inr, Bool, true, false, Option, none, some, List, [], ◌∷◌, ◌||◌,
  ◌==◌, arith, if◌then◌else◌, All, length, Bool-cases, Result, ok, err, Result-cases,
}
use oxidrive.Text.{Text, text_eq}
use oxidrive.Text.Order.{text_eq_iff}
use oxidrive.TextMap.{lookup}
use oxidrive.TextMap.Laws.{lookup-insert_at, lookup-remove}
use oxidrive.Types.Path.{RelativePath}
use oxidrive.Drive.{DriveFile, DriveChange}
use oxidrive.Store.Session.{Store}
use oxidrive.Engine.Placement.{place_without_clobber}
use oxidrive.Engine.PlacementLaws.{place_without_clobber_safe}
use oxidrive.Engine.View.{
  View, apply, later, skip, ViewError, resolve_change_path, forget, place_file, apply_file,
  apply_remote_change, Pass, one_applied, defer, one_pass, is_nil, passes, start_view,
  settle_changes,
}
use oxidrive.Engine.ViewLaws.{
  IsConsistent, KeepsConsistent, IsTracked, known-tracked, apply_remote_change-KeepsConsistent,
  start_view-IsConsistent,
}

-- No change of the list is about that id.
abbrev pub IsApart : Text → List DriveChange → Type 0
IsApart id changes = All (λ c. text_eq id c.file_id ≡ false) changes

abbrev pub IsKnown : Text → View → Type 0
IsKnown id v = (path : RelativePath) × (lookup id v.id_to_path ≡ some path)

-- A change that reports a file in the trash is about an id that the view knows.
abbrev pub IsTrashKnown : View → Text → Option DriveFile → Type 0
IsTrashKnown v id none = Unit
IsTrashKnown v id (some f) = f.trashed ≡ true → IsKnown id v

-- Each id has one change at most, and is known if the change reports its file in the trash.
abbrev pub AreSound : View → List DriveChange → Type 0
AreSound v [] = Unit
AreSound v (c ∷ changes) =
    IsApart c.file_id changes × IsTrashKnown v c.file_id c.file × AreSound v changes

-- What is known about other ids stays known.
abbrev KeepsKnown : Text → View → View → Type 0
KeepsKnown id v w = (x : Text) → text_eq x id ≡ false → IsKnown x v → IsKnown x w

forget-KeepsKnown :
    (path : RelativePath) (id : Text) (v : View) → KeepsKnown id v (forget path id v)
forget-KeepsKnown path id v x apart (p, e) =
    (p, ground (arith, e, apart, lookup-remove x id v.id_to_path))

abbrev ResultKeeps : Text → View → Result ViewError View → Type 0
ResultKeeps id v (ok w) = KeepsKnown id v w
ResultKeeps id v (err e) = Unit

if-ResultKeeps :
    (b : Bool) (id : Text) (v : View) (r s : Result ViewError View)
    → ResultKeeps id v r
    → ResultKeeps id v s
    → ResultKeeps id v (if b then r else s)
if-ResultKeeps true id v r s h g = h
if-ResultKeeps false id v r s h g = g

place_file-ResultKeeps :
    (file : DriveFile) (id : Text) (v : View) (path : RelativePath)
    → IsConsistent v
    → ResultKeeps id v (place_file file v (place_without_clobber v.remote path file.id))
place_file-ResultKeeps file id v path (o, oi, linked) =
    let (p, e, free) = place_without_clobber_safe v.remote path file.id in
    rw e (λ x apart (q, known). elim (Bool-cases (text_eq x file.id)) [
      | inl same ↦ (p, ground (arith, same, lookup-insert_at x file.id p v.id_to_path oi))
      | inr other ↦ (q, ground (arith, other, known, lookup-insert_at x file.id p v.id_to_path oi))
    ])

apply_file-ResultKeeps :
    (c : DriveChange) (path : RelativePath) (f : Option DriveFile) (v : View)
    → IsConsistent v
    → ResultKeeps c.file_id v (apply_file c path f v)
apply_file-ResultKeeps c path none v ok_v = tt
apply_file-ResultKeeps c path (some f) v ok_v =
    if-ResultKeeps f.trashed c.file_id v (ok (forget path c.file_id v))
      (place_file f v (place_without_clobber v.remote path f.id))
      (forget-KeepsKnown path c.file_id v) (place_file-ResultKeeps f c.file_id v path ok_v)

apply_remote_change-ResultKeeps :
    (c : DriveChange) (path : RelativePath) (v : View)
    → IsConsistent v
    → ResultKeeps c.file_id v (apply_remote_change c path v)
unfolding apply_remote_change
apply_remote_change-ResultKeeps c path v ok_v =
    if-ResultKeeps c.removed c.file_id v (ok (forget path c.file_id v)) (apply_file c path c.file v)
      (forget-KeepsKnown path c.file_id v) (apply_file-ResultKeeps c path c.file v ok_v)

known-IsTracked :
    (c : DriveChange) (v : View) (root_id : Text) (path : RelativePath) (f : Option DriveFile)
    → resolve_change_path c v root_id ≡ ok (apply path)
    → IsTrashKnown v c.file_id f
    → IsTracked c.file_id v path f
known-IsTracked c v root_id path none h known = tt
known-IsTracked c v root_id path (some f) h known =
    λ trashed. let (p, e) = known trashed in known-tracked c v root_id p path e h

IsTrashKnown-mono :
    (v w : View) (id : Text) (f : Option DriveFile)
    → (IsKnown id v → IsKnown id w)
    → IsTrashKnown v id f
    → IsTrashKnown w id f
IsTrashKnown-mono v w id none k h = tt
IsTrashKnown-mono v w id (some f) k h = λ t. k (h t)

text_eq_sym : (a b : Text) → text_eq a b ≡ false → text_eq b a ≡ false
text_eq_sym a b h = elim (Bool-cases (text_eq b a)) [
  | inr e ↦ e
  | inl e ↦ absurd (apart (sym ((text_eq_iff b a).0 e)))
]
  where
    apart : a ≡ b → ⊥
    apart e = let same = (text_eq_iff a b).1 e in absurd (ground (arith, same, h))

AreSound-mono :
    (id : Text) (v w : View) (changes : List DriveChange)
    → KeepsKnown id v w
    → IsApart id changes
    → AreSound v changes
    → AreSound w changes
AreSound-mono id v w [] k a s = tt
AreSound-mono id v w (c ∷ changes) k (e, a) (apart, known, s) = (
  apart,
  IsTrashKnown-mono v w c.file_id c.file (k c.file_id (text_eq_sym id c.file_id e)) known,
  AreSound-mono id v w changes k a s,
)

-- What one pass gives, unless an error.
abbrev PassKeeps : List DriveChange → View → Result ViewError Pass → Type 0
PassKeeps pending v (ok p) =
    IsConsistent p.view
    × AreSound p.view p.deferred
    × ((x : Text) → IsApart x pending → IsKnown x v → IsKnown x p.view)
    × ((x : Text) → IsApart x pending → IsApart x p.deferred)
PassKeeps pending v (err e) = Unit

applied-PassKeeps :
    (c : DriveChange) (pending : List DriveChange) (v w : View) (r : Result ViewError Pass)
    → KeepsKnown c.file_id v w
    → PassKeeps pending w r
    → PassKeeps (c ∷ pending) v (one_applied r)
applied-PassKeeps c pending v w (err e) k h = tt
applied-PassKeeps c pending v w (ok p) k (good, sound, known, apart) =
    (good, sound, λ x a i. known x a.1 (k x a.0 i), λ x a. apart x a.1)

deferred-PassKeeps :
    (c : DriveChange) (pending : List DriveChange) (v : View) (r : Result ViewError Pass)
    → IsApart c.file_id pending
    → IsTrashKnown v c.file_id c.file
    → PassKeeps pending v r
    → PassKeeps (c ∷ pending) v (defer c r)
deferred-PassKeeps c pending v (err e) d t h = tt
deferred-PassKeeps c pending v (ok p) d t (good, sound, known, apart) = (
  good,
  (apart c.file_id d, IsTrashKnown-mono v p.view c.file_id c.file (known c.file_id d) t, sound),
  λ x a i. known x a.1 i,
  λ x a. (a.0, apart x a.1),
)

skipped-PassKeeps :
    (c : DriveChange) (pending : List DriveChange) (v : View) (r : Result ViewError Pass)
    → PassKeeps pending v r
    → PassKeeps (c ∷ pending) v r
skipped-PassKeeps c pending v (err e) h = tt
skipped-PassKeeps c pending v (ok p) (good, sound, known, apart) =
    (good, sound, λ x a i. known x a.1 i, λ x a. apart x a.1)

one_pass-PassKeeps :
    (pending : List DriveChange) (root_id : Text) (v : View)
    → IsConsistent v
    → AreSound v pending
    → PassKeeps pending v (one_pass pending root_id v)
unfolding one_pass
one_pass-PassKeeps [] root_id v good s = (good, tt, λ x a i. i, λ x a. tt)
one_pass-PassKeeps (c ∷ pending) root_id v good (apart, known, s) =
    elim (Result-cases (resolve_change_path c v root_id)) [
      | inr (e, f) ↦ rw (one_pass, f) tt
      | inl (later, f) ↦
          rw (one_pass, f)
            (deferred-PassKeeps c pending v (one_pass pending root_id v) apart known
              (one_pass-PassKeeps pending root_id v good s))
      | inl (skip, f) ↦
          rw (one_pass, f)
            (skipped-PassKeeps c pending v (one_pass pending root_id v)
              (one_pass-PassKeeps pending root_id v good s))
      | inl (apply path, f) ↦ elim (Result-cases (apply_remote_change c path v)) [
        | inr (e, g) ↦ rw (one_pass, f, g) tt
        | inl (w, g) ↦
            let kept : KeepsKnown c.file_id v w =
              subst (ResultKeeps c.file_id v) g (apply_remote_change-ResultKeeps c path v good) in
            let good' : IsConsistent w = subst KeepsConsistent g (
              apply_remote_change-KeepsConsistent c path v root_id good f
                (known-IsTracked c v root_id path c.file f known)) in
            rw (one_pass, f, g)
              (applied-PassKeeps c pending v w (one_pass pending root_id w) kept (
                one_pass-PassKeeps pending root_id w good'
                  (AreSound-mono c.file_id v w pending kept apart s)))
      ]
    ]

abbrev pub KeepsView : Result ViewError Pass → Type 0
KeepsView (ok p) = IsConsistent p.view
KeepsView (err e) = Unit

passes-KeepsView :
    (fuel : ℕ) (pending : List DriveChange) (root_id : Text) (v : View)
    → IsConsistent v
    → AreSound v pending
    → KeepsView (passes fuel pending root_id v)
unfolding passes one_pass
passes-KeepsView zero pending root_id v good s = tt
passes-KeepsView (suc fuel) pending root_id v good s =
    go (one_pass pending root_id v) (one_pass-PassKeeps pending root_id v good s)
      (λ d w. passes-KeepsView fuel d root_id w)
  where
    go :
        (r : Result ViewError Pass)
        → PassKeeps pending v r
        → ((d : List DriveChange) (w : View)
            → IsConsistent w
            → AreSound w d
            → KeepsView (passes fuel d root_id w))
        → KeepsView (elim r [
          | err e ↦ err e
          | ok p ↦ elim (is_nil p.deferred || p.applied == 0) [
            | true ↦ ok p
            | false ↦ passes fuel p.deferred root_id p.view
          ]
        ])
    go (err e) h next = tt
    go (ok p) (good', s', _, _) next = elim (Bool-cases (is_nil p.deferred || p.applied == 0)) [
      | inl t ↦ rw t good'
      | inr t ↦ rw t (next p.deferred p.view good' s')
    ]

-- Let the list hold at most one change for each id, and let each change that reports a file in the
-- trash be about an id that the view made of the records knows. The view that the loop over the
-- changes ends with, if not with an error, is then consistent: its maps are maps, and every path
-- that is known for an id holds the Drive file with that id.
pub settle_changes-IsConsistent :
    (store : Store) (root_id : Text) (changes : List DriveChange)
    → AreSound (start_view store root_id) changes
    → KeepsView (settle_changes store root_id changes)
unfolding settle_changes
settle_changes-IsConsistent store root_id changes s =
    passes-KeepsView (suc (length changes)) changes root_id (start_view store root_id)
      (start_view-IsConsistent store root_id) s

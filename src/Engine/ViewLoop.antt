-- ===== src/Engine/ViewLoop.antt =====
-- The passes over Drive's changes end, and what they leave over cannot be placed.
use oxidrive.Base.{◌+◌, ◌≤◌, ◌≡◌, ◌≢◌, List, length, All, Result, ok, err}
use oxidrive.Text.{Text}
use oxidrive.TextMap.{TextMap}
use oxidrive.Drive.{DriveChange}
use oxidrive.Store.Session.{Store}
use oxidrive.Engine.View.{View, later, ViewError, out_of_fuel, resolve_change_path, Pass}

-- The error is one of the source's.
abbrev IsProper : {A : Type 0} → Result ViewError A → Type 0
IsProper (ok a) = Unit
IsProper (err e) = e ≢ out_of_fuel

-- No change of the list has a place in this view.
abbrev pub IsStuck : Text → View → List DriveChange → Type 0
IsStuck root_id v = All (λ c. resolve_change_path c v root_id ≡ ok later)

-- A pass that placed nothing left the view as it was.
abbrev IsStill : Text → View → Pass → Type 0
IsStill root_id v p = (p.view ≡ v) × IsStuck root_id v p.deferred

-- What one pass over these changes comes to.
abbrev IsGood : List DriveChange → Text → View → Result ViewError Pass → Type 0
IsGood pending root_id v (err e) = e ≢ out_of_fuel
IsGood pending root_id v (ok p) =
    (length p.deferred + p.applied ≤ length pending) × (p.applied ≡ 0 → IsStill root_id v p)

-- The passes ended with an error of the source's, or with changes left over that have no place in
-- the view they ended with.
abbrev pub IsSettled : Text → Result ViewError Pass → Type 0
IsSettled root_id (err e) = e ≢ out_of_fuel
IsSettled root_id (ok p) = IsStuck root_id p.view p.deferred

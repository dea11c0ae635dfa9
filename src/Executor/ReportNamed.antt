-- ===== src/Executor/ReportNamed.antt =====
-- What the report of `execute` says of a path, which stays in the report.
use oxidrive.Base.{◌≡◌, ◌⊎◌, inl, inr, [], ◌∷◌, IsIn}
use oxidrive.Types.Path.{RelativePath}
use oxidrive.Executor.Effects.{ExecError}
use oxidrive.Executor.Outcomes.{IsLocalName}
use oxidrive.Executor.ReportGrows.{IsLasting}
use oxidrive.Executor.ReportOwed.{IsIn-append}
use oxidrive.Executor.Upload.{Outcome, uploaded, downloaded, deleted_remote, mismatch, skipped}
use oxidrive.Executor.DeleteLocal.{SyncReport}
use oxidrive.Executor.Execute.{Task, upload_task, download_task, trash_task, apply_outcome}

abbrev pub HasError : RelativePath → SyncReport → Type 0
HasError path r = (e : ExecError) × IsIn (path, e) r.errors

-- What the report says of an upload of `path`, where `H` is the reason for leaving it out.
abbrev pub SaysUpload : Type 0 → RelativePath → SyncReport → Type 0
SaysUpload H path r = IsIn path r.uploaded ⊎ IsIn path r.conflicts ⊎ HasError path r ⊎ H

abbrev pub SaysDownload : RelativePath → SyncReport → Type 0
SaysDownload path r =
    ((q : RelativePath) × IsLocalName path q × IsIn q r.downloaded) ⊎ HasError path r

-- The lists of a report only grow.
uploaded-IsLasting : (p : RelativePath) → IsLasting (λ r. IsIn p r.uploaded)
unfolding apply_outcome
uploaded-IsLasting p = record {
  outcome = go;
  error = λ x e r q. q;
  conflict = λ x r q. q;
  skip = λ r q. q;
  deleted = λ x r q. q;
}
  where
    go : (r : SyncReport) (o : Outcome) → IsIn p r.uploaded → IsIn p (apply_outcome r o).uploaded
    go r (uploaded x) q = IsIn-append p r.uploaded (x ∷ []) q
    go r (downloaded x) q = q
    go r (deleted_remote x) q = q
    go r (mismatch x id f) q = q
    go r skipped q = q

downloaded-IsLasting : (p : RelativePath) → IsLasting (λ r. IsIn p r.downloaded)
unfolding apply_outcome
downloaded-IsLasting p = record {
  outcome = go;
  error = λ x e r q. q;
  conflict = λ x r q. q;
  skip = λ r q. q;
  deleted = λ x r q. q;
}
  where
    go :
        (r : SyncReport) (o : Outcome) → IsIn p r.downloaded → IsIn p (apply_outcome r o).downloaded
    go r (downloaded x) q = IsIn-append p r.downloaded (x ∷ []) q
    go r (uploaded x) q = q
    go r (deleted_remote x) q = q
    go r (mismatch x id f) q = q
    go r skipped q = q

pub conflicts-IsLasting : (p : RelativePath) → IsLasting (λ r. IsIn p r.conflicts)
unfolding apply_outcome
conflicts-IsLasting p = record {
  outcome = go;
  error = λ x e r q. q;
  conflict = λ x r q. IsIn-append p r.conflicts (x ∷ []) q;
  skip = λ r q. q;
  deleted = λ x r q. q;
}
  where
    go : (r : SyncReport) (o : Outcome) → IsIn p r.conflicts → IsIn p (apply_outcome r o).conflicts
    go r (downloaded x) q = q
    go r (uploaded x) q = q
    go r (deleted_remote x) q = q
    go r (mismatch x id f) q = q
    go r skipped q = q

HasError-IsLasting : (p : RelativePath) → IsLasting (HasError p)
unfolding apply_outcome
HasError-IsLasting p = record {
  outcome = go;
  error = λ x e r (f, i). (f, IsIn-append (p, f) r.errors ((x, e) ∷ []) i);
  conflict = λ x r q. q;
  skip = λ r q. q;
  deleted = λ x r q. q;
}
  where
    go : (r : SyncReport) (o : Outcome) → HasError p r → HasError p (apply_outcome r o)
    go r (downloaded x) q = q
    go r (uploaded x) q = q
    go r (deleted_remote x) q = q
    go r (mismatch x id f) q = q
    go r skipped q = q

const-IsLasting : (H : Type 0) → IsLasting (λ r. H)
const-IsLasting H = record {
  outcome = λ r o q. q;
  error = λ x e r q. q;
  conflict = λ x r q. q;
  skip = λ r q. q;
  deleted = λ x r q. q;
}

either : {A B A' B' : Type 0} → (A → A') → (B → B') → A ⊎ B → A' ⊎ B'
either f g (inl a) = inl (f a)
either f g (inr b) = inr (g b)

either-IsLasting :
    (Q R : SyncReport → Type 0) → IsLasting Q → IsLasting R → IsLasting (λ r. Q r ⊎ R r)
either-IsLasting Q R L M = record {
  outcome = λ r o. either (L.outcome r o) (M.outcome r o);
  error = λ x e r. either (L.error x e r) (M.error x e r);
  conflict = λ x r. either (L.conflict x r) (M.conflict x r);
  skip = λ r. either (L.skip r) (M.skip r);
  deleted = λ x r. either (L.deleted x r) (M.deleted x r);
}

pub SaysUpload-IsLasting : (H : Type 0) (path : RelativePath) → IsLasting (SaysUpload H path)
SaysUpload-IsLasting H path = either-IsLasting _ _ (uploaded-IsLasting path) (
    either-IsLasting _ _ (conflicts-IsLasting path)
      (either-IsLasting _ _ (HasError-IsLasting path) (const-IsLasting H)))

named-IsLasting :
    (path : RelativePath)
    → IsLasting (λ r. (q : RelativePath) × IsLocalName path q × IsIn q r.downloaded)
named-IsLasting path = record {
  outcome = λ r o (q, n, i). (q, n, (downloaded-IsLasting q).outcome r o i);
  error = λ x e r q. q;
  conflict = λ x r q. q;
  skip = λ r q. q;
  deleted = λ x r q. q;
}

pub SaysDownload-IsLasting : (path : RelativePath) → IsLasting (SaysDownload path)
SaysDownload-IsLasting path = either-IsLasting _ _ (named-IsLasting path) (HasError-IsLasting path)

abbrev pub IsUploadOf : RelativePath → Task → Type 0
IsUploadOf path (upload_task q id row guarded) = q ≡ path
IsUploadOf path (download_task q id row) = ⊥
IsUploadOf path (trash_task q id) = ⊥

abbrev pub IsDownloadOf : RelativePath → Task → Type 0
IsDownloadOf path (download_task q id row) = q ≡ path
IsDownloadOf path (upload_task q id row guarded) = ⊥
IsDownloadOf path (trash_task q id) = ⊥

abbrev pub IsNoTask : Task → Type 0
IsNoTask t = ⊥

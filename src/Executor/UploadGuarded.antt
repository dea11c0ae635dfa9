-- ===== src/Executor/UploadGuarded.antt =====
-- A guarded upload over a Drive file that somebody else changed does not write to Drive.
use oxidrive.Base.{
  ◌≡◌, ap, ◌∙◌, Bool, true, false, not, ◌&&◌, leb, Option, none, some, if◌then◌else◌, arith,
}
use oxidrive.Text.{Text}
use oxidrive.TextMap.{TextMap, lookup}
use oxidrive.Types.{
  Timestamp, SyncRecord, PendingOp, PendingOpKind, side_effect_started, UploadSessionMode,
  WorkspaceConversion,
}
use oxidrive.Types.Path.{RelativePath}
use oxidrive.Drive.{DriveFile}
use oxidrive.Drive.Upload.{ResumableUploadState}
use oxidrive.Store.Table.{Table, Codec}
use oxidrive.Store.Session.{get}
use oxidrive.Executor.Guard.{RevisionGuard, revision_guard_matches, revision_guard_from_record}
use oxidrive.Executor.Guarded.{
  GuardedUpdate, updated, revision_mismatch, is_none, from_expected,
  resumable_upload_threshold_bytes, update_file_media_guarded, preflight_revision_mismatch,
  update_file_with_resume_guarded,
}
use oxidrive.Executor.Effects.{World, Exec, Client, Disk, of_store, ask, pure}
use oxidrive.Executor.Effects.Hoare.{Ensures, Ensures-pure, Ensures-if, Ensures-then, Ensures-learn}
use oxidrive.Executor.Effects.Keeps.{
  IfOk, IsFrame, Keeps-read, Keeps-stage, Keeps-clear, Learns-heard,
}
use oxidrive.Executor.Upload.{Outcome, uploaded, Candidate}
use oxidrive.Executor.RunUpload.{
  existing_media, convert_media, unless_changed, finish_existing, upload_existing,
}
use oxidrive.Executor.UploadLaws.{Keeps-resume_state}

module _ (T : Table) (P : Codec PendingOp) {D F : Type 0} (C : Client D F) (K : Disk F)
    (to_rfc3339 : Timestamp → Text) (parse_from_rfc3339 : Text → Option Timestamp)
    (device_id : Text) (now : Timestamp) (path : RelativePath) (id : Text) (rs : TextMap SyncRecord)
    (cs : TextMap WorkspaceConversion) (Q : D → Type 0) where
  abbrev guard : RevisionGuard
  guard = revision_guard_from_record (lookup path rs)

  -- The Drive file never matches the guard of the record, and looking at it keeps the property.
  pub record Changed : Type 0 where
    pub differs :
        (d : D)
        → IfOk
            (λ r. revision_guard_matches to_rfc3339 r guard ≡ false)
            (C.get_file_metadata_preflight id d).0
    pub preflight : (d : D) → Q d → Q (C.get_file_metadata_preflight id d).1
    pub metadata : (d : D) → Q d → Q (C.get_file_metadata id d).1

  -- The records and the conversions are these, and Drive's state has the property.
  abbrev pub Untouched : World T.State D F → Type 0
  Untouched w = (w.store.records ≡ rs) × (w.store.conversions ≡ cs) × Q w.drive

  pub frame : IsFrame Untouched Untouched
  frame = record { sessions = λ w u h. h; journal = λ w t h. h; fails = λ w h. h }

  abbrev IsMismatch : GuardedUpdate → Type 0
  IsMismatch (updated r) = ⊥
  IsMismatch (revision_mismatch r) = Unit

  abbrev IsRefused : GuardedUpdate → World T.State D F → Type 0
  IsRefused g w = Untouched w × IsMismatch g

  same_guard :
      (g : RevisionGuard) (r : DriveFile)
      → is_none g.remote_fingerprint ≡ true
      → is_none g.modified_time ≡ true
      → revision_guard_matches to_rfc3339 r (from_expected g.head_revision_id g.version)
        ≡ revision_guard_matches to_rfc3339 r g
  unfolding revision_guard_matches
  same_guard g r e h = ground (arith, e, h)

  pub learns_record :
      Ensures Untouched (of_store (get path)) (λ v w. Untouched w × (v ≡ lookup path rs)) Untouched
  unfolding get
  learns_record = record { at = λ w h. (h, ap (lookup path) h.0) }

  module _ (changed : Changed) where
    abbrev Heard : DriveFile → Type 0
    Heard r = revision_guard_matches to_rfc3339 r guard ≡ false

    look_lem :
        Ensures Untouched
          (ask (C.get_file_metadata_preflight id))
          (λ r w. Untouched w × (Heard r))
          Untouched
    look_lem =
        Learns-heard frame _ (λ w h. (h.0, h.1, changed.preflight w.drive h.2)) changed.differs

    refuse_lem :
        (b : Bool) (r : DriveFile) (m : Exec (World T.State D F) GuardedUpdate)
        → b ≡ false
        → Ensures Untouched (if not b then pure (revision_mismatch r) else m) IsRefused Untouched
    refuse_lem b r m h =
        Ensures-if (not b) _ _ (λ _. Ensures-pure _ (λ w x. (x, tt)))
          (λ e. absurd (ground (arith, h, e)))

    media_guarded_lem :
        is_none guard.remote_fingerprint ≡ true
        → is_none guard.modified_time ≡ true
        → Ensures Untouched
            (update_file_media_guarded {S = T.State} C K to_rfc3339 path id guard.head_revision_id
              guard.version)
            IsRefused
            Untouched
    unfolding update_file_media_guarded
    media_guarded_lem e h =
        Ensures-learn _ _ look_lem (λ r x. refuse_lem _ r _ (same_guard guard r e h ∙ x))

    update_guarded_lem :
        (mode : UploadSessionMode) (md5 : Text) (resume : Option ResumableUploadState)
        → Ensures Untouched
            (update_file_with_resume_guarded {S = T.State} C K to_rfc3339 path mode md5 now id guard
              resume)
            IsRefused
            Untouched
    unfolding update_file_with_resume_guarded
    update_guarded_lem mode md5 resume = Ensures-then _ _ (Keeps-read frame _) (λ meta.
        Ensures-if
          (leb meta.len resumable_upload_threshold_bytes
            && is_none guard.remote_fingerprint
            && is_none guard.modified_time)
          _ _ (λ b. media_guarded_lem (ground (arith, b)) (ground (arith, b)))
          (λ _. Ensures-learn _ _ look_lem (λ r x. refuse_lem _ r _ x)))

    -- What the preflight of a conversion found.
    abbrev IsChanged : Option DriveFile → Type 0
    IsChanged none = ⊥
    IsChanged (some r) = Unit

    preflight_lem :
        Ensures Untouched
          (preflight_revision_mismatch {S = T.State} C K to_rfc3339 path id guard)
          (λ o w. Untouched w × IsChanged o)
          Untouched
    unfolding preflight_revision_mismatch
    preflight_lem = Ensures-learn _ _ look_lem (λ r x. Ensures-pure _ (λ w h. (h, rw x tt)))

    existing_media_lem :
        (c : Candidate) (mode : UploadSessionMode) (resume : Option ResumableUploadState)
        (conv : Option WorkspaceConversion)
        → c.existing_record ≡ lookup path rs
        → Ensures Untouched
            (existing_media T P C K to_rfc3339 parse_from_rfc3339 device_id now path true c id mode
              resume conv)
            IsRefused
            Untouched
    unfolding existing_media
    existing_media_lem c mode resume none e = rw e (update_guarded_lem mode c.local_md5 resume)
    existing_media_lem c mode resume (some v) e = rw e (Ensures-learn _ _ preflight_lem go)
      where
        go :
            (o : Option DriveFile)
            → IsChanged o
            → Ensures Untouched
                (unless_changed T P C K to_rfc3339 parse_from_rfc3339 device_id now path o (
                  convert_media T P C K to_rfc3339 parse_from_rfc3339 device_id now path c id v mode
                    resume))
                IsRefused
                Untouched
        go none x = absurd x
        go (some r) x = Ensures-pure _ (λ w h. (h, tt))

    -- The outcomes of an upload that did not take place.
    abbrev pub NotUploaded : Outcome → Type 0
    NotUploaded (uploaded p) = ⊥
    NotUploaded outcome = Unit

    abbrev pub IsUnwritten : Outcome → World T.State D F → Type 0
    IsUnwritten outcome w = Untouched w × NotUploaded outcome

    finish_existing_lem :
        (c : Candidate) (g : GuardedUpdate)
        → IsMismatch g
        → Ensures Untouched
            (finish_existing T P C K to_rfc3339 parse_from_rfc3339 device_id now path c id g)
            IsUnwritten
            Untouched
    unfolding finish_existing
    finish_existing_lem c (updated r) x = absurd x
    finish_existing_lem c (revision_mismatch r) x =
        Ensures-then _ _ (Keeps-clear T P frame path) (λ _. Ensures-pure _ (λ w h. (h, tt)))

    pub upload_existing_lem :
        (c : Candidate)
        → c.existing_record ≡ lookup path rs
        → Ensures Untouched
            (upload_existing T P C K to_rfc3339 parse_from_rfc3339 device_id now path true c id)
            IsUnwritten
            Untouched
    unfolding upload_existing
    upload_existing_lem c e =
        Ensures-then _ _
          (Keeps-resume_state C K to_rfc3339 now frame path _ c.local_md5 c.local_size)
          (λ resume.
            Ensures-then _ _
              (Keeps-stage T P frame now path PendingOpKind.upload side_effect_started)
              (λ _.
                Ensures-learn _ _ (existing_media_lem c _ resume c.conversion e)
                  (finish_existing_lem c)))

-- ===== src/Executor/UploadSettled.antt =====
-- After `run_upload` says that a file was uploaded, its path is settled.
use oxidrive.Base.{ℕ, ◌≡◌, refl, sym, ap, Bool, true, false, Option, none, some, ok}
use oxidrive.Text.{Text}
use oxidrive.TextMap.{TextMap, lookup}
use oxidrive.TextMap.Order.{IsOrdered}
use oxidrive.Types.{
  Timestamp, PendingOp, PendingOpKind, PendingOpStage, planned, side_effect_started,
  side_effect_done, UploadSessionMode, WorkspaceConversion,
}
use oxidrive.Types.Path.{RelativePath}
use oxidrive.Drive.{DriveFile}
use oxidrive.Drive.Upload.{ResumableUploadState}
use oxidrive.Scan.{is_stable}
use oxidrive.Store.Table.{Table, Codec}
use oxidrive.Store.Session.{get_conversion, remove_upload_session}
use oxidrive.Executor.Guarded.{
  GuardedUpdate, updated, revision_mismatch, preflight_revision_mismatch,
}
use oxidrive.Executor.Effects.{
  World, Exec, Client, Disk, Metadata, on_store, of_store, journal_stage, ◌>>=◌,
}
use oxidrive.Executor.Effects.Hoare.{
  Ensures, Ensures-pure, Ensures-if, Ensures-then, Ensures-bind, Ensures-learn,
}
use oxidrive.Executor.Effects.Keeps.{
  IfOk, IsFrame, Keeps-lift, Keeps-gets, Keeps-ask, Keeps-send, Keeps-stage, Keeps-clear,
  Keeps-remove_session, Learns-ask, Learns-read,
}
use oxidrive.Executor.Upload.{Outcome, uploaded, skipped, Candidate, record_local}
use oxidrive.Executor.RunUpload.{
  save_conversion, forget_or_save, existing_media, convert_media, unless_changed, committed,
  finish_existing, upload_existing, new_id, upload_new, transfer, nonempty_id, lease_remote,
  leased_elsewhere, upload_stable, upload_unlocked, run_upload,
}
use oxidrive.Executor.Settles.{
  Ready, Any, Ready-frame, Recorded, Stored, Stored-frame, record_local_lem, upsert_conversion_lem,
  remove_conversion_lem, IsCommitted, commit_lem,
}
use oxidrive.Executor.UploadLaws.{Keeps-resume_state, Keeps-resume_media, Keeps-update_guarded}

-- The requests whose answer is recorded give files with a property.
pub record Answers {D F : Type 0} (C : Client D F) (Said : DriveFile → Type 0) : Type 0 where
  pub metadata : (id : Text) (d : D) → IfOk Said (C.get_file_metadata id d).0
  pub properties :
      (id : Text) (m : TextMap Text) (d : D) → IfOk Said (C.update_app_properties id m d).0

module _ (T : Table) (P : Codec PendingOp) {D F : Type 0} (C : Client D F) (K : Disk F)
    (to_rfc3339 : Timestamp → Text) (parse_from_rfc3339 : Text → Option Timestamp)
    (device_id : Text) (now : Timestamp) (path : RelativePath) (f : F)
    (cs : TextMap WorkspaceConversion) (o : IsOrdered cs) (Said : DriveFile → Type 0)
    (says : Answers C Said) where
  abbrev W : Type 0
  W = World T.State D F

  abbrev I : W → Type 0
  I = Ready K to_rfc3339 now path f cs

  abbrev R : W → Type 0
  R = Any K to_rfc3339 now path f cs

  abbrev FileIs : Candidate → Type 0
  FileIs c =
      (K.compute_md5 path f ≡ ok c.local_md5)
      × (c.conversion ≡ lookup path cs)
      × (m : Metadata) × (K.metadata path f ≡ ok m)
      × (c.local_size ≡ m.len)

  -- The record is that of the local file as it is and of a Drive file that Drive answered.
  abbrev pub IsSettled : PendingOpKind → W → Type 0
  IsSettled kind w =
      (md5 : Text) × (m : Metadata) × (r : DriveFile) × (K.compute_md5 path f ≡ ok md5)
      × (K.metadata path f ≡ ok m)
      × Said r
      × Stored K to_rfc3339 now path f cs md5 m.len r w
      × IsCommitted T P path kind now w

  abbrev pub IfUploaded : Outcome → W → Type 0
  IfUploaded (uploaded p) w = (p ≡ path) × IsSettled PendingOpKind.upload w
  IfUploaded outcome w = Unit

  committed_lem :
      (c : Candidate) (r : DriveFile)
      → FileIs c
      → Said r
      → Ensures
          (Stored K to_rfc3339 now path f cs c.local_md5 c.local_size r)
          (committed T P C K to_rfc3339 parse_from_rfc3339 device_id now path)
          IfUploaded
          R
  committed_lem c r (e, _, m, g, s) said =
      Ensures-bind _ _
        (commit_lem T P (Stored-frame K to_rfc3339 now path f cs c.local_md5 c.local_size r) now
          path PendingOpKind.upload)
        (λ _. Ensures-pure _ (λ w h. (refl, (c.local_md5, m, r, e, g, said, rw (sym s) h.0, h.1))))

  finish_lem :
      (c : Candidate) (r : DriveFile) (m : Exec W Unit)
      → FileIs c
      → Said r
      → Ensures
          (Recorded K to_rfc3339 now path f cs c.local_md5 c.local_size r)
          m
          (λ _. Stored K to_rfc3339 now path f cs c.local_md5 c.local_size r)
          R
      → Ensures I
          (record_local C K to_rfc3339 now path (some r) (some c.local_md5) (some c.local_size)
            >>= λ _. m >>= λ _. on_store (remove_upload_session path) >>= λ _.
                committed T P C K to_rfc3339 parse_from_rfc3339 device_id now path)
          IfUploaded
          R
  finish_lem c r m i said h =
      Ensures-bind _ _ (record_local_lem K to_rfc3339 now path f cs c.local_md5 c.local_size r C)
        (λ _. Ensures-bind _ _ h (λ _.
          Ensures-then _ _
            (Keeps-remove_session
              (Stored-frame K to_rfc3339 now path f cs c.local_md5 c.local_size r) path)
            (λ _. committed_lem c r i said)))

  abbrev frame : IsFrame I R
  frame = Ready-frame K to_rfc3339 now path f cs

  abbrev free : (w : W) (d : D) → I w → I (record w { drive = d })
  free w d h = h

  save_lem :
      (c : Candidate) (r : DriveFile) (conv : Option WorkspaceConversion)
      → conv ≡ lookup path cs
      → Ensures
          (Recorded K to_rfc3339 now path f cs c.local_md5 c.local_size r)
          (save_conversion T P C K to_rfc3339 parse_from_rfc3339 device_id now path conv
            c.local_md5)
          (λ _. Stored K to_rfc3339 now path f cs c.local_md5 c.local_size r)
          R
  unfolding get_conversion
  save_lem c r none e = Ensures-pure tt (λ w h. (h.1, h.2, h.3, rw (h.0, sym e) tt))
  save_lem c r (some v) e =
      upsert_conversion_lem K to_rfc3339 now path f cs c.local_md5 c.local_size r v o

  forget_lem :
      (c : Candidate) (r : DriveFile) (conv : Option WorkspaceConversion)
      → Ensures
          (Recorded K to_rfc3339 now path f cs c.local_md5 c.local_size r)
          (forget_or_save T P C K to_rfc3339 parse_from_rfc3339 device_id now path conv c.local_md5)
          (λ _. Stored K to_rfc3339 now path f cs c.local_md5 c.local_size r)
          R
  forget_lem c r none = remove_conversion_lem K to_rfc3339 now path f cs c.local_md5 c.local_size r
  forget_lem c r (some v) =
      upsert_conversion_lem K to_rfc3339 now path f cs c.local_md5 c.local_size r v o

  stage_lem :
      (s : PendingOpStage)
      → Ensures I (journal_stage T P now path PendingOpKind.upload s) (λ _. I) R
  stage_lem s = Keeps-stage T P frame now path PendingOpKind.upload s

  finish_existing_lem :
      (c : Candidate) (id : Text) (g : GuardedUpdate)
      → FileIs c
      → Ensures I
          (finish_existing T P C K to_rfc3339 parse_from_rfc3339 device_id now path c id g)
          IfUploaded
          R
  unfolding finish_existing
  finish_existing_lem c id (updated _) i = Ensures-then _ _ (stage_lem side_effect_done) (λ _.
      Ensures-learn _ _ (Learns-ask frame _ free (says.properties id c.app_properties))
        (λ r said. finish_lem c r _ i said (save_lem c r c.conversion i.1)))
  finish_existing_lem c id (revision_mismatch remote) i =
      Ensures-then _ _ (Keeps-clear T P frame path) (λ _. Ensures-pure _ (λ w h. tt))

  convert_lem :
      (c : Candidate) (id : Text) (v : WorkspaceConversion) (mode : UploadSessionMode)
      (resume : Option ResumableUploadState)
      → Ensures I
          (convert_media T P C K to_rfc3339 parse_from_rfc3339 device_id now path c id v mode
            resume)
          (λ _. I)
          R
  convert_lem c id v mode resume =
      Ensures-then _ _ (Keeps-send frame path mode c.local_md5 now _ (λ w h. h))
        (λ _. Ensures-then _ _ (Keeps-ask frame _ (λ w h. h)) (λ r. Ensures-pure _ (λ w h. h)))

  existing_media_lem :
      (enforce : Bool) (c : Candidate) (id : Text) (mode : UploadSessionMode)
      (resume : Option ResumableUploadState) (conv : Option WorkspaceConversion)
      → Ensures I
          (existing_media T P C K to_rfc3339 parse_from_rfc3339 device_id now path enforce c id mode
            resume conv)
          (λ _. I)
          R
  unfolding existing_media preflight_revision_mismatch
  existing_media_lem true c id mode resume (some v) =
      Ensures-then _ _
        (Ensures-then _ _ (Keeps-ask frame _ (λ w h. h)) (λ r. Ensures-pure _ (λ w h. h)))
        (λ changed. go changed)
    where
      go :
          (changed : Option DriveFile)
          → Ensures I
              (unless_changed T P C K to_rfc3339 parse_from_rfc3339 device_id now path changed (
                convert_media T P C K to_rfc3339 parse_from_rfc3339 device_id now path c id v mode
                  resume))
              (λ _. I)
              R
      go none = convert_lem c id v mode resume
      go (some remote) = Ensures-pure _ (λ w h. h)
  existing_media_lem false c id mode resume (some v) = convert_lem c id v mode resume
  existing_media_lem true c id mode resume none =
      Keeps-update_guarded C K to_rfc3339 now frame free path mode c.local_md5 id _ resume
  existing_media_lem false c id mode resume none =
      Keeps-resume_media C K to_rfc3339 now frame free path mode c.local_md5 id resume

  upload_existing_lem :
      (enforce : Bool) (c : Candidate) (id : Text)
      → FileIs c
      → Ensures I
          (upload_existing T P C K to_rfc3339 parse_from_rfc3339 device_id now path enforce c id)
          IfUploaded
          R
  unfolding upload_existing
  upload_existing_lem enforce c id i =
      Ensures-then _ _ (Keeps-resume_state C K to_rfc3339 now frame path _ c.local_md5 c.local_size)
        (λ resume. Ensures-then _ _ (stage_lem side_effect_started) (λ _.
          Ensures-then _ _ (existing_media_lem enforce c id _ resume c.conversion)
            (λ g. finish_existing_lem c id g i)))

  new_id_lem :
      (c : Candidate) (existing : Option Text)
      → Ensures I
          (new_id T P C K to_rfc3339 parse_from_rfc3339 device_id now path c existing)
          (λ _. I)
          R
  unfolding new_id
  new_id_lem c (some id) =
      Ensures-then _ _ (Keeps-remove_session frame path) (λ _. Ensures-pure id (λ w h. h))
  new_id_lem c none =
      Ensures-then _ _ (Keeps-resume_state C K to_rfc3339 now frame path _ c.local_md5 c.local_size)
        (λ resume. Ensures-then _ _ (stage_lem side_effect_started) (λ _.
          Ensures-then _ _ (Keeps-send frame path _ c.local_md5 now _ (λ w h. h)) (λ id.
            Ensures-then _ _ (stage_lem side_effect_done) (λ _. Ensures-pure id (λ w h. h)))))

  upload_new_lem :
      (c : Candidate)
      → FileIs c
      → Ensures I
          (upload_new T P C K to_rfc3339 parse_from_rfc3339 device_id now path c)
          IfUploaded
          R
  unfolding upload_new
  upload_new_lem c i = Ensures-then _ _ (Keeps-ask frame _ (λ w h. h)) (λ identical.
      Ensures-then _ _ (new_id_lem c identical) (λ id.
        Ensures-learn _ _ (Learns-ask frame _ free (says.metadata id))
          (λ r said. finish_lem c r _ i said (forget_lem c r c.conversion))))

  transfer_lem :
      (enforce : Bool) (id : Option Text) (c : Candidate)
      → FileIs c
      → Ensures I
          (transfer T P C K to_rfc3339 parse_from_rfc3339 device_id now path enforce id c)
          IfUploaded
          R
  transfer_lem enforce none c i = upload_new_lem c i
  transfer_lem enforce (some id) c i = upload_existing_lem enforce c id i

  learns_conversion :
      Ensures I (of_store (get_conversion path)) (λ v w. I w × (v ≡ lookup path cs)) R
  unfolding get_conversion
  learns_conversion = record { at = λ w h. (h, ap (lookup path) h.2) }

  upload_stable_lem :
      (enforce : Bool) (remote_id : Option Text) (listing_row : Option DriveFile) (m : Metadata)
      → K.metadata path f ≡ ok m
      → Ensures I
          (upload_stable T P C K to_rfc3339 parse_from_rfc3339 device_id now path enforce remote_id
            listing_row m)
          IfUploaded
          R
  unfolding upload_stable
  upload_stable_lem enforce remote_id listing_row m e =
      Ensures-then _ _ (Keeps-gets frame _) (λ set_root.
        Ensures-then _ _ (Keeps-lift frame _) (λ root.
          Ensures-then _ _ (Keeps-gets frame _) (λ parent.
            Ensures-then _ _ (Keeps-lift frame _) (λ parent_id.
              Ensures-learn {X = λ v. v ≡ lookup path cs} _ _ learns_conversion (λ conv c.
                Ensures-learn _ _ (Learns-read frame _ f (λ w h. h.0)) (λ md5 d.
                  Ensures-then _ _ (Keeps-gets frame _) (λ existing.
                    Ensures-then _ _ (stage_lem planned) (λ _.
                      transfer_lem enforce
                        (nonempty_id T P C K to_rfc3339 parse_from_rfc3339 device_id now path
                          remote_id)
                        _ (d, c, m, e, refl)))))))))

  leased_lem :
      (use_leases : Bool) (row : Option DriveFile) (id : Option Text)
      → Ensures I
          (leased_elsewhere T P C K to_rfc3339 parse_from_rfc3339 device_id now path use_leases row
            id)
          (λ _. I)
          R
  unfolding leased_elsewhere
  leased_lem false row id = Ensures-pure false (λ w h. h)
  leased_lem true row id = Ensures-then _ _ (go row id) (λ remote. Ensures-pure _ (λ w h. h))
    where
      go :
          (row : Option DriveFile) (id : Option Text)
          → Ensures I
              (lease_remote T P C K to_rfc3339 parse_from_rfc3339 device_id now path row id)
              (λ _. I)
              R
      go (some remote) id = Ensures-pure _ (λ w h. h)
      go none none = Ensures-pure _ (λ w h. h)
      go none (some id) =
          Ensures-then _ _ (Keeps-ask frame _ (λ w h. h)) (λ r. Ensures-pure _ (λ w h. h))

  upload_unlocked_lem :
      (stability_ms : ℕ) (enforce use_leases : Bool) (remote_id : Option Text)
      (row : Option DriveFile)
      → Ensures I
          (upload_unlocked T P C K to_rfc3339 parse_from_rfc3339 device_id now path stability_ms
            enforce use_leases remote_id row)
          IfUploaded
          R
  unfolding upload_unlocked
  upload_unlocked_lem stability_ms enforce use_leases remote_id row =
      Ensures-then _ _ (leased_lem use_leases row _) (λ leased.
        Ensures-if leased _ _ (λ _. Ensures-pure skipped (λ w h. tt))
          (λ _. Ensures-learn _ _ (Learns-read frame _ f (λ w h. h.0)) (λ m e.
            Ensures-if (is_stable m.modified now stability_ms) _ _
              (λ _. upload_stable_lem enforce remote_id row m e)
              (λ _. Ensures-pure skipped (λ w h. tt)))))

  pub run_upload_lem :
      (stability_ms : ℕ) (enforce use_leases : Bool) (remote_id : Option Text)
      (row : Option DriveFile)
      → Ensures I
          (run_upload T P C K to_rfc3339 parse_from_rfc3339 device_id now path stability_ms enforce
            use_leases remote_id row)
          IfUploaded
          R
  unfolding run_upload
  run_upload_lem stability_ms enforce use_leases remote_id row =
      Ensures-then _ _ (Keeps-lift frame _) (λ _. Ensures-then _ _ (Keeps-gets frame _) (λ locked.
        Ensures-if locked _ _ (λ _. Ensures-pure skipped (λ w h. tt))
          (λ _. upload_unlocked_lem stability_ms enforce use_leases remote_id row)))

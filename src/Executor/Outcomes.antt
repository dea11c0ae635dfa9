-- ===== src/Executor/Outcomes.antt =====
-- What `run_upload` and `run_download` may say about their path.
use oxidrive.Base.{
  ℕ, ◌≡◌, refl, ◌∙◌, ◌⊎◌, inl, inr, Bool, true, false, Option, none, some, Result, ok, err,
}
use oxidrive.Text.{Text, text_eq}
use oxidrive.Types.{Timestamp, PendingOp}
use oxidrive.Types.Path.{RelativePath}
use oxidrive.Drive.{DriveFile, folder}
use oxidrive.Drive.Names.{is_google_workspace}
use oxidrive.Scan.{is_stable}
use oxidrive.Store.Table.{Table, Codec}
use oxidrive.Executor.Guarded.{GuardedUpdate, updated, revision_mismatch}
use oxidrive.Executor.Effects.{
  ExecError, World, Exec, Client, Disk, Metadata, gets, read_disk, ◌>>=◌,
}
use oxidrive.Executor.Effects.Hoare.{Post, Ensures, Ensures-pure, Ensures-bind, Ensures-if}
use oxidrive.Executor.Reports.{Any, Ensures-any, Ensures-fact}
use oxidrive.Executor.Upload.{
  Outcome, uploaded, downloaded, deleted_remote, mismatch, skipped, Candidate, has_open_lock,
}
use oxidrive.Executor.RunUpload.{
  leased_elsewhere, finish_existing, upload_existing, upload_new, transfer, nonempty_id,
  upload_stable, upload_unlocked, run_upload,
}
use oxidrive.Executor.Download.{
  converted_relative_path, done, download_as, download_folder, download_export, download_binary,
  run_download,
}

module _ {W A B : Type 0} {Q : B → Type 0} where
  -- Whatever the first part does.
  pub Says-then :
      (m : Exec W A) (f : A → Exec W B)
      → ((a : A) → Ensures Any (f a) (λ b _. Q b) Any)
      → Ensures Any (m >>= f) (λ b _. Q b) Any
  Says-then m f h = Ensures-bind _ _ (Ensures-any m) h

-- What may keep an upload of a path from taking place: a lock file in some state of the disk, the use
-- of leases, or in some state of the disk a modification time that is not stable yet.
abbrev pub Hindered : {F : Type 0} → Disk F → Bool → Timestamp → ℕ → RelativePath → Type 0
Hindered {F} K use_leases now stability_ms path =
    ((d : F) × (has_open_lock K path d ≡ true))
    ⊎ (use_leases ≡ true)
    ⊎ ((d : F) × (m : Metadata) × (K.metadata path d ≡ ok m)
        × (is_stable m.modified now stability_ms ≡ false))

-- What an upload of `path` ends with, where `H` is the reason for leaving it out.
abbrev pub IsUploadOutcome : Type 0 → RelativePath → Outcome → Type 0
IsUploadOutcome H path (uploaded q) = q ≡ path
IsUploadOutcome H path (mismatch q id remote) = q ≡ path
IsUploadOutcome H path skipped = H
IsUploadOutcome H path (downloaded q) = ⊥
IsUploadOutcome H path (deleted_remote q) = ⊥

-- The path itself, or that of an export of it.
abbrev pub IsLocalName : RelativePath → RelativePath → Type 0
IsLocalName path q = (q ≡ path) ⊎ ((ext : Text) × (q ≡ converted_relative_path path ext))

abbrev pub IsDownloadOutcome : RelativePath → Outcome → Type 0
IsDownloadOutcome path (downloaded q) = IsLocalName path q
IsDownloadOutcome path (uploaded q) = ⊥
IsDownloadOutcome path (mismatch q id remote) = ⊥
IsDownloadOutcome path skipped = ⊥
IsDownloadOutcome path (deleted_remote q) = ⊥

module _ (T : Table) (P : Codec PendingOp) {D F : Type 0} (C : Client D F) (K : Disk F)
    (to_rfc3339 : Timestamp → Text) (parse_from_rfc3339 : Text → Option Timestamp)
    (device_id : Text) (now : Timestamp) (path : RelativePath) (stability_ms : ℕ)
    (use_leases : Bool) where
  abbrev Says : Exec (World T.State D F) Outcome → Type 0
  Says m =
      Ensures Any m (λ o _. IsUploadOutcome (Hindered K use_leases now stability_ms path) path o)
        Any

  finish_existing-Says :
      (f : Candidate) (id : Text) (u : GuardedUpdate)
      → Says (finish_existing T P C K to_rfc3339 parse_from_rfc3339 device_id now path f id u)
  unfolding finish_existing
  finish_existing-Says f id (updated x) = Says-then _ _ (λ _. Says-then _ _ (λ _.
      Says-then _ _ (λ _.
        Says-then _ _
          (λ _. Says-then _ _ (λ _. Says-then _ _ (λ _. Ensures-pure _ (λ w h. refl)))))))
  finish_existing-Says f id (revision_mismatch remote) =
      Says-then _ _ (λ _. Ensures-pure _ (λ w h. refl))

  transfer-Says :
      (enforce : Bool) (id : Option Text) (f : Candidate)
      → Says (transfer T P C K to_rfc3339 parse_from_rfc3339 device_id now path enforce id f)
  unfolding upload_new upload_existing
  transfer-Says enforce none f = Says-then _ _ (λ _. Says-then _ _ (λ _. Says-then _ _ (λ _.
      Says-then _ _ (λ _.
        Says-then _ _
          (λ _. Says-then _ _ (λ _. Says-then _ _ (λ _. Ensures-pure _ (λ w h. refl))))))))
  transfer-Says enforce (some id) f =
      Says-then _ _ (λ _. Says-then _ _ (λ _. Says-then _ _ (λ u. finish_existing-Says f id u)))

  leased_lem :
      (leases : Bool) (row : Option DriveFile) (id : Option Text)
      → Ensures Any
          (leased_elsewhere T P C K to_rfc3339 parse_from_rfc3339 device_id now path leases row id)
          (λ b _. b ≡ true → leases ≡ true)
          Any
  unfolding leased_elsewhere
  leased_lem false row id = Ensures-pure false (λ w h e. e)
  leased_lem true row id = Says-then _ _ (λ remote. Ensures-pure _ (λ w h e. refl))

  measured_lem :
      Ensures Any
        (read_disk {S = T.State} {D = D} (K.metadata path))
        (λ m _. (d : F) × (K.metadata path d ≡ ok m))
        Any
  measured_lem = record { at = λ w h. go w (K.metadata path w.disk) refl }
    where
      go :
          (w : World T.State D F) (a : Result ExecError Metadata)
          → K.metadata path w.disk ≡ a
          → Post (λ m _. (d : F) × (K.metadata path d ≡ ok m)) Any (a, w)
      go w (ok m) e = (w.disk, e)
      go w (err x) e = tt

  upload_unlocked-Says :
      (enforce : Bool) (id : Option Text) (row : Option DriveFile)
      → Says (
          upload_unlocked T P C K to_rfc3339 parse_from_rfc3339 device_id now path stability_ms
            enforce use_leases id row)
  unfolding upload_unlocked upload_stable
  upload_unlocked-Says enforce id row =
      Ensures-fact _ _
        (leased_lem use_leases row
          (nonempty_id T P C K to_rfc3339 parse_from_rfc3339 device_id now path id))
        (λ leased why.
          Ensures-if leased _ _ (λ e. Ensures-pure skipped (λ w h. inr (inl (why e))))
            (λ _. Ensures-fact _ _ measured_lem (λ m (d, at).
              Ensures-if (is_stable m.modified now stability_ms) _ _
                (λ _. Says-then _ _ (λ _. Says-then _ _ (λ _. Says-then _ _ (λ _.
                  Says-then _ _ (λ _. Says-then _ _ (λ _. Says-then _ _ (λ _. Says-then _ _ (λ _.
                    Says-then _ _ (λ _.
                      transfer-Says enforce
                        (nonempty_id T P C K to_rfc3339 parse_from_rfc3339 device_id now path id)
                        _)))))))))
                (λ e. Ensures-pure skipped (λ w h. inr (inr (d, m, at, e)))))))

  pub run_upload-Says :
      (enforce : Bool) (id : Option Text) (row : Option DriveFile)
      → Says (
          run_upload T P C K to_rfc3339 parse_from_rfc3339 device_id now path stability_ms enforce
            use_leases id row)
  unfolding run_upload
  run_upload-Says enforce id row = Says-then _ _ (λ _.
      Ensures-fact {X = λ b. (d : F) × (has_open_lock K path d ≡ b)}
        (gets (λ w. has_open_lock K path w.disk)) _ (record { at = λ w h. (w.disk, refl) })
        (λ locked (d, e).
          Ensures-if locked _ _ (λ t. Ensures-pure skipped (λ w h. inl (d, e ∙ t)))
            (λ _. upload_unlocked-Says enforce id row)))

module _ (T : Table) (P : Codec PendingOp) {D F : Type 0} (C : Client D F) (K : Disk F)
    (to_rfc3339 : Timestamp → Text) (now : Timestamp) (path : RelativePath) where
  abbrev SaysDown : Exec (World T.State D F) Outcome → Type 0
  SaysDown m = Ensures Any m (λ o _. IsDownloadOutcome path o) Any

  done-Says :
      (q : RelativePath) → IsLocalName path q → SaysDown (done T P C K to_rfc3339 now path q)
  done-Says q h = Says-then _ _ (λ _. Ensures-pure _ (λ w x. h))

  binary-Says :
      (id : Text) (row : Option DriveFile)
      → SaysDown (download_binary T P C K to_rfc3339 now path id row)
  unfolding download_binary
  binary-Says id row = Says-then _ _ (λ _. Says-then _ _ (λ _. Says-then _ _ (λ _.
      Says-then _ _ (λ _. Says-then _ _ (λ _. Says-then _ _ (λ _. done-Says path (inl refl)))))))

  export-Says :
      (id : Text) (r : DriveFile) → SaysDown (download_export T P C K to_rfc3339 now path id r)
  unfolding download_export
  export-Says id r = Says-then _ _ (λ fmt. Says-then _ _ (λ _. Says-then _ _ (λ _.
      Says-then _ _ (λ _. Says-then _ _ (λ _. Says-then _ _ (λ _. Says-then _ _ (λ _.
        Says-then _ _ (λ _.
          Says-then _ _ (λ _. Says-then _ _ (λ _. done-Says _ (inr (fmt.extension, refl))))))))))))

  download_as-Says :
      (id : Text) (row : Option DriveFile)
      → SaysDown (download_as T P C K to_rfc3339 now path id row)
  unfolding download_folder
  download_as-Says id none = binary-Says id none
  download_as-Says id (some r) =
      Ensures-if (text_eq r.mime_type folder) _ _
        (λ _.
          Says-then _ _ (λ _. Says-then _ _ (λ _. Says-then _ _ (λ _. done-Says path (inl refl)))))
        (λ _.
          Ensures-if (is_google_workspace r.mime_type) _ _ (λ _. export-Says id r)
            (λ _. binary-Says id (some r)))

  pub run_download-Says :
      (id : Text) (row : Option DriveFile)
      → SaysDown (run_download T P C K to_rfc3339 now path id row)
  unfolding run_download
  run_download-Says id row =
      Says-then _ _ (λ _. Says-then _ _ (λ _. Says-then _ _ (λ _. download_as-Says id row)))

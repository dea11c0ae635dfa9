-- ===== src/Executor/UploadLaws.antt =====
-- What an upload leaves behind: the parts that keep the state, and the whole.
use oxidrive.Base.{ℕ, Option, none, some, ltb, not, ◌&&◌, leb}
use oxidrive.Base.Int.{ℤ}
use oxidrive.Text.{Text}
use oxidrive.Types.{Timestamp, UploadSession, UploadSessionMode}
use oxidrive.Types.Path.{RelativePath}
use oxidrive.Drive.Upload.{ResumableUploadState}
use oxidrive.Store.Resume.{session_is_valid}
use oxidrive.Executor.Guard.{RevisionGuard, revision_guard_matches}
use oxidrive.Executor.Guarded.{
  updated, resumable_upload_threshold_bytes, is_none, from_expected, replace_media, resume_media,
  update_file_media_guarded, update_file_with_resume_guarded,
}
use oxidrive.Executor.Effects.{World, Client, Disk, pure, ask, ◌>>=◌}
use oxidrive.Executor.Effects.Hoare.{Ensures, Ensures-pure, Ensures-if, Ensures-then}
use oxidrive.Executor.Effects.Keeps.{
  IsFrame, Keeps-gets, Keeps-read, Keeps-ask, Keeps-send, Keeps-remove_session,
}
use oxidrive.Executor.Upload.{resume_state, no_session, picked}

module _ {D F : Type 0} (C : Client D F) (K : Disk F) (to_rfc3339 : Timestamp → Text)
    (now : Timestamp) {S : Type 0} {I R : World S D F → Type 0} (frame : IsFrame I R) where
  Keeps-no_session :
      (path : RelativePath) → Ensures I (no_session {S = S} C K to_rfc3339 now path) (λ _. I) R
  Keeps-no_session path =
      Ensures-then _ _ (Keeps-remove_session frame path) (λ _. Ensures-pure none (λ w h. h))

  Keeps-picked :
      (path : RelativePath) (mode : UploadSessionMode) (md5 : Text) (size : ℕ)
      (o : Option UploadSession)
      → Ensures I (picked {S = S} C K to_rfc3339 now path mode md5 size o) (λ _. I) R
  Keeps-picked path mode md5 size none = Ensures-pure none (λ w h. h)
  Keeps-picked path mode md5 size (some u) =
      Ensures-if (session_is_valid u mode md5 size now) _ _ (λ _. Ensures-pure _ (λ w h. h))
        (λ _. Keeps-no_session path)

  pub Keeps-resume_state :
      (path : RelativePath) (mode : UploadSessionMode) (md5 : Text) (size : ℕ)
      → Ensures I (resume_state {S = S} C K to_rfc3339 now path mode md5 size) (λ _. I) R
  unfolding resume_state
  Keeps-resume_state path mode md5 size =
      Ensures-if (ltb resumable_upload_threshold_bytes size) _ _
        (λ _. Ensures-then _ _ (Keeps-gets frame _) (Keeps-picked path mode md5 size))
        (λ _. Keeps-no_session path)

-- Drive may answer anything.
module _ {D F : Type 0} (C : Client D F) (K : Disk F) (to_rfc3339 : Timestamp → Text)
    (now : Timestamp) {S : Type 0} {I R : World S D F → Type 0} (frame : IsFrame I R)
    (free : (w : World S D F) (d : D) → I w → I (record w { drive = d }))
    (path : RelativePath) where
  Keeps-fresh :
      (id : Text)
      → Ensures I
          (ask {S = S} {F = F} (C.get_file_metadata id) >>= λ fresh. pure (updated fresh))
          (λ _. I)
          R
  Keeps-fresh id =
      Ensures-then _ _ (Keeps-ask frame _ (λ w h. free w _ h)) (λ r. Ensures-pure _ (λ w h. h))

  Keeps-replace_media :
      (id : Text) → Ensures I (replace_media {S = S} C K to_rfc3339 path id) (λ _. I) R
  Keeps-replace_media id =
      Ensures-then _ _
        (record {
          at = λ w h.
              (Keeps-ask frame (C.update_file_media path id w.disk) (λ v x. free v _ x)).at w h;
        })
        (λ _. Keeps-fresh id)

  pub Keeps-resume_media :
      (mode : UploadSessionMode) (md5 : Text) (id : Text) (resume : Option ResumableUploadState)
      → Ensures I (resume_media {S = S} C K to_rfc3339 path mode md5 now id resume) (λ _. I) R
  Keeps-resume_media mode md5 id resume =
      Ensures-then _ _ (Keeps-send frame path mode md5 now _ (λ w h. free w _ h))
        (λ _. Keeps-fresh id)

  Keeps-media_guarded :
      (id : Text) (head : Option Text) (version : Option ℤ)
      → Ensures I (update_file_media_guarded {S = S} C K to_rfc3339 path id head version) (λ _. I) R
  unfolding update_file_media_guarded
  Keeps-media_guarded id head version =
      Ensures-then _ _ (Keeps-ask frame _ (λ w h. free w _ h)) (λ current.
        Ensures-if (not (revision_guard_matches to_rfc3339 current (from_expected head version))) _
          _ (λ _. Ensures-pure _ (λ w h. h)) (λ _. Keeps-replace_media id))

  pub Keeps-update_guarded :
      (mode : UploadSessionMode) (md5 : Text) (id : Text) (g : RevisionGuard)
      (resume : Option ResumableUploadState)
      → Ensures I
          (update_file_with_resume_guarded {S = S} C K to_rfc3339 path mode md5 now id g resume)
          (λ _. I)
          R
  unfolding update_file_with_resume_guarded
  Keeps-update_guarded mode md5 id g resume = Ensures-then _ _ (Keeps-read frame _) (λ meta.
      Ensures-if
        (leb meta.len resumable_upload_threshold_bytes
          && is_none g.remote_fingerprint
          && is_none g.modified_time)
        _ _ (λ _. Keeps-media_guarded id g.head_revision_id g.version)
        (λ _. Ensures-then _ _ (Keeps-ask frame _ (λ w h. free w _ h)) (λ current.
          Ensures-if (not (revision_guard_matches to_rfc3339 current g)) _ _
            (λ _. Ensures-pure _ (λ w h. h)) (λ _. Keeps-resume_media mode md5 id resume))))

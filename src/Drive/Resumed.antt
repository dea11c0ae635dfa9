-- ===== src/Drive/Resumed.antt =====
-- update_file_with_resume of src/drive/upload.rs: a large file goes through a resumable session, an old
-- one if there is one, and a session that Drive has forgotten is replaced once.
use oxidrive.Base.{
  ℕ, ◌≤◌, ◌≡◌, Bool, true, false, not, ◌&&◌, ◌||◌, ◌==◌, Option, none, some, List, [], ◌++◌, arith,
  ltb, if◌then◌else◌, length, Result, ok, err,
}
use oxidrive.Text.{Text}
use oxidrive.Text.{u64_max}
use oxidrive.Drive.Upload.{
  ResumableUploadState, Reply, UploadError, http_error, request_failed, progress_failed, Sent,
  finish, after_progress, state_at, upload_resumable_bytes,
}
use oxidrive.Drive.UploadDone.{IsKeeping, upload_done}
use oxidrive.Executor.Guarded.{resumable_upload_threshold_bytes}

-- `s.file_size == size && s.next_offset < s.file_size`
abbrev pub valid_resume : ℕ → Option ResumableUploadState → Option ResumableUploadState
valid_resume size none = none
valid_resume size (some s) =
    if s.file_size == size && ltb s.next_offset s.file_size then some s else none

-- The source looks for "HTTP 404" or "HTTP 410" in the message, which is made of the status and the
-- body of the answer. The body is not modelled.
unfoldable pub resumable_session_expired : UploadError → Bool
resumable_session_expired (http_error status) = status == 404 || status == 410
resumable_session_expired e = false

module _ {S : Type 0} (put : S → Text → ℕ → List ℕ → S × Reply)
    (on_progress : ResumableUploadState → Bool) (content : List ℕ)
    (start : S → S × Option Text) where
  abbrev size : ℕ
  size = length content

  abbrev earlier : List ResumableUploadState → Sent S → Sent S
  earlier states sent = record sent { progress = states ++ sent.progress }

  -- The bytes from an offset, when the session was kept.
  abbrev pub send_from : Text → ℕ → S → Sent S
  send_from url offset s =
      if not (on_progress (state_at put on_progress content url size offset))
      then finish s (err progress_failed)
      else after_progress (state_at put on_progress content url size offset)
          (upload_resumable_bytes put on_progress content url size s offset)

  abbrev pub send_new : S × Option Text → Sent S
  send_new (s, none) = finish s (err request_failed)
  send_new (s, some url) = send_from url 0 s

  -- Behind the bytes of an old session.
  abbrev pub or_restart : Sent S → Result UploadError Unit → Sent S
  or_restart sent (ok u) = sent
  or_restart sent (err e) =
      if resumable_session_expired e
      then earlier sent.progress (send_new (start sent.server))
      else sent

  abbrev pub send_old : ResumableUploadState → S → Sent S
  send_old state s =
      if not (on_progress state)
      then finish s (err progress_failed)
      else let sent =
          upload_resumable_bytes put on_progress content state.session_url size s
            state.next_offset in
        after_progress state (or_restart sent sent.outcome)

  abbrev pub send_resumable : Option ResumableUploadState → S → Sent S
  send_resumable none s = send_new (start s)
  send_resumable (some state) s = send_old state s

  -- `whole` is the request for a small file, `start` the request that starts a session.
  unfoldable pub update_file_with_resume :
      (S → S × Result UploadError Unit) → Option ResumableUploadState → S → Sent S
  unfolding resumable_session_expired upload_resumable_bytes
  update_file_with_resume whole resume_state s =
      if ltb resumable_upload_threshold_bytes size
      then send_resumable (valid_resume size resume_state) s
      else let (s', r) = whole s in finish s' r

-- If Drive has forgotten the old session of a large file, answers the start of a new one with an empty
-- session, and keeps every chunk of it as the protocol of resumable uploads has it, then the upload
-- succeeds, and Drive has exactly the file.
pub expired_session_restarts :
    {S : Type 0} (received : S → List ℕ) (put : S → Text → ℕ → List ℕ → S × Reply)
    (content : List ℕ) (start : S → S × Option Text) (whole : S → S × Result UploadError Unit)
    (state : ResumableUploadState) (url : Text) (s s' : S) (status : ℕ)
    → IsKeeping received (length content) url put
    → length content ≤ u64_max
    → ltb resumable_upload_threshold_bytes (length content) ≡ true
    → valid_resume (length content) (some state) ≡ some state
    → (upload_resumable_bytes put
        (λ _. true)
        content
        state.session_url
        (length content)
        s
        state.next_offset).outcome
      ≡ err (http_error status)
    → resumable_session_expired (http_error status) ≡ true
    → start
        (upload_resumable_bytes put
          (λ _. true)
          content
          state.session_url
          (length content)
          s
          state.next_offset).server
      ≡ (s', some url)
    → received s' ≡ []
    → ((update_file_with_resume put (λ _. true) content start whole (some state) s).outcome ≡ ok tt)
      × (received
            (update_file_with_resume put (λ _. true) content start whole (some state) s).server
          ≡ content)
unfolding update_file_with_resume
expired_session_restarts received put content start whole state url s s' status keeping small large
      valid gone expired fresh none_yet =
    rw (large, valid, gone, expired, fresh)
      (upload_done received put content url keeping small s' 0 (ground (arith, large)) none_yet)

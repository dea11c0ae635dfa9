-- ===== src/Store/Resume.antt =====
-- Resuming an upload: `session_is_valid` of src/sync/executor.rs beside the purge of the session
-- store, which `execute` runs first.
use oxidrive.Base.{
  ℕ, ◌-◌, ◌≡◌, refl, ap, ◌∙◌, Bool, true, false, not, ◌&&◌, ◌||◌, some, arith, leb, ◌==◌,
  if◌then◌else◌,
}
use oxidrive.Text.{Text, text_eq}
use oxidrive.TextMap.Order.{IsOrdered}
use oxidrive.TextMap.Laws.{kept, lookup-retain}
use oxidrive.Types.{Timestamp, UploadSession, UploadSessionMode}
use oxidrive.Types.Path.{RelativePath}
use oxidrive.Store.Session.{Store, get_upload_session, is_live, purge_stale_upload_sessions}

-- 24 hours in nanoseconds.
abbrev pub resumable_upload_session_ttl : ℕ
resumable_upload_session_ttl = 86_400_000_000_000

-- The derived `PartialEq`.
abbrev pub mode_eq : UploadSessionMode → UploadSessionMode → Bool
mode_eq (UploadSessionMode.create p n) (UploadSessionMode.create q m) = text_eq p q && text_eq n m
mode_eq (UploadSessionMode.update d) (UploadSessionMode.update e) = text_eq d e
mode_eq (UploadSessionMode.convert d g) (UploadSessionMode.convert e h) = text_eq d e && text_eq g h
mode_eq _ _ = false

-- The age is compared as in the purge.
unfoldable pub session_is_valid : UploadSession → UploadSessionMode → Text → ℕ → Timestamp → Bool
session_is_valid session expected_mode local_md5 local_size now =
    if not (mode_eq session.mode expected_mode)
      || not (text_eq session.local_md5 local_md5)
      || not (session.file_size == local_size)
      || leb local_size session.next_offset
    then false
    else leb (now - session.updated_at) resumable_upload_session_ttl

valid_is_live :
    (u : UploadSession) (mode : UploadSessionMode) (md5 : Text) (size : ℕ) (now : Timestamp)
    → session_is_valid u mode md5 size now ≡ true
    → is_live now resumable_upload_session_ttl u ≡ true
unfolding session_is_valid is_live
valid_is_live u mode md5 size now h = ground (arith, h)

-- If the upload sessions are a map, a session that an upload would resume survives a purge with the
-- time limit of resumable uploads at the same instant.
pub valid_survives_purge :
    (s : Store) (path : RelativePath) (u : UploadSession) (mode : UploadSessionMode) (md5 : Text)
    (size : ℕ) (now : Timestamp)
    → IsOrdered s.upload_sessions
    → get_upload_session path s ≡ some u
    → session_is_valid u mode md5 size now ≡ true
    → get_upload_session path (purge_stale_upload_sessions now resumable_upload_session_ttl s).1
      ≡ some u
unfolding get_upload_session purge_stale_upload_sessions
valid_survives_purge s path u mode md5 size now o g v =
    lookup-retain path (λ _ w. is_live now resumable_upload_session_ttl w) s.upload_sessions o
    ∙ ap (kept (λ _ w. is_live now resumable_upload_session_ttl w) path) g
    ∙ rw (valid_is_live u mode md5 size now v) refl

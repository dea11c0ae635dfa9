-- ===== src/Executor/Effects.antt =====
-- The state of a run and the actions on it: what src/sync/executor.rs threads through a transfer.
-- What was written before an error stays written, so the state comes back beside the error too. The
-- Drive requests and the local file system are interfaces, and the clock stands still.
pub mod Hoare
pub mod Keeps
use oxidrive.Base.{ℕ, Bool, Option, none, some, List, [], ◌∷◌, if◌then◌else◌, Result, ok, err}
use oxidrive.Text.{Text}
use oxidrive.TextMap.{TextMap}
use oxidrive.Types.{Timestamp, PendingOp, PendingOpKind, PendingOpStage, UploadSessionMode}
use oxidrive.Types.Path.{RelativePath, is_safe_non_empty}
use oxidrive.Drive.{DriveFile}
use oxidrive.Drive.Upload.{ResumableUploadState}
use oxidrive.Store.Table.{Table, Codec}
use oxidrive.Store.Session.{Store, ParentError, upsert_upload_session}
use oxidrive.Executor.TrashRemote.{set_pending_op}

-- The causes of an `OxidriveError`.
pub data ExecError : Type 0 where
  unsafe_path : RelativePath → ExecError
  file_error : RelativePath → ExecError
  request_error : ExecError
  journal_error : RelativePath → ExecError
  no_root_folder : ExecError
  no_parent : ParentError → ExecError
  no_export_format : (mime : Text) → ExecError
  no_record : RelativePath → ExecError
  no_trash_path : RelativePath → ExecError
  tombstone_error : RelativePath → ExecError
  no_remote_id : RelativePath → ExecError
  invalid_follow_up : RelativePath → ExecError

-- The session in memory, the journal, the tombstones, Drive, and the local files below the root.
pub record World (S D F : Type 0) : Type 0 where
  pub store : Store
  pub pending_ops : S
  pub tombstones : S
  pub drive : D
  pub disk : F

abbrev pub Exec : Type 0 → Type 0 → Type 0
Exec W A = W → Result ExecError A × W

module _ {W A : Type 0} where
  abbrev pub pure : A → Exec W A
  pure a w = (ok a, w)

  abbrev pub raise : ExecError → Exec W A
  raise e w = (err e, w)

  abbrev pub lift : Result ExecError A → Exec W A
  lift r w = (r, w)

  abbrev pub gets : (W → A) → Exec W A
  gets f w = (ok (f w), w)

module _ {W A B : Type 0} where
  abbrev pub continue : Result ExecError A → (A → Exec W B) → Exec W B
  continue (ok a) f w = f a w
  continue (err e) f w = (err e, w)

  infixl 5 ◌>>=◌
  unfoldable pub ◌>>=◌ : Exec W A → (A → Exec W B) → Exec W B
  ◌>>=◌ m f w = let (r, w') = m w in continue r f w'

-- A file transfer: the states that its callback was given, in order, and how it ended.
pub record Transfer (D A : Type 0) : Type 0 where
  pub drive : D
  pub progress : List ResumableUploadState
  pub outcome : Result ExecError A

-- The requests of the Drive client.
pub record Client (D F : Type 0) : Type 0 where
  pub get_file_metadata : (drive_id : Text) → D → Result ExecError DriveFile × D
  pub get_file_metadata_preflight : (drive_id : Text) → D → Result ExecError DriveFile × D
  pub update_app_properties : (drive_id : Text) → TextMap Text → D → Result ExecError DriveFile × D
  pub find_remote_file_id_by_content :
      (name parent_id local_md5 : Text) → D → Result ExecError (Option Text) × D
  pub update_file_media : RelativePath → (drive_id : Text) → F → D → Result ExecError Unit × D
  pub update_file_with_resume :
      RelativePath → (drive_id : Text) → Option ResumableUploadState → F → D → Transfer D Unit
  pub upload_with_conversion_with_resume :
      RelativePath
      → (drive_id google_mime : Text) → Option ResumableUploadState
      → F
      → D
      → Transfer D Unit
  pub upload_file_with_resume :
      RelativePath
      → (parent_id name : Text) → TextMap Text
      → Option ResumableUploadState
      → F
      → D
      → Transfer D Text
  pub trash_file : (drive_id : Text) → D → D × Bool
  pub download_file : (drive_id : Text) → RelativePath → D × F → Result ExecError Unit × (D × F)
  pub export_file_with_fallback :
      (drive_id export_mime : Text) → RelativePath → D × F → Result ExecError Unit × (D × F)

pub record Metadata : Type 0 where
  pub len : ℕ
  pub modified : Timestamp

-- The files below the root, under their relative paths.
pub record Disk (F : Type 0) : Type 0 where
  pub metadata : RelativePath → F → Result ExecError Metadata
  pub compute_md5 : RelativePath → F → Result ExecError Text
  pub exists_file : RelativePath → F → Bool
  pub create_dir_all : RelativePath → F → Result ExecError Unit × F
  pub create_parent_dirs : RelativePath → F → Result ExecError Unit × F
  pub try_exists : RelativePath → F → Result ExecError Bool
  pub rename : (source target : RelativePath) → F → Result ExecError Unit × F
  pub remove_file : RelativePath → F → Result ExecError Unit × F

-- The check of `resolve_local_path`; the path below the root is the relative path itself.
unfoldable pub resolve_local_path : RelativePath → Result ExecError RelativePath
resolve_local_path path = if is_safe_non_empty path then ok path else err (unsafe_path path)

-- The callback of a transfer: the session of the path after each step.
unfoldable pub keep_progress :
    RelativePath → UploadSessionMode → Text → Timestamp → List ResumableUploadState → Store → Store
unfolding upsert_upload_session
keep_progress path mode local_md5 now [] s = s
keep_progress path mode local_md5 now (state ∷ states) s =
    keep_progress path mode local_md5 now states (
      upsert_upload_session path
        (record {
          mode = mode;
          session_url = state.session_url;
          next_offset = state.next_offset;
          file_size = state.file_size;
          local_md5 = local_md5;
          updated_at = now;
        })
        s)

module _ {S D F A : Type 0} where
  abbrev pub with_drive : World S D F → Result ExecError A × D → Result ExecError A × World S D F
  with_drive w (r, d) = (r, record w { drive = d })

  -- A request that leaves the local files alone.
  abbrev pub ask : (D → Result ExecError A × D) → Exec (World S D F) A
  ask request w = with_drive w (request w.drive)

  abbrev pub with_disk : World S D F → Result ExecError A × F → Result ExecError A × World S D F
  with_disk w (r, f) = (r, record w { disk = f })

  abbrev pub on_disk : (F → Result ExecError A × F) → Exec (World S D F) A
  on_disk m w = with_disk w (m w.disk)

  abbrev pub read_disk : (F → Result ExecError A) → Exec (World S D F) A
  read_disk m w = (m w.disk, w)

  abbrev pub with_both :
      World S D F → Result ExecError A × (D × F) → Result ExecError A × World S D F
  with_both w (r, (d, f)) = (r, record w { drive = d; disk = f })

  abbrev pub fetch : (D × F → Result ExecError A × (D × F)) → Exec (World S D F) A
  fetch m w = with_both w (m (w.drive, w.disk))

module _ {S D F : Type 0} where
  -- A change of the session, which does not fail.
  abbrev pub on_store : (Store → Store) → Exec (World S D F) Unit
  on_store f w = (ok tt, record w { store = f w.store })

  abbrev pub of_store : {A : Type 0} → (Store → A) → Exec (World S D F) A
  of_store f w = (ok (f w.store), w)

module _ {S D F A : Type 0} where
  abbrev pub with_transfer :
      RelativePath
      → UploadSessionMode
      → Text
      → Timestamp
      → World S D F
      → Transfer D A
      → Result ExecError A × World S D F
  with_transfer path mode local_md5 now w t = (
    t.outcome,
    record w { store = keep_progress path mode local_md5 now t.progress w.store; drive = t.drive },
  )

  abbrev pub send :
      RelativePath
      → UploadSessionMode
      → Text
      → Timestamp
      → (F → D → Transfer D A)
      → Exec (World S D F) A
  send path mode local_md5 now m w = with_transfer path mode local_md5 now w (m w.disk w.drive)

module _ (T : Table) (P : Codec PendingOp) {D F : Type 0} where
  abbrev pub journaled :
      RelativePath → World T.State D F → Option T.State → Result ExecError Unit × World T.State D F
  journaled path w none = (err (journal_error path), w)
  journaled path w (some t) = (ok tt, record w { pending_ops = t })

  -- `set_pending_op`, whose error is that the entry cannot be encoded.
  unfoldable pub journal_stage :
      Timestamp → RelativePath → PendingOpKind → PendingOpStage → Exec (World T.State D F) Unit
  unfolding set_pending_op
  journal_stage now path kind stage w =
      journaled path w (set_pending_op T P path kind stage now w.pending_ops)

  unfoldable pub clear_pending_op : RelativePath → Exec (World T.State D F) Unit
  clear_pending_op path w = (ok tt, record w { pending_ops = T.delete path w.pending_ops })

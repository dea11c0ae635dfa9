-- ===== src/Store/Persist.antt =====
-- `persist_to_redb…` and `load_from_redb` of src/store/session.rs, over the transaction of
-- src/store/db.rs. An error of an encoder stops a save before the transaction; redb's own errors abort
-- the transaction, which leaves the database as it was.
use oxidrive.Base.{ℕ, ◌≡◌, not, Option, none, some, List, [], ltb, if◌then◌else◌, length}
use oxidrive.Text.{Text, text, is_empty, trim}
use oxidrive.TextMap.{TextMap, keys}
use oxidrive.Types.{SyncRecord, WorkspaceConversion, UploadSession}
use oxidrive.Types.Path.{from_text, is_safe_non_empty}
use oxidrive.Store.Table.{Bytes, Table, Codec}
use oxidrive.Store.Batch.{
  Row, skipped, failed, row, batch_rows, stale_keys, delete_all, replace_rows, load_rows,
}
use oxidrive.Store.Session.{Store}

abbrev pub max_upload_session_blob_bytes : ℕ
max_upload_session_blob_bytes = 16_384

-- The encodings of the stored values: bincode's, and UTF-8 for the folder ids.
pub record Codecs : Type 0 where
  pub sync_record : Codec SyncRecord
  pub conversion : Codec WorkspaceConversion
  pub upload_session : Codec UploadSession
  pub into_bytes : Text → Bytes
  pub from_utf8 : Bytes → Option Text
  pub from_utf8-into_bytes : (s : Text) → from_utf8 (into_bytes s) ≡ some s

abbrev encoded : Text → Option Bytes → Row
encoded k none = failed
encoded k (some b) = row k b

-- The upload sessions' check on the size of a blob.
abbrev small_enough : Text → Option Bytes → Row
small_enough k none = failed
small_enough k (some b) = if ltb max_upload_session_blob_bytes (length b) then skipped else row k b

-- The rows of the sync records and of the conversions.
abbrev pub save_entry : {A : Type 0} → Codec A → Text → A → Row
save_entry c path v = if is_safe_non_empty path then encoded path (c.serialize v) else skipped

abbrev pub save_upload_session : Codec UploadSession → Text → UploadSession → Row
save_upload_session c path v =
    if is_safe_non_empty path then small_enough path (c.serialize v) else skipped

abbrev pub save_folder_id : (Text → Bytes) → Text → Text → Row
save_folder_id into_bytes path drive_id =
    let rel = from_text path in
    if not (is_safe_non_empty rel)
    then skipped
    else if is_empty (trim drive_id)
    then skipped
    else row rel (into_bytes drive_id)

abbrev safe_entry : {A : Type 0} → Text → Option A → Option (Text × A)
safe_entry path none = none
safe_entry path (some v) =
    let rel = from_text path in if is_safe_non_empty rel then some (rel, v) else none

abbrev pub load_entry : {A : Type 0} → Codec A → Text → Bytes → Option (Text × A)
load_entry c path b = safe_entry path (c.deserialize b)

abbrev pub load_upload_session : Codec UploadSession → Text → Bytes → Option (Text × UploadSession)
load_upload_session c path b =
    if ltb max_upload_session_blob_bytes (length b) then none else load_entry c path b

abbrev filled_id : Text → Option Text → Option (Text × Text)
filled_id rel none = none
filled_id rel (some id) = if is_empty (trim id) then none else some (rel, id)

abbrev pub load_folder_id : (Bytes → Option Text) → Text → Bytes → Option (Text × Text)
load_folder_id from_utf8 path b =
    let rel = from_text path in
    if not (is_safe_non_empty rel) then none else filled_id rel (from_utf8 b)

pub record SessionStateBatch : Type 0 where
  pub sync_metadata : TextMap Bytes
  pub stale_sync_metadata : List Text
  pub conversions : TextMap Bytes
  pub stale_conversions : List Text
  pub upload_sessions : TextMap Bytes
  pub stale_upload_sessions : List Text
  pub folder_ids : TextMap Bytes
  pub stale_folder_ids : List Text

infixl 5 ◌>>=◌
abbrev ◌>>=◌ {ℓ κ} : {A : Type ℓ} {B : Type κ} → Option A → (A → Option B) → Option B
none >>= f = none
some a >>= f = f a

module _ (T : Table) where
  -- The tables that the session uses.
  pub record RedbStore : Type 0 where
    pub sync_metadata : T.State
    pub conversions : T.State
    pub upload_sessions : T.State
    pub folder_ids : T.State
    pub config : T.State
    pub pending_ops : T.State
    pub tombstones : T.State

module _ (T : Table) (C : Codecs) where
  unfoldable pub prepare_session_state_batch : Store → RedbStore T → Option SessionStateBatch
  unfolding batch_rows stale_keys
  prepare_session_state_batch s db = do
    sync_metadata ← batch_rows (save_entry C.sync_record) s.records
    conversions ← batch_rows (save_entry C.conversion) s.conversions
    upload_sessions ← batch_rows (save_upload_session C.upload_session) s.upload_sessions
    folder_ids ← batch_rows (save_folder_id C.into_bytes) s.folder_ids
    some (record {
      sync_metadata = sync_metadata;
      stale_sync_metadata = stale_keys (keys (T.rows db.sync_metadata)) sync_metadata;
      conversions = conversions;
      stale_conversions = stale_keys (keys (T.rows db.conversions)) conversions;
      upload_sessions = upload_sessions;
      stale_upload_sessions = stale_keys (keys (T.rows db.upload_sessions)) upload_sessions;
      folder_ids = folder_ids;
      stale_folder_ids = stale_keys (keys (T.rows db.folder_ids)) folder_ids;
    })

  abbrev set_page_token : Option Text → T.State → T.State
  set_page_token none config = config
  set_page_token (some token) config = T.put (text "page_token") (C.into_bytes token) config

  -- One write transaction.
  unfoldable pub replace_session_state :
      SessionStateBatch → Option Text → List Text → RedbStore T → RedbStore T
  unfolding replace_rows delete_all
  replace_session_state b page_token pending_cleanup_keys db = record db {
    sync_metadata = replace_rows T b.sync_metadata b.stale_sync_metadata db.sync_metadata;
    conversions = replace_rows T b.conversions b.stale_conversions db.conversions;
    upload_sessions = replace_rows T b.upload_sessions b.stale_upload_sessions db.upload_sessions;
    folder_ids = replace_rows T b.folder_ids b.stale_folder_ids db.folder_ids;
    config = set_page_token page_token db.config;
    pending_ops = delete_all T pending_cleanup_keys db.pending_ops;
  }

  -- The database after a save that committed, or none if it failed before the transaction.
  unfoldable pub persist_to_redb :
      Store → Option Text → List Text → RedbStore T → Option (RedbStore T)
  unfolding prepare_session_state_batch replace_session_state
  persist_to_redb s page_token pending_cleanup_keys db = do
    batch ← prepare_session_state_batch s db
    some (replace_session_state batch page_token pending_cleanup_keys db)

  unfoldable pub load_from_redb : RedbStore T → Store → Store
  unfolding load_rows
  load_from_redb db s = record s {
    records = load_rows (load_entry C.sync_record) (T.rows db.sync_metadata) [];
    conversions = load_rows (load_entry C.conversion) (T.rows db.conversions) [];
    upload_sessions =
        load_rows (load_upload_session C.upload_session) (T.rows db.upload_sessions) [];
    folder_ids = load_rows (load_folder_id C.from_utf8) (T.rows db.folder_ids) [];
  }

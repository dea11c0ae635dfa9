-- ===== src/Store/RoundTrip.antt =====
-- Saving a session and loading it into a new one, over any earlier contents of the database.
use oxidrive.Base.{◌≤◌, ◌≡◌, true, false, Option, none, some, List, [], ◌∷◌, arith, ltb, length}
use oxidrive.Text.{Text, is_empty, trim}
use oxidrive.TextMap.{TextMap, keys}
use oxidrive.TextMap.Order.{IsOrdered}
use oxidrive.Types.{UploadSession}
use oxidrive.Types.Path.{from_text, is_safe_non_empty}
use oxidrive.Store.Table.{Bytes, Table, Codec}
use oxidrive.Store.Batch.{stale_keys}
use oxidrive.Store.BatchLaws.{IsSavable, load-replace}
use oxidrive.Store.Session.{Store, open_store}
use oxidrive.Store.Persist.{
  Codecs, max_upload_session_blob_bytes, save_entry, save_upload_session, save_folder_id,
  load_entry, load_upload_session, load_folder_id, SessionStateBatch, RedbStore,
  prepare_session_state_batch, replace_session_state, persist_to_redb, load_from_redb,
}

-- A path as the engine makes it: normalised, safe and not empty.
abbrev pub IsKey : Text → Type 0
IsKey k = (is_safe_non_empty k ≡ true) × (from_text k ≡ k)

-- Every entry has such a path and a value that the encoder accepts, within `limit` bytes.
abbrev pub AreEntries : {A : Type 0} → Codec A → (Bytes → Type 0) → TextMap A → Type 0
AreEntries c P [] = Unit
AreEntries c P ((k, v) ∷ m) =
    (IsKey k × ((b : Bytes) × (c.serialize v ≡ some b) × P b)) × AreEntries c P m

abbrev pub AreFolders : TextMap Text → Type 0
AreFolders [] = Unit
AreFolders ((k, id) ∷ m) = (IsKey k × (is_empty (trim id) ≡ false)) × AreFolders m

-- What a save keeps of a session: everything, if this holds.
pub record CanSave (C : Codecs) (s : Store) : Type 0 where
  pub records_ordered : IsOrdered s.records
  pub records_entries : AreEntries C.sync_record (λ b. Unit) s.records
  pub conversions_ordered : IsOrdered s.conversions
  pub conversions_entries : AreEntries C.conversion (λ b. Unit) s.conversions
  pub uploads_ordered : IsOrdered s.upload_sessions
  pub uploads_entries :
      AreEntries C.upload_session (λ b. length b ≤ max_upload_session_blob_bytes) s.upload_sessions
  pub folders_ordered : IsOrdered s.folder_ids
  pub folders_entries : AreFolders s.folder_ids

entries-IsSavable :
    {A : Type 0} (c : Codec A) (m : TextMap A)
    → AreEntries c (λ b. Unit) m
    → IsSavable (save_entry c) (load_entry c) m
entries-IsSavable c [] a = tt
entries-IsSavable c ((k, v) ∷ m) ((key, (b, e, p)), rest) = (
  (b, rw (key.0, e), rw (c.deserialize-serialize v b e, key.1, key.0)),
  entries-IsSavable c m rest,
)

uploads-IsSavable :
    (c : Codec UploadSession) (m : TextMap UploadSession)
    → AreEntries c (λ b. length b ≤ max_upload_session_blob_bytes) m
    → IsSavable (save_upload_session c) (load_upload_session c) m
uploads-IsSavable c [] a = tt
uploads-IsSavable c ((k, v) ∷ m) ((key, (b, e, p)), rest) =
    let small : ltb max_upload_session_blob_bytes (length b) ≡ false = ground arith in
    (
      (b, rw (key.0, e, small), rw (small, c.deserialize-serialize v b e, key.1, key.0)),
      uploads-IsSavable c m rest,
    )

folders-IsSavable :
    (C : Codecs) (m : TextMap Text)
    → AreFolders m
    → IsSavable (save_folder_id C.into_bytes) (load_folder_id C.from_utf8) m
folders-IsSavable C [] a = tt
folders-IsSavable C ((k, id) ∷ m) ((key, filled), rest) = (
  (
    C.into_bytes id,
    rw (key.1, key.0, filled),
    rw (key.1, key.0, C.from_utf8-into_bytes id, filled),
  ),
  folders-IsSavable C m rest,
)

module _ (T : Table) (C : Codecs) where
  -- Let a session hold maps whose paths are normalised, safe and not empty, values that the encoders
  -- accept, upload sessions of at most 16 KiB and folder ids that are not blank. Then saving it
  -- succeeds, and a new session that loads the database holds the same records, conversions, upload
  -- sessions and folder ids, and no Drive view or root folder, whatever rows the database held before
  -- and whatever page token and finished operations the transaction also wrote.
  pub load-persist :
      (s : Store) (page_token : Option Text) (cleanup : List Text) (db : RedbStore T)
      → CanSave C s
      → (db' : RedbStore T) × (persist_to_redb T C s page_token cleanup db ≡ some db')
        × (load_from_redb T C db' (open_store s.sync_dir)
            ≡ record s { remote_snapshot = none; root_drive_folder_id = none })
  unfolding persist_to_redb load_from_redb prepare_session_state_batch replace_session_state
  load-persist s page_token cleanup db h =
      let (d1, e1, l1) =
        load-replace _ _ T s.records db.sync_metadata
          (entries-IsSavable C.sync_record s.records h.records_entries) h.records_ordered in
      let (d2, e2, l2) =
        load-replace _ _ T s.conversions db.conversions
          (entries-IsSavable C.conversion s.conversions h.conversions_entries)
          h.conversions_ordered in
      let (d3, e3, l3) =
        load-replace _ _ T s.upload_sessions db.upload_sessions
          (uploads-IsSavable C.upload_session s.upload_sessions h.uploads_entries)
          h.uploads_ordered in
      let (d4, e4, l4) =
        load-replace _ _ T s.folder_ids db.folder_ids
          (folders-IsSavable C s.folder_ids h.folders_entries) h.folders_ordered in
      let batch : SessionStateBatch = record {
        sync_metadata = d1;
        stale_sync_metadata = stale_keys (keys (T.rows db.sync_metadata)) d1;
        conversions = d2;
        stale_conversions = stale_keys (keys (T.rows db.conversions)) d2;
        upload_sessions = d3;
        stale_upload_sessions = stale_keys (keys (T.rows db.upload_sessions)) d3;
        folder_ids = d4;
        stale_folder_ids = stale_keys (keys (T.rows db.folder_ids)) d4;
      } in
      (
        replace_session_state T C batch page_token cleanup db,
        rw (e1, e2, e3, e4),
        λ i. record s {
          records = l1 i;
          conversions = l2 i;
          upload_sessions = l3 i;
          folder_ids = l4 i;
          remote_snapshot = none;
          root_drive_folder_id = none;
        },
      )

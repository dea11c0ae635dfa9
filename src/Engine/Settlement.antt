-- ===== src/Engine/Settlement.antt =====
-- Recovery as a whole: it empties the journal and settles every path's record.
use oxidrive.Base.{
  ◌≡◌, ◌≢◌, refl, ◌∙◌, ◌⊎◌, inl, inr, true, Option, none, some, List, [], ◌∷◌, arith, Option-cases,
  Bool-cases,
}
use oxidrive.Text.{Text}
use oxidrive.TextMap.{TextMap, lookup, keys}
use oxidrive.TextMap.Laws.{map_ext}
use oxidrive.Types.{UploadSession, PendingOp}
use oxidrive.Types.Path.{RelativePath, is_safe_non_empty}
use oxidrive.Store.Table.{Bytes, Table, Codec}
use oxidrive.Store.Batch.{Row, row, failed, skipped, add_row, batch_rows, stale_keys, delete_all}
use oxidrive.Store.BatchLaws.{listed, lookup-delete_all}
use oxidrive.Store.Session.{Store, get}
use oxidrive.Store.Persist.{
  Codecs, RedbStore, persist_to_redb, SessionStateBatch, prepare_session_state_batch,
  replace_session_state, save_entry, save_upload_session, save_folder_id,
}
use oxidrive.Engine.Recovery.{Progress, recover_rows, finish, recover_pending_operations}
use oxidrive.Engine.RecoveryLaws.{
  settled, journal_entry, AreNormalized, lookup-recover_rows, recover_rows-Settles,
}

-- The encoder accepts every value.
abbrev pub IsTotal : {A : Type 0} → Codec A → Type 0
IsTotal {A} c = (a : A) → (b : Bytes) × (c.serialize a ≡ some b)

add_row-total :
    (r : Row) (o : Option (TextMap Bytes)) (d : TextMap Bytes)
    → r ≢ failed
    → o ≡ some d
    → (d' : TextMap Bytes) × (add_row r o ≡ some d')
add_row-total skipped o d h e = (d, e)
add_row-total failed o d h e = absurd (h refl)
add_row-total (row k b) o d h e = ((k, b) ∷ d, rw e refl)

batch_rows-total :
    {A : Type 0} (f : Text → A → Row)
    → ((k : Text) (a : A) → f k a ≢ failed)
    → (m : TextMap A) → (d : TextMap Bytes) × (batch_rows f m ≡ some d)
unfolding batch_rows
batch_rows-total f h [] = ([], refl)
batch_rows-total f h ((k, a) ∷ m) =
    let (d, e) = batch_rows-total f h m in add_row-total (f k a) (batch_rows f m) d (h k a) e

save_entry-total :
    {A : Type 0} (c : Codec A) → IsTotal c → (k : Text) (a : A) → save_entry c k a ≢ failed
save_entry-total c t k a e =
    let (b, f) = t a in
    elim (Bool-cases (is_safe_non_empty k)) [
      | inl g ↦ ground (arith, e, f, g)
      | inr g ↦ ground (arith, e, f, g)
    ]

save_upload_session-total :
    (C : Codecs)
    → IsTotal C.upload_session
    → (k : Text) (a : UploadSession) → save_upload_session C.upload_session k a ≢ failed
save_upload_session-total C t k a e =
    let (b, f) = t a in
    elim (Bool-cases (is_safe_non_empty k)) [
      | inl g ↦ ground (arith, e, f, g)
      | inr g ↦ ground (arith, e, f, g)
    ]

save_folder_id-total : (C : Codecs) (k id : Text) → save_folder_id C.into_bytes k id ≢ failed
save_folder_id-total C k id e = ground (arith, e)

module _ (T : Table) (C : Codecs) where
  -- What a save needs of the encoders in order not to fail.
  abbrev pub CanEncode : Type 0
  CanEncode = IsTotal C.sync_record × IsTotal C.conversion × IsTotal C.upload_session

  persist-total :
      (s : Store) (db : RedbStore T)
      → CanEncode
      → (saved : RedbStore T) × (persist_to_redb T C s none [] db ≡ some saved)
        × (saved.pending_ops ≡ db.pending_ops)
  unfolding persist_to_redb prepare_session_state_batch replace_session_state delete_all
  persist-total s db (r, c, u) =
      let (d1, e1) =
        batch_rows-total (save_entry C.sync_record) (save_entry-total C.sync_record r) s.records in
      let (d2, e2) =
        batch_rows-total (save_entry C.conversion) (save_entry-total C.conversion c)
          s.conversions in
      let (d3, e3) =
        batch_rows-total (save_upload_session C.upload_session) (save_upload_session-total C u)
          s.upload_sessions in
      let (d4, e4) =
        batch_rows-total (save_folder_id C.into_bytes) (save_folder_id-total C) s.folder_ids in
      let batch : SessionStateBatch = record {
        sync_metadata = d1;
        stale_sync_metadata = stale_keys (keys (T.rows db.sync_metadata)) d1;
        conversions = d2;
        stale_conversions = stale_keys (keys (T.rows db.conversions)) d2;
        upload_sessions = d3;
        stale_upload_sessions = stale_keys (keys (T.rows db.upload_sessions)) d3;
        folder_ids = d4;
        stale_folder_ids = stale_keys (keys (T.rows db.folder_ids)) d4;
      } in
      (replace_session_state T C batch none [] db, rw (e1, e2, e3, e4) refl, refl)

module _ (T : Table) (C : Codecs) (P : Codec PendingOp) where
  rows-nil : (t : T.State) → ((q : Text) → lookup q (T.rows t) ≡ none) → T.rows t ≡ []
  unfolding lookup
  rows-nil t h = map_ext (T.rows t) [] (T.rows-IsOrdered t) tt h

  -- Finishing an empty or a non-empty list of remembered keys.
  finish-total :
      (s : Store) (ks : List Text) (db : RedbStore T)
      → CanEncode T C
      → ((q : Text) → (lookup q (T.rows db.pending_ops) ≡ none) ⊎ (listed q ks ≡ true))
      → (db' : RedbStore T) × (finish T C P s ks db ≡ some (s, db')) × (T.rows db'.pending_ops ≡ [])
  unfolding delete_all
  finish-total s [] db c h = (db, refl, rows-nil db.pending_ops (λ q. ground (arith, h q)))
  finish-total s (k ∷ ks) db c h =
      let (saved, e, f) = persist-total T C s db c in
      (
        record saved { pending_ops = delete_all T (k ∷ ks) saved.pending_ops },
        rw e refl,
        rows-nil (delete_all T (k ∷ ks) saved.pending_ops)
            (λ q. lookup-delete_all T q (k ∷ ks) saved.pending_ops ∙ rw f (ground (arith, h q))),
      )

  -- If the encoders accept every value and the keys of the journal are normalised paths, recovery
  -- succeeds and leaves the journal empty. The record of a safe, non-empty path is then what it was if the path
  -- had no readable journal entry, or an entry of an operation that had not begun or of a transfer that
  -- was complete; otherwise, for an operation that stopped half-way and for a completed deletion, the
  -- path has no record.
  pub recover_settles :
      (s : Store) (db : RedbStore T) (p : RelativePath)
      → CanEncode T C
      → AreNormalized (T.rows db.pending_ops)
      → is_safe_non_empty p ≡ true
      → (s' : Store) × (db' : RedbStore T) × (recover_pending_operations T C P s db
          ≡ some (s', db'))
        × (T.rows db'.pending_ops ≡ [])
        × (get p s' ≡ settled (journal_entry P (lookup p (T.rows db.pending_ops))) (get p s))
  unfolding recover_pending_operations get
  recover_settles s db p c n safe =
      let start : Progress T = record {
        store = s;
        pending_ops = db.pending_ops;
        recovered_pending_keys = [];
      } in
      let done = recover_rows T P (T.rows db.pending_ops) start in
      let (db', e, f) =
        finish-total done.store done.recovered_pending_keys
          (record db { pending_ops = done.pending_ops }) c
          (λ q.
            recover_rows-Settles T P q (T.rows db.pending_ops) start n
              (elim (Option-cases (lookup q (T.rows db.pending_ops))) [
                | inl g ↦ inr (inl g)
                | inr (b, g) ↦ inl (λ none_. ground (arith, g, none_))
              ])) in
      (
        done.store,
        db',
        e,
        f,
        lookup-recover_rows T P p (T.rows db.pending_ops) start safe
            (T.rows-IsOrdered db.pending_ops) n,
      )

-- ===== src/Engine/Recovery.antt =====
-- `recover_pending_operations` of src/sync/engine.rs: the journal of operations that an earlier run
-- did not finish. The counters it logs are left out.
use oxidrive.Base.{not, Option, none, some, List, [], ◌∷◌, ◌++◌, if◌then◌else◌}
use oxidrive.Text.{Text}
use oxidrive.TextMap.{TextMap}
use oxidrive.Types.{PendingOp, PendingOpKind, PendingOpStage, planned, side_effect_started}
use oxidrive.Types.Path.{RelativePath, from_text, is_safe_non_empty}
use oxidrive.Store.Table.{Bytes, Table, Codec}
use oxidrive.Store.Batch.{delete_all}
use oxidrive.Store.Session.{Store, remove_record, remove_conversion, remove_upload_session}
use oxidrive.Store.Persist.{Codecs, RedbStore, persist_to_redb}

-- Also `clear_path_state` of src/sync/executor.rs, which has the same body.
unfoldable pub clear_path_state_for_recovery : RelativePath → Store → Store
unfolding remove_record remove_conversion remove_upload_session
clear_path_state_for_recovery path store =
    remove_upload_session path (remove_conversion path (remove_record path store))

pub data Verdict : Type 0 where
  discard : Verdict
  purge : Verdict
  preserve : Verdict

-- The `match` on the kind and the stage.
unfoldable pub verdict : PendingOpKind → PendingOpStage → Verdict
verdict kind planned = discard
verdict kind side_effect_started = purge
verdict PendingOpKind.upload stage = preserve
verdict PendingOpKind.download stage = preserve
verdict PendingOpKind.delete_local stage = purge
verdict PendingOpKind.delete_remote stage = purge

module _ (T : Table) where
  -- What the loop over the journal keeps.
  pub record Progress : Type 0 where
    pub store : Store
    pub pending_ops : T.State
    pub recovered_pending_keys : List Text

  abbrev pub drop_entry : Text → Progress → Progress
  drop_entry key p = record p { pending_ops = T.delete key p.pending_ops }

  abbrev pub recover_verdict : RelativePath → Verdict → Progress → Progress
  recover_verdict path discard p = drop_entry path p
  recover_verdict path purge p = record p {
    store = clear_path_state_for_recovery path p.store;
    recovered_pending_keys = p.recovered_pending_keys ++ path ∷ [];
  }
  recover_verdict path preserve p = drop_entry path p

  abbrev pub recover_entry : Text → Option PendingOp → Progress → Progress
  recover_entry path_raw none p = drop_entry path_raw p
  recover_entry path_raw (some pending) p =
      recover_verdict (from_text path_raw) (verdict pending.kind pending.stage) p

  -- The body of the loop.
  abbrev pub recover_row : Codec PendingOp → Text → Bytes → Progress → Progress
  recover_row P path_raw data_ p =
      if not (is_safe_non_empty (from_text path_raw))
      then drop_entry path_raw p
      else recover_entry path_raw (P.deserialize data_) p

  unfoldable pub recover_rows : Codec PendingOp → TextMap Bytes → Progress → Progress
  unfolding verdict clear_path_state_for_recovery
  recover_rows P [] p = p
  recover_rows P ((path_raw, data_) ∷ rows) p = recover_rows P rows (recover_row P path_raw data_ p)

infixl 5 ◌>>=◌
abbrev ◌>>=◌ {ℓ κ} : {A : Type ℓ} {B : Type κ} → Option A → (A → Option B) → Option B
none >>= f = none
some a >>= f = f a

module _ (T : Table) (C : Codecs) (P : Codec PendingOp) where
  abbrev pub finish : Store → List Text → RedbStore T → Option (Store × RedbStore T)
  finish store [] db = some (store, db)
  finish store (key ∷ keys) db = do
    saved ← persist_to_redb T C store none [] db
    some (store, record saved { pending_ops = delete_all T (key ∷ keys) saved.pending_ops })

  abbrev finish_progress : RedbStore T → Progress T → Option (Store × RedbStore T)
  finish_progress db p =
      finish p.store p.recovered_pending_keys (record db { pending_ops = p.pending_ops })

  -- The session and the database after the recovery, or none if saving the session failed. Without
  -- rows the loop and what follows it change nothing, as the source's early return.
  unfoldable pub recover_pending_operations : Store → RedbStore T → Option (Store × RedbStore T)
  unfolding recover_rows persist_to_redb delete_all
  recover_pending_operations store db = finish_progress db (
      recover_rows T P (T.rows db.pending_ops)
        (record { store = store; pending_ops = db.pending_ops; recovered_pending_keys = [] }))

-- ===== src/Executor/Settles.antt =====
-- What the last writes of a transfer leave: the record, the conversion and the journal's entry.
use mathlib.Core.Path.{subst}
use oxidrive.Base.{
  ℕ, ◌≡◌, refl, sym, ap, ◌∙◌, ◌⊎◌, inl, inr, Option, none, some, ok, err, Option-cases,
  Result-cases,
}
use oxidrive.Text.{Text}
use oxidrive.Text.Order.{text_eq_refl}
use oxidrive.TextMap.{TextMap, lookup, insert}
use oxidrive.TextMap.Order.{IsOrdered}
use oxidrive.TextMap.Laws.{lookup-insert, lookup-remove}
use oxidrive.Types.{Timestamp, PendingOp, PendingOpKind, metadata_committed, WorkspaceConversion}
use oxidrive.Types.Path.{RelativePath}
use oxidrive.Drive.{DriveFile}
use oxidrive.Store.Table.{Table, Codec}
use oxidrive.Store.Session.{get, get_conversion, put_record, upsert_conversion, remove_conversion}
use oxidrive.Executor.Records.{synced_record, upsert_local_record}
use oxidrive.Executor.TrashRemote.{set_pending_op}
use oxidrive.Executor.TrashSteps.{entry_at}
use oxidrive.Engine.RecoveryLaws.{journal_entry}
use oxidrive.Executor.Effects.{
  World, Client, Disk, Metadata, on_store, journal_stage, ExecError, ◌>>=◌,
}
use oxidrive.Executor.Effects.Hoare.{Post, Ensures}
use oxidrive.Executor.Effects.Keeps.{IsFrame}
use oxidrive.Executor.Upload.{record_local, with_baseline}

-- The path is not a converted file, or its export baseline is this checksum.
abbrev pub Baseline : Text → Option WorkspaceConversion → Type 0
Baseline md5 none = Unit
Baseline md5 (some c) = c.last_export_md5 ≡ some md5

module _ {S D F : Type 0} (K : Disk F) (to_rfc3339 : Timestamp → Text) (now : Timestamp)
    (path : RelativePath) (f : F) (cs : TextMap WorkspaceConversion) where
  -- The state before the record is written, with these files and conversions.
  abbrev pub Ready : World S D F → Type 0
  Ready w = (w.disk ≡ f) × IsOrdered w.store.records × (w.store.conversions ≡ cs)

  abbrev pub Any : World S D F → Type 0
  Any w = Unit

  pub Ready-frame : IsFrame Ready Any
  Ready-frame = record { sessions = λ w u h. h; journal = λ w t h. h; fails = λ w h. tt }

  -- The record of the path is that of a file with this checksum and size, and this Drive file.
  abbrev pub Recorded : Text → ℕ → DriveFile → World S D F → Type 0
  Recorded md5 size r w =
      (w.store.conversions ≡ cs)
      × (meta : Metadata) × (K.metadata path f ≡ ok meta)
      × (get path w.store ≡ some (synced_record to_rfc3339 md5 meta.modified size now (some r)))

  pub record_local_lem :
      (md5 : Text) (size : ℕ) (r : DriveFile) (C : Client D F)
      → Ensures Ready
          (record_local C K to_rfc3339 now path (some r) (some md5) (some size))
          (λ _. Recorded md5 size r)
          Any
  unfolding record_local upsert_local_record put_record get ◌>>=◌
  record_local_lem md5 size r C = record { at = λ w h. go w h (Result-cases (K.metadata path f)) }
    where
      go :
          (w : World S D F)
          → Ready w
          → ((m : Metadata) × (K.metadata path f ≡ ok m))
            ⊎ ((e : ExecError) × (K.metadata path f ≡ err e))
          → Post
              (λ _. Recorded md5 size r)
              Any
              (record_local C K to_rfc3339 now path (some r) (some md5) (some size) w)
      go w (d, o, c) (inl (m, e)) = rw (d, e) (c, m, e, lookup-insert path _ w.store.records o)
      go w (d, o, c) (inr (x, e)) = rw (d, e) tt

  abbrev pub Stored : Text → ℕ → DriveFile → World S D F → Type 0
  Stored md5 size r w =
      (meta : Metadata) × (K.metadata path f ≡ ok meta)
      × (get path w.store ≡ some (synced_record to_rfc3339 md5 meta.modified size now (some r)))
      × Baseline md5 (get_conversion path w.store)

  pub Stored-frame : (md5 : Text) (size : ℕ) (r : DriveFile) → IsFrame (Stored md5 size r) Any
  unfolding get get_conversion
  Stored-frame md5 size r = record {
    sessions = λ w u h. h;
    journal = λ w t h. h;
    fails = λ w h. tt;
  }

  pub upsert_conversion_lem :
      (md5 : Text) (size : ℕ) (r : DriveFile) (c : WorkspaceConversion)
      → IsOrdered cs
      → Ensures
          (Recorded md5 size r)
          (on_store {S = S} {D = D} {F = F} (upsert_conversion path (with_baseline c md5)))
          (λ _. Stored md5 size r)
          Any
  unfolding upsert_conversion get get_conversion
  upsert_conversion_lem md5 size r c o = record {
    at = λ w h. (
      h.1,
      h.2,
      h.3,
      subst (Baseline md5)
          (sym (
            ap (λ m. lookup path (insert path (with_baseline c md5) m)) h.0
            ∙ lookup-insert path (with_baseline c md5) cs o))
          refl,
    );
  }

  pub remove_conversion_lem :
      (md5 : Text) (size : ℕ) (r : DriveFile)
      → Ensures
          (Recorded md5 size r)
          (on_store {S = S} {D = D} {F = F} (remove_conversion path))
          (λ _. Stored md5 size r)
          Any
  unfolding remove_conversion get get_conversion
  remove_conversion_lem md5 size r = record {
    at = λ w h.
        (h.1, h.2, h.3, rw (lookup-remove path path w.store.conversions, text_eq_refl path) tt);
  }

module _ (T : Table) (P : Codec PendingOp) {D F : Type 0} where
  -- The entry that the last write of a transfer leaves.
  abbrev pub IsCommitted : RelativePath → PendingOpKind → Timestamp → World T.State D F → Type 0
  IsCommitted path kind now w =
      entry_at T P path w.pending_ops
      ≡ some (record { kind = kind; stage = metadata_committed; updated_at = now })

module _ (T : Table) (P : Codec PendingOp) {D F : Type 0} {I : World T.State D F → Type 0} where
  pub commit_lem :
      {R : World T.State D F → Type 0} (frame : IsFrame I R) (now : Timestamp) (path : RelativePath)
      (kind : PendingOpKind)
      → Ensures I
          (journal_stage T P now path kind metadata_committed)
          (λ _ w. I w × IsCommitted T P path kind now w)
          R
  unfolding journal_stage set_pending_op
  commit_lem {R} frame now path kind = record { at = λ w h. go w h (Option-cases (P.serialize op)) }
    where
      op : PendingOp
      op = record { kind = kind; stage = metadata_committed; updated_at = now }

      go :
          (w : World T.State D F)
          → I w
          → (P.serialize op ≡ none) ⊎ ((b : _) × (P.serialize op ≡ some b))
          → Post
              (λ _ v. I v × IsCommitted T P path kind now v)
              R
              (journal_stage T P now path kind metadata_committed w)
      go w h (inl e) = rw e (frame.fails w h)
      go w h (inr (b, e)) = rw e (
        frame.journal w (T.put path b w.pending_ops) h,
        ap (λ m. journal_entry P (lookup path m)) (T.rows-put path b w.pending_ops)
            ∙ ap (journal_entry P)
                (lookup-insert path b (T.rows w.pending_ops) (T.rows-IsOrdered w.pending_ops))
            ∙ P.deserialize-serialize op b e,
      )

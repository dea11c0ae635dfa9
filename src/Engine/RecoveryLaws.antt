-- ===== src/Engine/RecoveryLaws.antt =====
-- What recovery leaves of the records and of the journal.
use oxidrive.Base.{
  ◌≡◌, ◌≢◌, refl, ap, ◌∙◌, ◌⊎◌, inl, inr, Bool, true, false, Option, none, some, List, [], ◌∷◌,
  ◌++◌, arith, if◌then◌else◌, Option-cases, Bool-cases,
}
use oxidrive.Text.{Text, text_eq}
use oxidrive.Text.Order.{eq_of_text_cmp, text_eq_iff}
use oxidrive.TextMap.{TextMap, lookup}
use oxidrive.TextMap.Order.{IsOrdered, lookup-Above}
use oxidrive.TextMap.Laws.{lookup-remove}
use oxidrive.Types.{
  SyncRecord, PendingOp, PendingOpKind, PendingOpStage, planned, side_effect_started,
  side_effect_done, metadata_committed,
}
use oxidrive.Types.Path.{RelativePath, from_text, is_safe_non_empty}
use oxidrive.Store.Table.{Bytes, Table, Codec}
use oxidrive.Store.BatchLaws.{listed}
use oxidrive.Store.Session.{Store, remove_record}
use oxidrive.Engine.Recovery.{
  clear_path_state_for_recovery, Verdict, discard, purge, preserve, verdict, Progress, drop_entry,
  recover_verdict, recover_row, recover_rows,
}

-- Whether an unfinished operation leaves its path's record trustworthy: it had not begun, or it was a
-- transfer whose effect is complete.
abbrev pub is_trusted : PendingOpKind → PendingOpStage → Bool
is_trusted kind planned = true
is_trusted kind side_effect_started = false
is_trusted PendingOpKind.upload stage = true
is_trusted PendingOpKind.download stage = true
is_trusted kind stage = false

-- The record after recovery, from the path's journal entry and the record before.
abbrev pub settled : Option PendingOp → Option SyncRecord → Option SyncRecord
settled none r = r
settled (some op) r = if is_trusted op.kind op.stage then r else none

abbrev pub journal_entry : Codec PendingOp → Option Bytes → Option PendingOp
journal_entry P none = none
journal_entry P (some b) = P.deserialize b

-- Every key of the journal is a normalised path, as the executor writes them.
abbrev pub AreNormalized : {A : Type 0} → TextMap A → Type 0
AreNormalized [] = Unit
AreNormalized ((k, a) ∷ m) = (from_text k ≡ k) × AreNormalized m

lookup-clear_path_state :
    (p path : RelativePath) (s : Store)
    → lookup p ((clear_path_state_for_recovery path s).records)
      ≡ (if text_eq p path then none else lookup p s.records)
unfolding clear_path_state_for_recovery remove_record
lookup-clear_path_state p path s = lookup-remove p path s.records

module _ (T : Table) (P : Codec PendingOp) where
  lookup-recover_verdict :
      (p path : RelativePath) (kind : PendingOpKind) (stage : PendingOpStage) (s : Progress T)
      → lookup p ((recover_verdict T path (verdict kind stage) s).store.records) ≡ (
          if text_eq p path
          then (if is_trusted kind stage then lookup p s.store.records else none)
          else lookup p s.store.records)
  unfolding verdict
  lookup-recover_verdict p path kind planned s = ground arith
  lookup-recover_verdict p path kind side_effect_started s = lookup-clear_path_state p path s.store
  lookup-recover_verdict p path PendingOpKind.upload side_effect_done s = ground arith
  lookup-recover_verdict p path PendingOpKind.upload metadata_committed s = ground arith
  lookup-recover_verdict p path PendingOpKind.download side_effect_done s = ground arith
  lookup-recover_verdict p path PendingOpKind.download metadata_committed s = ground arith
  lookup-recover_verdict p path PendingOpKind.delete_local side_effect_done s =
      lookup-clear_path_state p path s.store
  lookup-recover_verdict p path PendingOpKind.delete_local metadata_committed s =
      lookup-clear_path_state p path s.store
  lookup-recover_verdict p path PendingOpKind.delete_remote side_effect_done s =
      lookup-clear_path_state p path s.store
  lookup-recover_verdict p path PendingOpKind.delete_remote metadata_committed s =
      lookup-clear_path_state p path s.store

  lookup-recover_row :
      (p k : RelativePath) (b : Bytes) (s : Progress T)
      → from_text k ≡ k
      → is_safe_non_empty p ≡ true
      → lookup p ((recover_row T P k b s).store.records) ≡ (
          if text_eq p k
          then settled (P.deserialize b) (lookup p s.store.records)
          else lookup p s.store.records)
  lookup-recover_row p k b s n safe = elim (Bool-cases (is_safe_non_empty k)) [
    | inl good ↦ elim (Option-cases (P.deserialize b)) [
      | inl e ↦ rw (n, good, e) (ground arith)
      | inr (op, e) ↦ rw (n, good, e) (rw n (lookup-recover_verdict p k op.kind op.stage s))
    ]
    | inr bad ↦ rw (n, bad) (ground (arith, eq_of_text_cmp p k))
  ]

  pub lookup-recover_rows :
      (p : RelativePath) (rows : TextMap Bytes) (s : Progress T)
      → is_safe_non_empty p ≡ true
      → IsOrdered rows
      → AreNormalized rows
      → lookup p ((recover_rows T P rows s).store.records)
        ≡ settled (journal_entry P (lookup p rows)) (lookup p s.store.records)
  unfolding recover_rows lookup
  lookup-recover_rows p [] s safe o n = refl
  lookup-recover_rows p ((k, b) ∷ rows) s safe o n =
      lookup-recover_rows p rows (recover_row T P k b s) safe o.1 n.1
      ∙ rw (lookup-recover_row p k b s n.0 safe)
          (ground (arith, eq_of_text_cmp p k, lookup-Above k rows o.0))

-- A row goes away at once, or its key is remembered.
abbrev pub Settles : (T : Table) → Text → Progress T → Type 0
Settles T q s =
    (lookup q (T.rows s.pending_ops) ≡ none) ⊎ (listed q s.recovered_pending_keys ≡ true)

listed-append :
    (q k : Text) (ks : List Text)
    → listed q (ks ++ k ∷ []) ≡ (if listed q ks then true else text_eq q k)
listed-append q k [] = ground arith
listed-append q k (j ∷ ks) = ground (arith, listed-append q k ks)

module _ (T : Table) (P : Codec PendingOp) where
  drop_entry-Settles :
      (q k : Text) (s : Progress T) → (q ≡ k) ⊎ Settles T q s → Settles T q (drop_entry T k s)
  drop_entry-Settles q k s (inl e) = inl (
      ap (lookup q) (T.rows-delete k s.pending_ops)
      ∙ lookup-remove q k (T.rows s.pending_ops)
      ∙ ground (arith, (text_eq_iff q k).1 e))
  drop_entry-Settles q k s (inr (inl e)) = inl (
      ap (lookup q) (T.rows-delete k s.pending_ops)
      ∙ lookup-remove q k (T.rows s.pending_ops)
      ∙ ground (arith, e))
  drop_entry-Settles q k s (inr (inr e)) = inr e

  recover_verdict-Settles :
      (q k : Text) (v : Verdict) (s : Progress T)
      → (q ≡ k) ⊎ Settles T q s
      → Settles T q (recover_verdict T k v s)
  recover_verdict-Settles q k discard s h = drop_entry-Settles q k s h
  recover_verdict-Settles q k preserve s h = drop_entry-Settles q k s h
  recover_verdict-Settles q k purge s (inl e) =
      inr (listed-append q k s.recovered_pending_keys ∙ ground (arith, (text_eq_iff q k).1 e))
  recover_verdict-Settles q k purge s (inr (inl e)) = inl e
  recover_verdict-Settles q k purge s (inr (inr e)) =
      inr (listed-append q k s.recovered_pending_keys ∙ ground (arith, e))

  recover_row-Settles :
      (q k : Text) (b : Bytes) (s : Progress T)
      → from_text k ≡ k
      → (q ≡ k) ⊎ Settles T q s
      → Settles T q (recover_row T P k b s)
  recover_row-Settles q k b s n h = elim (Bool-cases (is_safe_non_empty k)) [
    | inl good ↦ elim (Option-cases (P.deserialize b)) [
      | inl e ↦ rw (n, good, e) (drop_entry-Settles q k s h)
      | inr (op, e) ↦
          rw (n, good, e) (rw n (recover_verdict-Settles q k (verdict op.kind op.stage) s h))
    ]
    | inr bad ↦ rw (n, bad) (drop_entry-Settles q k s h)
  ]

  pub recover_rows-Settles :
      (q : Text) (rows : TextMap Bytes) (s : Progress T)
      → AreNormalized rows
      → (lookup q rows ≢ none) ⊎ Settles T q s
      → Settles T q (recover_rows T P rows s)
  unfolding recover_rows lookup
  recover_rows-Settles q [] s n (inl h) = absurd (h refl)
  recover_rows-Settles q [] s n (inr h) = h
  recover_rows-Settles q ((k, b) ∷ rows) s n h =
      recover_rows-Settles q rows (recover_row T P k b s) n.1 (elim (Bool-cases (text_eq q k)) [
        | inl e ↦ inr (recover_row-Settles q k b s n.0 (inl ((text_eq_iff q k).0 e)))
        | inr e ↦ elim h [
          | inl g ↦ inl (λ f. g (rw e f))
          | inr g ↦ inr (recover_row-Settles q k b s n.0 (inr g))
        ]
      ])

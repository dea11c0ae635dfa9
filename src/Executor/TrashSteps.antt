-- ===== src/Executor/TrashSteps.antt =====
-- What the journal says behind each step of an interrupted deletion on Drive.
use oxidrive.Base.{
  ℕ, zero, suc, ◌≡◌, refl, ap, ◌∙◌, ◌⊎◌, inl, inr, Bool, true, false, Option, none, some, List, [],
  ◌∷◌, take, All, arith, Option-cases,
}
use oxidrive.Text.{Text}
use oxidrive.Text.Order.{text_eq_refl}
use oxidrive.TextMap.{TextMap, lookup, insert, upsert}
use oxidrive.TextMap.Laws.{lookup-insert_at}
use oxidrive.Types.{
  Timestamp, Tombstone, PendingOp, PendingOpKind, PendingOpStage, planned, side_effect_started,
  side_effect_done, metadata_committed,
}
use oxidrive.Types.Path.{RelativePath, from_text}
use oxidrive.Store.Table.{Table, Codec}
use oxidrive.Engine.RecoveryLaws.{is_trusted, journal_entry, AreNormalized}
use oxidrive.Executor.Tombstone.{write_tombstone, first_observation}
use oxidrive.Executor.TrashRemote.{
  set_pending_op, TrashStep, journal, request, tombstone, clear, Live, trash_step, go_on, run_steps,
}

AreNormalized-insert :
    {A : Type 0} (k : Text) (a : A) (m : TextMap A)
    → from_text k ≡ k
    → AreNormalized m
    → AreNormalized (insert k a m)
unfolding upsert
AreNormalized-insert k a [] n h = (n, tt)
AreNormalized-insert k a ((j, b) ∷ m) n h = ground (arith, n, h, AreNormalized-insert k a m n)

abbrev pub IsPlanned : TrashStep → Type 0
IsPlanned (journal planned) = Unit
IsPlanned step = ⊥

-- The journal's readable entry for a path.
abbrev pub entry_at : (T : Table) → Codec PendingOp → RelativePath → T.State → Option PendingOp
entry_at T P path t = journal_entry P (lookup path (T.rows t))

module _ (T : Table) (P : Codec PendingOp) (C : Codec Tombstone) {D : Type 0}
    (trash : Text → D → D × Bool) (path : RelativePath) (remote_id device_id : Text)
    (now : Timestamp) (normal : from_text path ≡ path) where
  -- Writing an entry either fails, or the entry is read back and the keys stay normalised.
  pub journal-writes :
      (stage : PendingOpStage) (t : T.State)
      → AreNormalized (T.rows t)
      → (set_pending_op T P path PendingOpKind.delete_remote stage now t ≡ none)
        ⊎ ((t' : T.State) × (set_pending_op T P path PendingOpKind.delete_remote stage now t
              ≡ some t')
            × (entry_at T P path t'
                ≡ some (record {
                  kind = PendingOpKind.delete_remote;
                  stage = stage;
                  updated_at = now;
                }))
            × AreNormalized (T.rows t'))
  unfolding set_pending_op
  journal-writes stage t n =
      let op : PendingOp = record {
        kind = PendingOpKind.delete_remote;
        stage = stage;
        updated_at = now;
      } in
      elim (Option-cases (P.serialize op)) [
        | inl e ↦ inl (rw e refl)
        | inr (b, e) ↦
            let rows = T.rows-put path b t in
            let at : lookup path (T.rows (T.put path b t)) ≡ some b =
              ap (lookup path) rows
              ∙ ground (
                arith,
                lookup-insert_at path path b (T.rows t) (T.rows-IsOrdered t),
                text_eq_refl path,
              ) in
            inr (
              T.put path b t,
              rw e refl,
              ap (journal_entry P) at ∙ P.deserialize-serialize op b e,
              rw rows (AreNormalized-insert path b (T.rows t) normal n),
            )
      ]

  -- The journal tells recovery not to trust the record.
  abbrev pub IsHalf : Live T.State D → Type 0
  IsHalf live =
      AreNormalized (T.rows live.pending_ops)
      × (op : PendingOp) × (entry_at T P path live.pending_ops ≡ some op)
      × (is_trusted op.kind op.stage ≡ false)

  journal_keeps_IsHalf :
      (stage : PendingOpStage) (live : Live T.State D)
      → is_trusted PendingOpKind.delete_remote stage ≡ false
      → IsHalf live
      → IsHalf (trash_step T P C trash path remote_id device_id now (journal stage) live).0
  unfolding trash_step
  journal_keeps_IsHalf stage live u (n, op, e, f) = elim (journal-writes stage live.pending_ops n) [
    | inl g ↦ rw g (n, op, e, f)
    | inr (t, g, h, m) ↦ rw g (m, _, h, u)
  ]

  step_keeps_IsHalf :
      (step : TrashStep) (live : Live T.State D)
      → (IsPlanned step → ⊥)
      → IsHalf live
      → IsHalf (trash_step T P C trash path remote_id device_id now step live).0
  unfolding trash_step
  step_keeps_IsHalf (journal planned) live x h = absurd (x tt)
  step_keeps_IsHalf (journal side_effect_started) live x h =
      journal_keeps_IsHalf side_effect_started live refl h
  step_keeps_IsHalf (journal side_effect_done) live x h =
      journal_keeps_IsHalf side_effect_done live refl h
  step_keeps_IsHalf (journal metadata_committed) live x h =
      journal_keeps_IsHalf metadata_committed live refl h
  step_keeps_IsHalf request live x h = h
  step_keeps_IsHalf tombstone live x h =
      elim (Option-cases (
        write_tombstone T C path (first_observation (some remote_id) now device_id)
          live.tombstones)) [ inl e ↦ rw e h | inr (t, e) ↦ rw e h ]
  step_keeps_IsHalf clear live x h = h

  pub run_keeps_IsHalf :
      (steps : List TrashStep) (live : Live T.State D)
      → All (λ s. IsPlanned s → ⊥) steps
      → IsHalf live
      → IsHalf (run_steps T P C trash path remote_id device_id now steps live).0
  unfolding run_steps
  run_keeps_IsHalf [] live x h = h
  run_keeps_IsHalf (step ∷ steps) live x h =
      go (trash_step T P C trash path remote_id device_id now step live)
        (step_keeps_IsHalf step live x.0 h) (λ l. run_keeps_IsHalf steps l x.1)
    where
      go :
          (r : Live T.State D × Bool)
          → IsHalf r.0
          → ((l : Live T.State D)
              → IsHalf l
              → IsHalf (run_steps T P C trash path remote_id device_id now steps l).0)
          → IsHalf
              (go_on T P C trash path remote_id device_id now
                (run_steps T P C trash path remote_id device_id now steps)
                r).0
      go (l, true) h next = next l h
      go (l, false) h next = h

  pub take-All :
      (Q : TrashStep → Type 0) (n : ℕ) (steps : List TrashStep) → All Q steps → All Q (take n steps)
  take-All Q zero steps a = tt
  take-All Q (suc n) [] a = tt
  take-All Q (suc n) (s ∷ steps) a = (a.0, take-All Q n steps a.1)

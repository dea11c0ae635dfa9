-- ===== src/Executor/TrashLaws.antt =====
-- A deletion on Drive that is interrupted at any point is either not begun or forgotten.
use mathlib.Core.Path.{subst}
use oxidrive.Base.{
  ℕ, zero, suc, ◌≡◌, refl, sym, ap, ◌∙◌, ◌⊎◌, inl, inr, Bool, true, Option, none, some, List, [],
  ◌∷◌, take, All,
}
use oxidrive.Text.{Text}
use oxidrive.Types.{
  Timestamp, Tombstone, SyncRecord, PendingOp, PendingOpKind, PendingOpStage, planned,
  side_effect_started, side_effect_done, metadata_committed,
}
use oxidrive.Types.Path.{RelativePath, from_text, is_safe_non_empty}
use oxidrive.Store.Table.{Table, Codec}
use oxidrive.Store.Session.{Store, get}
use oxidrive.Store.Persist.{Codecs, RedbStore}
use oxidrive.Engine.Recovery.{recover_pending_operations}
use oxidrive.Engine.RecoveryLaws.{settled, AreNormalized}
use oxidrive.Engine.Settlement.{CanEncode, recover_settles}
use oxidrive.Executor.TrashRemote.{
  set_pending_op, TrashStep, journal, request, tombstone, clear, trash_steps, Live, trash_step,
  go_on, journaled, run_steps, stopped_after,
}
use oxidrive.Executor.TrashSteps.{
  IsPlanned, journal-writes, run_keeps_IsHalf, take-All, IsHalf, entry_at,
}

module _ (T : Table) (P : Codec PendingOp) (C : Codec Tombstone) {D : Type 0}
    (trash : Text → D → D × Bool) (path : RelativePath) (remote_id device_id : Text)
    (now : Timestamp) (normal : from_text path ≡ path) where
  -- Drive has not been asked, and recovery trusts the record.
  abbrev IsBefore : Live T.State D → Live T.State D → Type 0
  IsBefore live0 live =
      AreNormalized (T.rows live.pending_ops)
      × (live.drive ≡ live0.drive)
      × ((r : Option SyncRecord) → settled (entry_at T P path live.pending_ops) r ≡ r)

  -- A run that starts with a journal entry.
  run-journal :
      (stage : PendingOpStage) (steps : List TrashStep) (live : Live T.State D) (o : Option T.State)
      → set_pending_op T P path PendingOpKind.delete_remote stage now live.pending_ops ≡ o
      → run_steps T P C trash path remote_id device_id now (journal stage ∷ steps) live
        ≡ go_on T P C trash path remote_id device_id now
            (run_steps T P C trash path remote_id device_id now steps)
            (journaled T P C trash path remote_id device_id now live o)
  unfolding run_steps trash_step
  run-journal stage steps live o g =
      ap
        (λ o.
          go_on T P C trash path remote_id device_id now
            (run_steps T P C trash path remote_id device_id now steps)
            (journaled T P C trash path remote_id device_id now live o))
        g

  abbrev IsStopped : Live T.State D → Live T.State D × Bool → Type 0
  IsStopped live r = IsBefore live r.0 ⊎ IsHalf T P C trash path remote_id device_id now normal r.0

  started-IsStopped :
      (n : ℕ) (steps : List TrashStep) (live0 live : Live T.State D)
      → All (λ s. IsPlanned s → ⊥) steps
      → IsBefore live0 live
      → IsStopped live0 (
          run_steps T P C trash path remote_id device_id now
            (take n (journal side_effect_started ∷ steps))
            live)
  unfolding run_steps
  started-IsStopped zero steps live0 live x b = inl b
  started-IsStopped (suc n) steps live0 live x b =
      elim (journal-writes T P C trash path remote_id device_id now normal side_effect_started
        live.pending_ops b.0) [
          | inl g ↦
              subst (IsStopped live0)
                (sym (run-journal side_effect_started (take n steps) live none g)) (inl b)
          | inr (t, g, h, m) ↦
              subst (IsStopped live0)
                (sym (run-journal side_effect_started (take n steps) live (some t) g))
                (inr (
                  run_keeps_IsHalf T P C trash path remote_id device_id now normal (take n steps)
                    (record live { pending_ops = t })
                    (take-All T P C trash path remote_id device_id now normal _ n steps x)
                    (m, _, h, refl)))
        ]

  steps-IsStopped :
      (n : ℕ) (live : Live T.State D)
      → AreNormalized (T.rows live.pending_ops)
      → entry_at T P path live.pending_ops ≡ none
      → IsStopped live
          (run_steps T P C trash path remote_id device_id now (take n trash_steps) live)
  unfolding run_steps
  steps-IsStopped zero live n e = inl (n, refl, λ r. rw e refl)
  steps-IsStopped (suc k) live n e =
      let more =
        request ∷ journal side_effect_done ∷ tombstone ∷ clear ∷ journal metadata_committed ∷ [] in
      let rest = take k (journal side_effect_started ∷ more) in
      elim (journal-writes T P C trash path remote_id device_id now normal planned live.pending_ops
        n) [
          | inl g ↦
              subst (IsStopped live) (sym (run-journal planned rest live none g))
                (inl (n, refl, λ r. rw e refl))
          | inr (t, g, h, m) ↦
              subst (IsStopped live) (sym (run-journal planned rest live (some t) g)) (
                started-IsStopped k more live (record live { pending_ops = t })
                  (λ z. z, (λ z. z, (λ z. z, (λ z. z, (λ z. z, tt))))) (m, refl, λ r. rw h refl))
        ]

  -- If the process stops behind any number of steps of a deletion on Drive, and the journal had no
  -- entry for the path before, then the next run, which starts from the saved session, recovers, and leaves the
  -- journal empty. Either Drive is as it was and the path's record is the saved one, so that the
  -- deletion is decided again, or the path has no record. The path must be safe, not empty and
  -- normalised, as the journal's other keys are, and the encoders must accept every value.
  pub trash_crash_safe :
      (K : Codecs) (n : ℕ) (live : Live T.State D) (saved : Store) (db : RedbStore T)
      → CanEncode T K
      → AreNormalized (T.rows live.pending_ops)
      → entry_at T P path live.pending_ops ≡ none
      → is_safe_non_empty path ≡ true
      → (saved' : Store) × (db' : RedbStore T) × (recover_pending_operations T K P saved
            (record db {
              pending_ops =
                  (stopped_after T P C trash path remote_id device_id now n live).pending_ops;
            })
          ≡ some (saved', db'))
        × (T.rows db'.pending_ops ≡ [])
        × ((((stopped_after T P C trash path remote_id device_id now n live).drive ≡ live.drive)
              × (get path saved' ≡ get path saved))
            ⊎ (get path saved' ≡ none))
  unfolding run_steps
  trash_crash_safe K n live saved db c norm e safe =
      let after = stopped_after T P C trash path remote_id device_id now n live in
      elim (steps-IsStopped n live norm e) [
        | inl (m, same, trusted) ↦
            let (s', db', r, empty, settles) =
              recover_settles T K P saved (record db { pending_ops = after.pending_ops }) path c m
                safe in
            (s', db', r, empty, inl (same, settles ∙ trusted (get path saved)))
        | inr (m, op, h, u) ↦
            let (s', db', r, empty, settles) =
              recover_settles T K P saved (record db { pending_ops = after.pending_ops }) path c m
                safe in
            (s', db', r, empty, inr (settles ∙ rw (h, settled, u) refl))
      ]

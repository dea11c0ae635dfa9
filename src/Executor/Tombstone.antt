-- ===== src/Executor/Tombstone.antt =====
-- Deletions are confirmed over cycles: the tombstones of src/sync/executor.rs, and their clearing in
-- src/sync/engine.rs. A read or write that the encoder refuses is an error (none).
use oxidrive.Base.{
  ℕ, ◌+◌, min, Bool, false, not, Option, none, some, List, [], ◌∷◌, leb, if◌then◌else◌,
}
use oxidrive.Text.{Text}
use oxidrive.TextMap.{lookup, keys}
use oxidrive.Types.{Timestamp, Tombstone, SyncAction}
use oxidrive.Types.Path.{
  RelativePath, from_text, is_safe_non_empty, normalize_relative, is_safe_normalized_relative,
}
use oxidrive.Store.Table.{Table, Codec}
use oxidrive.Decision.{contains}

abbrev pub delete_confirmations_required : ℕ
delete_confirmations_required = 1

abbrev pub u32_max : ℕ
u32_max = 4_294_967_295

infixl 5 ◌>>=◌
abbrev ◌>>=◌ {ℓ κ} : {A : Type ℓ} {B : Type κ} → Option A → (A → Option B) → Option B
none >>= f = none
some a >>= f = f a

abbrev or_else_id : Option Text → Option Text → Option Text
or_else_id none id = id
or_else_id (some own) id = some own

abbrev pub first_observation : Option Text → Timestamp → Text → Tombstone
first_observation drive_file_id now device_id = record {
  drive_file_id = drive_file_id;
  deleted_at = now;
  by_device = device_id;
  confirmations = 0;
}

abbrev pub observed_again : Option Text → Timestamp → Text → Tombstone → Tombstone
observed_again drive_file_id now device_id tombstone = record {
  drive_file_id = or_else_id tombstone.drive_file_id drive_file_id;
  deleted_at = now;
  by_device = device_id;
  confirmations = min (tombstone.confirmations + 1) u32_max;
}

module _ (T : Table) (C : Codec Tombstone) where
  -- The outer option is the error, the inner one `Option<Tombstone>`.
  unfoldable pub read_tombstone : RelativePath → T.State → Option (Option Tombstone)
  unfolding lookup
  read_tombstone path t = elim (lookup path (T.rows t)) [
    | none ↦ some none
    | some raw ↦ elim (C.deserialize raw) [ none ↦ none | some parsed ↦ some (some parsed) ]
  ]

  unfoldable pub write_tombstone : RelativePath → Tombstone → T.State → Option T.State
  write_tombstone path tombstone t = do payload ← C.serialize tombstone; some (T.put path payload t)

  abbrev pub clear_tombstone : RelativePath → T.State → T.State
  clear_tombstone path t = T.delete path t

  abbrev confirm_read :
      RelativePath
      → Option Text
      → Timestamp
      → Text
      → T.State
      → Option Tombstone
      → Option (Bool × T.State)
  confirm_read path drive_file_id now device_id t none = do
    t' ← write_tombstone path (first_observation drive_file_id now device_id) t
    some (false, t')
  confirm_read path drive_file_id now device_id t (some tombstone) = do
    let next = observed_again drive_file_id now device_id tombstone
    t' ← write_tombstone path next t
    some (leb delete_confirmations_required next.confirmations, t')

  -- Whether the deletion is confirmed, and the new tombstones.
  unfoldable pub confirm_delete_observation :
      RelativePath → Option Text → Timestamp → Text → T.State → Option (Bool × T.State)
  unfolding read_tombstone write_tombstone
  confirm_delete_observation path drive_file_id now device_id t = do
    found ← read_tombstone path t
    confirm_read path drive_file_id now device_id t found

-- The paths whose deletion is planned in this cycle.
unfoldable pub waiting_paths : List SyncAction → List Text
waiting_paths [] = []
waiting_paths (SyncAction.delete_local path ∷ rest) = path ∷ waiting_paths rest
waiting_paths (SyncAction.delete_remote path id ∷ rest) = path ∷ waiting_paths rest
waiting_paths (other ∷ rest) = waiting_paths rest

module _ (T : Table) where
  -- The body of the loop over the listed tombstones.
  abbrev pub clear_row : List Text → Text → T.State → T.State
  clear_row waiting path_raw t =
      let rel = from_text path_raw in
      if not (is_safe_non_empty rel)
      then T.delete path_raw t
      else if contains waiting rel
      then t
      else T.delete rel t

  unfoldable pub clear_loop : List Text → List Text → T.State → T.State
  clear_loop waiting [] t = t
  clear_loop waiting (k ∷ ks) t = clear_loop waiting ks (clear_row waiting k t)

  unfoldable pub clear_resolved_tombstones : List SyncAction → T.State → T.State
  unfolding waiting_paths clear_loop contains normalize_relative is_safe_normalized_relative
  clear_resolved_tombstones acts t = clear_loop (waiting_paths acts) (keys (T.rows t)) t

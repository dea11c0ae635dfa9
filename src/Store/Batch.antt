-- ===== src/Store/Batch.antt =====
-- One table's share of `prepare_session_state_batch`, of the transaction that applies the batch, and
-- of `load_from_redb`. The source writes these loops out once per table.
use oxidrive.Base.{Option, none, some, List, [], ◌∷◌, if◌then◌else◌}
use oxidrive.Text.{Text}
use oxidrive.TextMap.{TextMap, lookup, insert, contains_key}
use oxidrive.Store.Table.{Bytes, Table}

-- What the loop over a snapshot does with an entry: `continue`, the `?` of an encoder's error, or a
-- row.
pub data Row : Type 0 where
  skipped : Row
  failed : Row
  row : Text → Bytes → Row

abbrev pub add_row : Row → Option (TextMap Bytes) → Option (TextMap Bytes)
add_row skipped rest = rest
add_row failed rest = none
add_row (row k b) none = none
add_row (row k b) (some d) = some ((k, b) ∷ d)

-- The rows to write, or none if an encoder failed.
unfoldable pub batch_rows {ℓ} : {A : Type ℓ} → (Text → A → Row) → TextMap A → Option (TextMap Bytes)
batch_rows encode [] = some []
batch_rows encode ((k, v) ∷ m) = add_row (encode k v) (batch_rows encode m)

-- `existing_keys.difference(&desired_keys)`
unfoldable pub stale_keys : List Text → TextMap Bytes → List Text
unfolding lookup
stale_keys [] desired = []
stale_keys (k ∷ ks) desired =
    let rest = stale_keys ks desired in if contains_key k desired then rest else k ∷ rest

module _ (T : Table) where
  unfoldable pub put_all : TextMap Bytes → T.State → T.State
  put_all [] t = t
  put_all ((k, b) ∷ d) t = put_all d (T.put k b t)

  unfoldable pub delete_all : List Text → T.State → T.State
  delete_all [] t = t
  delete_all (k ∷ ks) t = delete_all ks (T.delete k t)

  -- The transaction's loops over one table.
  unfoldable pub replace_rows : TextMap Bytes → List Text → T.State → T.State
  unfolding put_all delete_all
  replace_rows rows stale t = delete_all stale (put_all rows t)

-- The loop over the rows of a table: a row that does not decode to a safe entry is left out.
unfoldable pub load_rows {ℓ} :
    {A : Type ℓ} → (Text → Bytes → Option (Text × A)) → TextMap Bytes → TextMap A → TextMap A
load_rows decode [] m = m
load_rows decode ((k, b) ∷ d) m =
    load_rows decode d (elim (decode k b) [ none ↦ m | some (j, v) ↦ insert j v m ])

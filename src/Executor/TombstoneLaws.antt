-- ===== src/Executor/TombstoneLaws.antt =====
-- One observation of a deletion never confirms it, the next one does, and a cycle that does not plan
-- the deletion starts the count again.
use oxidrive.Base.{◌≡◌, inl, inr, Bool, true, false, Option, none, some, arith, Option-cases}
use oxidrive.Text.{Text}
use oxidrive.TextMap.{TextMap}
use oxidrive.TextMap.Laws.{lookup-insert}
use oxidrive.Types.{Timestamp, Tombstone}
use oxidrive.Types.Path.{RelativePath}
use oxidrive.Store.Table.{Bytes, Table, Codec}
use oxidrive.Executor.Tombstone.{
  read_tombstone, write_tombstone, first_observation, observed_again, confirm_delete_observation,
}

module _ (T : Table) (C : Codec Tombstone) where
  read-put :
      (path : RelativePath) (a : Tombstone) (b : Bytes) (t : T.State)
      → C.serialize a ≡ some b
      → read_tombstone T C path (T.put path b t) ≡ some (some a)
  unfolding read_tombstone
  read-put path a b t e = rw (
    T.rows-put path b t,
    read_tombstone,
    lookup-insert path b (T.rows t) (T.rows-IsOrdered t),
    C.deserialize-serialize a b e,
  )

  -- The first observation of a deletion is recorded and does not confirm it; the second one confirms
  -- it, provided that the encoder accepts the two tombstones.
  pub confirm_on_second :
      (path : RelativePath) (id id' : Option Text) (now now' : Timestamp) (device device' : Text)
      (t : T.State)
      → ((a : Tombstone) → (b : Bytes) × (C.serialize a ≡ some b))
      → read_tombstone T C path t ≡ some none
      → (t' : T.State) × (t'' : T.State) × (confirm_delete_observation T C path id now device t
          ≡ some (false, t'))
        × (confirm_delete_observation T C path id' now' device' t' ≡ some (true, t''))
  unfolding confirm_delete_observation write_tombstone
  confirm_on_second path id id' now now' device device' t total h =
      let first = first_observation id now device in
      let second = observed_again id' now' device' first in
      let (b, e) = total first in
      let (b', e') = total second in
      let t' = T.put path b t in
      (t', T.put path b' t', rw (h, e), rw (read-put path first b t e, e'))

  -- A deletion is confirmed only if an earlier observation of the same path had been recorded.
  pub confirmed-read :
      (path : RelativePath) (id : Option Text) (now : Timestamp) (device : Text) (t t' : T.State)
      → confirm_delete_observation T C path id now device t ≡ some (true, t')
      → (a : Tombstone) × (read_tombstone T C path t ≡ some (some a))
  unfolding confirm_delete_observation write_tombstone
  confirmed-read path id now device t t' h = elim (Option-cases (read_tombstone T C path t)) [
    | inl e ↦ ground (arith, e)
    | inr (none, e) ↦ elim (Option-cases (C.serialize (first_observation id now device))) [
      | inl f ↦ ground (arith, e, f)
      | inr (b, f) ↦ ground (arith, e, f)
    ]
    | inr (some a, e) ↦ (a, e)
  ]

-- What is left of a path's row: all of it if its deletion is planned, else nothing.
abbrev pub left_over {ℓ} : {A : Type ℓ} → Bool → Option A → Option A
left_over true row = row
left_over false row = none

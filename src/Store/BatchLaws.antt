-- ===== src/Store/BatchLaws.antt =====
-- A batch replaces a table's rows by its own, and loading them gives the snapshot back.
use oxidrive.Base.{
  ◌≡◌, refl, ap, ◌∙◌, Bool, true, false, Option, none, some, List, [], ◌∷◌, arith, if◌then◌else◌,
  inl, inr, Bool-cases,
}
use oxidrive.Text.{Text, text_eq}
use oxidrive.Text.Order.{eq_of_text_cmp, text_cmp_refl}
use oxidrive.TextMap.{TextMap, lookup, insert, contains_key, keys}
use oxidrive.TextMap.Order.{Above, IsOrdered, upsert-IsOrdered, lookup-Above}
use oxidrive.TextMap.Laws.{lookup-upsert, lookup-remove, map_ext}
use oxidrive.Store.Table.{Bytes, Table}
use oxidrive.Store.Batch.{
  Row, row, batch_rows, stale_keys, put_all, delete_all, replace_rows, load_rows,
}

insert_all {ℓ} : {A : Type ℓ} → TextMap A → TextMap A → TextMap A
insert_all [] m = m
insert_all ((k, v) ∷ d) m = insert_all d (insert k v m)

-- The empty type, at every level.
data Empty {ℓ} : Type ℓ where

abbrev first {ℓ} : {A : Type ℓ} → Option A → Option A → Option A
first none y = y
first (some a) y = some a

module _ {ℓ} {A : Type ℓ} where
  insert_all-IsOrdered : (d m : TextMap A) → IsOrdered m → IsOrdered (insert_all d m)
  unfolding insert_all
  insert_all-IsOrdered [] m o = o
  insert_all-IsOrdered ((k, v) ∷ d) m o = insert_all-IsOrdered d _ (upsert-IsOrdered _ k v m o)

  lookup-insert_all :
      (k : Text) (d m : TextMap A)
      → IsOrdered d
      → IsOrdered m
      → lookup k (insert_all d m) ≡ first (lookup k d) (lookup k m)
  unfolding insert_all lookup
  lookup-insert_all k [] m p o = refl
  lookup-insert_all k ((j, v) ∷ d) m p o = ground (
    arith,
    lookup-insert_all k d (insert j v m) p.1 (upsert-IsOrdered _ j v m o),
    lookup-upsert (λ _. v) k j v m o,
    lookup-Above j d p.0,
    eq_of_text_cmp k j,
  )

  insert_all-nil : (d : TextMap A) → IsOrdered d → insert_all d [] ≡ d
  unfolding lookup
  insert_all-nil d o =
      map_ext (insert_all d []) d (insert_all-IsOrdered d [] tt) o
        (λ k. lookup-insert_all k d [] o tt ∙ first-none (lookup k d))
    where
      first-none : (x : Option A) → first x none ≡ x
      first-none none = refl
      first-none (some a) = refl

abbrev pub listed : Text → List Text → Bool
listed k [] = false
listed k (j ∷ ks) = if text_eq k j then true else listed k ks

lookup-stale :
    (k : Text) (m desired : TextMap Bytes)
    → listed k (stale_keys (keys m) desired)
      ≡ (if contains_key k m then (if contains_key k desired then false else true) else false)
unfolding stale_keys lookup
lookup-stale k [] desired = refl
lookup-stale k ((j, b) ∷ m) desired = elim (Bool-cases (text_eq k j)) [
  | inl same ↦ ground (arith, same, eq_of_text_cmp k j, text_cmp_refl k, lookup-stale k m desired)
  | inr other ↦ ground (arith, other, lookup-stale k m desired)
]

module _ (T : Table) where
  rows-put_all :
      (d : TextMap Bytes) (t : T.State) → T.rows (put_all T d t) ≡ insert_all d (T.rows t)
  unfolding put_all insert_all
  rows-put_all [] t = refl
  rows-put_all ((k, b) ∷ d) t = rows-put_all d (T.put k b t) ∙ ap (insert_all d) (T.rows-put k b t)

  pub lookup-delete_all :
      (k : Text) (ks : List Text) (t : T.State)
      → lookup k (T.rows (delete_all T ks t)) ≡ (if listed k ks then none else lookup k (T.rows t))
  unfolding delete_all
  lookup-delete_all k [] t = refl
  lookup-delete_all k (j ∷ ks) t = ground (
    arith,
    lookup-delete_all k ks (T.delete j t),
    ap (lookup k) (T.rows-delete j t),
    lookup-remove k j (T.rows t),
  )

  -- After the transaction the table holds the desired rows and no other.
  pub rows-replace_rows :
      (d : TextMap Bytes) (t : T.State)
      → IsOrdered d
      → T.rows (replace_rows T d (stale_keys (keys (T.rows t)) d) t) ≡ d
  unfolding replace_rows
  rows-replace_rows d t o = map_ext _ d (T.rows-IsOrdered _) o λ k. ground (
    arith,
    lookup-delete_all k (stale_keys (keys (T.rows t)) d) (put_all T d t),
    ap (lookup k) (rows-put_all d t),
    lookup-insert_all k d (T.rows t) o (T.rows-IsOrdered t),
    lookup-stale k (T.rows t) d,
  )

module _ {ℓ} {A : Type ℓ} (encode : Text → A → Row)
    (decode : Text → Bytes → Option (Text × A)) where
  -- Every entry is encoded under its own key, to a row that decodes to it.
  abbrev pub IsSavable : TextMap A → Type ℓ
  IsSavable [] = Unit
  IsSavable ((k, v) ∷ m) =
      ((b : Bytes) × (encode k v ≡ row k b) × (decode k b ≡ some (k, v))) × IsSavable m

  -- The rows are the encoded entries, in their order.
  abbrev Encodes : TextMap A → TextMap Bytes → Type ℓ
  Encodes [] [] = Unit
  Encodes [] (_ ∷ _) = Empty
  Encodes (_ ∷ _) [] = Empty
  Encodes ((k, v) ∷ m) ((j, b) ∷ d) = (j ≡ k) × (decode k b ≡ some (k, v)) × Encodes m d

  batch_rows-Encodes :
      (m : TextMap A)
      → IsSavable m
      → (d : TextMap Bytes) × (batch_rows encode m ≡ some d) × Encodes m d
  unfolding batch_rows
  batch_rows-Encodes [] s = ([], refl, tt)
  batch_rows-Encodes ((k, v) ∷ m) s =
      let (d, e, h) = batch_rows-Encodes m s.1 in ((k, s.0.0) ∷ d, rw (s.0.1, e), (refl, s.0.2, h))

  Above-Encodes :
      (i : Text) (m : TextMap A) (d : TextMap Bytes) → Encodes m d → Above i m → Above i d
  Above-Encodes i [] [] h a = tt
  Above-Encodes i [] (_ ∷ _) h a = elim h [ ]
  Above-Encodes i (_ ∷ _) [] h a = elim h [ ]
  Above-Encodes i ((k, v) ∷ m) ((j, b) ∷ d) h a = (rw h.0 a.0, Above-Encodes i m d h.2 a.1)

  Encodes-IsOrdered : (m : TextMap A) (d : TextMap Bytes) → Encodes m d → IsOrdered m → IsOrdered d
  Encodes-IsOrdered [] [] h o = tt
  Encodes-IsOrdered [] (_ ∷ _) h o = elim h [ ]
  Encodes-IsOrdered (_ ∷ _) [] h o = elim h [ ]
  Encodes-IsOrdered ((k, v) ∷ m) ((j, b) ∷ d) h o =
      (rw h.0 (Above-Encodes k m d h.2 o.0), Encodes-IsOrdered m d h.2 o.1)

  load_rows-Encodes :
      (m acc : TextMap A) (d : TextMap Bytes)
      → Encodes m d
      → load_rows decode d acc ≡ insert_all m acc
  unfolding load_rows insert_all
  load_rows-Encodes [] acc [] h = refl
  load_rows-Encodes [] acc (_ ∷ _) h = elim h [ ]
  load_rows-Encodes (_ ∷ _) acc [] h = elim h [ ]
  load_rows-Encodes ((k, v) ∷ m) acc ((j, b) ∷ d) h =
      rw (h.0, h.1) (load_rows-Encodes m (insert k v acc) d h.2)

  -- A savable snapshot always makes a batch, and loading the table that the batch left, whatever it
  -- held before, gives the snapshot.
  pub load-replace :
      (T : Table) (m : TextMap A) (t : T.State)
      → IsSavable m
      → IsOrdered m
      → (d : TextMap Bytes) × (batch_rows encode m ≡ some d)
        × (load_rows decode (T.rows (replace_rows T d (stale_keys (keys (T.rows t)) d) t)) [] ≡ m)
  load-replace T m t s o =
      let (d, e, h) = batch_rows-Encodes m s in
      (
        d,
        e,
        ap (λ (r : TextMap Bytes). load_rows decode r [])
              (rows-replace_rows T d t (Encodes-IsOrdered m d h o))
            ∙ load_rows-Encodes m [] d h
            ∙ insert_all-nil m o,
      )

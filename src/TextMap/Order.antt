-- ===== src/TextMap/Order.antt =====
-- The representation invariant of a map, that the operations keep it, and that two maps with the
-- same entries are equal.
use oxidrive.Base.{◌≡◌, refl, Bool, none, [], ◌∷◌, Ordering, arith}
use oxidrive.Text.{Text, text_cmp}
use oxidrive.Text.Order.{lt_of_gt, text_lt_trans}
use oxidrive.TextMap.{TextMap, lookup, upsert, remove, retain}

module _ {ℓ} {V : Type ℓ} where
  -- Every key comes behind `k`.
  abbrev pub Above : Text → TextMap V → Type 0
  Above k [] = Unit
  Above k ((j, v) ∷ m) = (text_cmp k j ≡ Ordering.lt) × Above k m

  -- The keys strictly increase.
  abbrev pub IsOrdered : TextMap V → Type 0
  IsOrdered [] = Unit
  IsOrdered ((k, v) ∷ m) = Above k m × IsOrdered m

  pub Above-trans :
      (j k : Text) (m : TextMap V) → text_cmp j k ≡ Ordering.lt → Above k m → Above j m
  Above-trans j k [] h a = tt
  Above-trans j k ((i, v) ∷ m) h a = (text_lt_trans j k i h a.0, Above-trans j k m h a.1)

  Above-upsert :
      (f : V → V) (j k : Text) (v : V) (m : TextMap V)
      → text_cmp j k ≡ Ordering.lt
      → Above j m
      → Above j (upsert f k v m)
  unfolding upsert
  Above-upsert f j k v [] h a = (h, tt)
  Above-upsert f j k v ((i, w) ∷ m) h a = ground (arith, Above-upsert f j k v m h)

  pub upsert-IsOrdered :
      (f : V → V) (k : Text) (v : V) (m : TextMap V) → IsOrdered m → IsOrdered (upsert f k v m)
  unfolding upsert
  upsert-IsOrdered f k v [] o = (tt, tt)
  upsert-IsOrdered f k v ((j, w) ∷ m) o =
      ground (
        arith,
        upsert-IsOrdered f k v m o.1,
        Above-upsert f j k v m,
        lt_of_gt k j,
        Above-trans k j m,
      )

  pub Above-remove : (j k : Text) (m : TextMap V) → Above j m → Above j (remove k m)
  unfolding remove
  Above-remove j k [] a = tt
  Above-remove j k ((i, w) ∷ m) a = ground (arith, Above-remove j k m)

  pub remove-IsOrdered : (k : Text) (m : TextMap V) → IsOrdered m → IsOrdered (remove k m)
  unfolding remove
  remove-IsOrdered k [] o = tt
  remove-IsOrdered k ((j, w) ∷ m) o = ground (arith, remove-IsOrdered k m o.1, Above-remove j k m)

  pub Above-retain :
      (j : Text) (f : Text → V → Bool) (m : TextMap V) → Above j m → Above j (retain f m)
  unfolding retain
  Above-retain j f [] a = tt
  Above-retain j f ((i, w) ∷ m) a = ground (arith, Above-retain j f m)

  pub retain-IsOrdered :
      (f : Text → V → Bool) (m : TextMap V) → IsOrdered m → IsOrdered (retain f m)
  unfolding retain
  retain-IsOrdered f [] o = tt
  retain-IsOrdered f ((j, w) ∷ m) o = ground (arith, retain-IsOrdered f m o.1, Above-retain j f m)

  -- A key in front of all others has no entry.
  pub lookup-Above : (k : Text) (m : TextMap V) → Above k m → lookup k m ≡ none
  unfolding lookup
  lookup-Above k [] a = refl
  lookup-Above k ((j, v) ∷ m) a = ground (arith, lookup-Above k m)
